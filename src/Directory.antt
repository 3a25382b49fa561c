-- ===== src/Directory.antt =====
-- internal/server/metadata_backend.go: the entries of a cached directory snapshot, in the order
-- of their names, and the pages that ReadDir cuts from a cursor.
pub mod Search
pub mod Order
pub mod Patch
pub mod Lookup
pub mod Paging
use net_drive.Prelude.{
  ℕ, zero, suc, ◌+◌, ◌/◌, ◌%◌, ◌^◌, Bool, true, false, Option, none, some, List, [], ◌∷◌, ◌++◌, ltb,
  leb, eqb, if◌then◌else◌, ◌==◌, text_eq, text_beq, length, get_elem?, take, drop, ◌||◌,
}
use net_drive.Prelude.Text.{Text, text_geb}
use net_drive.Protocol.{DirEntry, NodeInfo, ReadDirResp}

-- The loop of sort.Search(n, f), with fuel for its rounds.
unfoldable pub search_loop : ℕ → (ℕ → Bool) → ℕ → ℕ → ℕ
search_loop zero f i j = i
search_loop (suc fuel) f i j =
    let h = (i + j) / 2 in
    let rest = search_loop fuel f (if f h then i else h + 1) (if f h then h else j) in
    if ltb i j then rest else i

-- Each round makes `j - i` smaller, so n rounds are enough.
unfoldable pub search : ℕ → (ℕ → Bool) → ℕ
unfolding search_loop
search n f = search_loop n f 0 n

-- entries[i].Name >= name
unfoldable pub not_before : List DirEntry → Text → ℕ → Bool
not_before entries name i = elim (get_elem? entries i) [
  | none ↦ true
  | some x ↦ text_geb x.name name
]

-- idx < len(entries) && entries[idx].Name == name
unfoldable pub is_at : List DirEntry → Text → ℕ → Bool
is_at entries name i = elim (get_elem? entries i) [ none ↦ false | some x ↦ x.name == name ]

-- The new entries of upsertCachedDirSnapshot and of removeCachedDirSnapshotEntry.
unfoldable pub upsert_entry : List DirEntry → DirEntry → List DirEntry
upsert_entry entries entry =
    let idx = search (length entries) (not_before entries entry.name) in
    if is_at entries entry.name idx
    then take idx entries ++ (entry ∷ drop (suc idx) entries)
    else take idx entries ++ (entry ∷ drop idx entries)

unfoldable pub remove_entry : List DirEntry → Text → List DirEntry
remove_entry entries name =
    let idx = search (length entries) (not_before entries name) in
    if is_at entries name idx then take idx entries ++ drop (suc idx) entries else entries

-- dirEntryFromNodeInfo
unfoldable pub dir_entry_from_node_info : NodeInfo → DirEntry
dir_entry_from_node_info info = record {
  node_id = info.node_id;
  name = info.name;
  file_type = info.file_type;
  size = info.size;
  mode = info.mode;
  mod_time = info.mod_time;
}

-- int(cookie), which is negative from 2^63 on, brought into range.
unfoldable pub page_start : ℕ → ℕ → ℕ
page_start cookie n = if leb (2 ^ 63) cookie || ltb n cookie then n else cookie

-- The page of a cursor's entries that ReadDir returns.
unfoldable pub read_page : List DirEntry → ℕ → ℕ → ReadDirResp
unfolding page_start
read_page entries cookie max_entries =
    let n = length entries in
    let start = page_start cookie n in
    let size = if eqb max_entries 0 then 128 else max_entries in
    let end' = if ltb n (start + size) then n else start + size in
    record { entries = drop start (take end' entries); next_cookie = end'; eof = leb n end' }
