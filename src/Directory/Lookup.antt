-- ===== src/Directory/Lookup.antt =====
-- Patched snapshots of internal/server/metadata_backend.go, as finite maps from names to entries.
use net_drive.Prelude.{
  ◌≡◌, refl, subst, true, false, arith, List, [], ◌∷◌, if◌then◌else◌, ◌==◌, text_eq, text_beq_iff,
  Option, none, some, Bool-cases, inl, inr,
}
use net_drive.Prelude.Text.{Text, text_geb}
use net_drive.Protocol.{DirEntry}
use net_drive.Directory.{upsert_entry, remove_entry}
use net_drive.Directory.Order.{
  Before, AllAfter, IsSorted, AllAfter-trans, text_geb_refl, text_geb_antisym,
}
use net_drive.Directory.Patch.{
  insert_by_name, delete_by_name, upsert_entry-insert_by_name, remove_entry-delete_by_name,
}

-- The entry of a name.
unfoldable pub find_entry : Text → List DirEntry → Option DirEntry
find_entry name [] = none
find_entry name (x ∷ entries) = if x.name == name then some x else find_entry name entries

AllAfter-insert_by_name :
    (entries : List DirEntry) (s : Text) (e : DirEntry)
    → AllAfter s entries
    → Before s e.name
    → AllAfter s (insert_by_name e entries)
unfolding insert_by_name
AllAfter-insert_by_name [] s e a h = (h, tt)
AllAfter-insert_by_name (x ∷ entries) s e a h = elim (Bool-cases (text_geb x.name e.name)) [
  | inr before ↦ rw before (a.0, AllAfter-insert_by_name entries s e a.1 h)
  | inl after ↦ rw after (elim (Bool-cases (x.name == e.name)) [
    | inl same ↦ rw same (h, a.1)
    | inr other ↦ rw other (h, a)
  ])
]

not_geb : (s t : Text) → text_geb s t ≡ true → (s == t) ≡ false → Before t s
not_geb s t h ne = ground (arith, text_geb_antisym s t h, text_beq_iff s t)

insert_by_name-IsSorted :
    (entries : List DirEntry) (e : DirEntry)
    → IsSorted entries
    → IsSorted (insert_by_name e entries)
unfolding insert_by_name
insert_by_name-IsSorted [] e s = (tt, tt)
insert_by_name-IsSorted (x ∷ entries) e s = elim (Bool-cases (text_geb x.name e.name)) [
  | inr before ↦
      rw before
        (AllAfter-insert_by_name entries x.name e s.0 before, insert_by_name-IsSorted entries e s.1)
  | inl after ↦ rw after (elim (Bool-cases (x.name == e.name)) [
    | inl same ↦
        rw same (subst (λ n. AllAfter n entries) ((text_beq_iff x.name e.name).0 same) s.0, s.1)
    | inr other ↦ rw other (
        let before : Before e.name x.name = not_geb x.name e.name after other in
        ((before, AllAfter-trans e.name x.name entries before s.0), s))
  ])
]

AllAfter-delete_by_name :
    (entries : List DirEntry) (s name : Text)
    → AllAfter s entries
    → AllAfter s (delete_by_name name entries)
unfolding delete_by_name
AllAfter-delete_by_name [] s name a = tt
AllAfter-delete_by_name (x ∷ entries) s name a = elim (Bool-cases (x.name == name)) [
  | inl same ↦ rw same a.1
  | inr other ↦ rw other (a.0, AllAfter-delete_by_name entries s name a.1)
]

delete_by_name-IsSorted :
    (entries : List DirEntry) (name : Text)
    → IsSorted entries
    → IsSorted (delete_by_name name entries)
unfolding delete_by_name
delete_by_name-IsSorted [] name s = tt
delete_by_name-IsSorted (x ∷ entries) name s = elim (Bool-cases (x.name == name)) [
  | inl same ↦ rw same s.1
  | inr other ↦
      rw other
        (AllAfter-delete_by_name entries x.name name s.0, delete_by_name-IsSorted entries name s.1)
]

find_entry-insert_by_name :
    (entries : List DirEntry) (e : DirEntry) (name : Text)
    → find_entry name (insert_by_name e entries)
      ≡ (if e.name == name then some e else find_entry name entries)
unfolding find_entry insert_by_name
find_entry-insert_by_name [] e name = refl
find_entry-insert_by_name (x ∷ entries) e name = ground (
  arith,
  find_entry-insert_by_name entries e name,
  text_geb_refl e.name,
  text_beq_iff x.name e.name,
  text_beq_iff x.name name,
  text_beq_iff e.name name,
)

find_entry-absent :
    (entries : List DirEntry) (name : Text) → AllAfter name entries → find_entry name entries ≡ none
unfolding find_entry
find_entry-absent [] name a = refl
find_entry-absent (x ∷ entries) name a =
    ground
      (arith, find_entry-absent entries name a.1, text_beq_iff x.name name, text_geb_refl name, a.0)

find_entry-delete_by_name :
    (entries : List DirEntry) (gone name : Text)
    → IsSorted entries
    → find_entry name (delete_by_name gone entries)
      ≡ (if gone == name then none else find_entry name entries)
unfolding find_entry delete_by_name
find_entry-delete_by_name [] gone name s = ground arith
find_entry-delete_by_name (x ∷ entries) gone name s = ground (
  arith,
  find_entry-delete_by_name entries gone name s.1,
  find_entry-absent entries x.name s.0,
  text_beq_iff x.name gone,
  text_beq_iff x.name name,
  text_beq_iff gone name,
)

-- Upserting into a sorted snapshot keeps it sorted; after it the name of the entry is found as that
-- entry, and every other name as before.
pub upsert_entry_lem :
    (entries : List DirEntry) (e : DirEntry) (name : Text)
    → IsSorted entries
    → IsSorted (upsert_entry entries e)
      × (find_entry name (upsert_entry entries e)
          ≡ (if e.name == name then some e else find_entry name entries))
upsert_entry_lem entries e name s =
    rw (upsert_entry-insert_by_name entries e s)
      (insert_by_name-IsSorted entries e s, find_entry-insert_by_name entries e name)

-- Removing a name from a sorted snapshot keeps it sorted; after it the name is not found, and every
-- other name as before.
pub remove_entry_lem :
    (entries : List DirEntry) (gone name : Text)
    → IsSorted entries
    → IsSorted (remove_entry entries gone)
      × (find_entry name (remove_entry entries gone)
          ≡ (if gone == name then none else find_entry name entries))
remove_entry_lem entries gone name s =
    rw (remove_entry-delete_by_name entries gone s)
      (delete_by_name-IsSorted entries gone s, find_entry-delete_by_name entries gone name s)
