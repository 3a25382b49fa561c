-- ===== src/Directory/Patch.antt =====
-- The patches of a sorted snapshot, next to insertion, replacement and deletion by name.
use net_drive.Prelude.{
  ℕ, zero, suc, ◌≤◌, ◌≡◌, refl, true, arith, leb, List, [], ◌∷◌, ◌++◌, if◌then◌else◌, ◌==◌, text_eq,
  text_beq_iff, length, take, drop,
}
use net_drive.Prelude.Text.{Text, text_geb}
use net_drive.Protocol.{DirEntry}
use net_drive.Directory.{search, not_before, is_at, upsert_entry, remove_entry}
use net_drive.Directory.Search.{search-boundary}
use net_drive.Directory.Order.{AllAfter, IsSorted, text_geb_refl, text_geb_trans, text_geb_total}

-- How many of the first entries come before the name.
rank : List DirEntry → Text → ℕ
rank [] name = 0
rank (x ∷ entries) name = if text_geb x.name name then 0 else suc (rank entries name)

rank-le : (entries : List DirEntry) (name : Text) → rank entries name ≤ length entries
unfolding rank
rank-le [] name = omega arith
rank-le (x ∷ entries) name = ground (arith, rank-le entries name)

not_before_of_AllAfter :
    (entries : List DirEntry) (s name : Text) (i : ℕ)
    → AllAfter s entries
    → text_geb s name ≡ true
    → not_before entries name i ≡ true
unfolding not_before
not_before_of_AllAfter [] s name i a h = refl
not_before_of_AllAfter (x ∷ entries) s name zero a h =
    text_geb_trans x.name s name (text_geb_total s x.name a.0) h
not_before_of_AllAfter (x ∷ entries) s name (suc i) a h =
    not_before_of_AllAfter entries s name i a.1 h

-- On a sorted list the test of the search turns true at the rank of the name.
not_before-rank :
    (entries : List DirEntry) (name : Text) (i : ℕ)
    → IsSorted entries
    → not_before entries name i ≡ leb (rank entries name) i
unfolding not_before rank
not_before-rank [] name i s = ground arith
not_before-rank (x ∷ entries) name zero s = ground arith
not_before-rank (x ∷ entries) name (suc i) s =
    ground
      (arith, not_before-rank entries name i s.1, not_before_of_AllAfter entries x.name name i s.0)

search-rank :
    (entries : List DirEntry) (name : Text)
    → IsSorted entries
    → search (length entries) (not_before entries name) ≡ rank entries name
search-rank entries name s =
    search-boundary (length entries) (not_before entries name) (rank entries name)
      (λ i j le. ground (arith, not_before-rank entries name i s, not_before-rank entries name j s))
      (rank-le entries name) (λ k lt. ground (arith, not_before-rank entries name k s))
      (λ _. ground (arith, not_before-rank entries name (rank entries name) s))

-- The reference: put the entry where its name is or belongs, and delete by name.
unfoldable pub insert_by_name : DirEntry → List DirEntry → List DirEntry
insert_by_name e [] = e ∷ []
insert_by_name e (x ∷ entries) =
    let rest = insert_by_name e entries in
    if text_geb x.name e.name
    then (if x.name == e.name then e ∷ entries else e ∷ x ∷ entries)
    else x ∷ rest

unfoldable pub delete_by_name : Text → List DirEntry → List DirEntry
delete_by_name name [] = []
delete_by_name name (x ∷ entries) =
    let rest = delete_by_name name entries in if x.name == name then entries else x ∷ rest

patch_at_rank :
    (entries : List DirEntry) (e : DirEntry)
    → (if is_at entries e.name (rank entries e.name)
        then take (rank entries e.name) entries ++ (e ∷ drop (suc (rank entries e.name)) entries)
        else take (rank entries e.name) entries ++ (e ∷ drop (rank entries e.name) entries))
      ≡ insert_by_name e entries
unfolding is_at rank insert_by_name
patch_at_rank [] e = refl
patch_at_rank (x ∷ entries) e = ground (arith, patch_at_rank entries e)

-- Upserting into a sorted snapshot replaces the entry of that name, or inserts the new one before
-- the first entry whose name is greater.
pub upsert_entry-insert_by_name :
    (entries : List DirEntry) (e : DirEntry)
    → IsSorted entries
    → upsert_entry entries e ≡ insert_by_name e entries
unfolding upsert_entry
upsert_entry-insert_by_name entries e s =
    rw (search-rank entries e.name s) (patch_at_rank entries e)

delete_by_name-absent :
    (entries : List DirEntry) (s name : Text)
    → AllAfter s entries
    → text_geb s name ≡ true
    → delete_by_name name entries ≡ entries
unfolding delete_by_name
delete_by_name-absent [] s name a h = refl
delete_by_name-absent (x ∷ entries) s name a h =
    ground (arith, delete_by_name-absent entries s name a.1 h, text_beq_iff x.name name, a.0)

delete_at_rank :
    (entries : List DirEntry) (name : Text)
    → IsSorted entries
    → (if is_at entries name (rank entries name)
        then take (rank entries name) entries ++ drop (suc (rank entries name)) entries
        else entries)
      ≡ delete_by_name name entries
unfolding is_at rank delete_by_name
delete_at_rank [] name s = refl
delete_at_rank (x ∷ entries) name s = ground (
  arith,
  delete_at_rank entries name s.1,
  delete_by_name-absent entries x.name name s.0,
  text_beq_iff x.name name,
  text_geb_refl name,
)

-- Removing a name from a sorted snapshot drops the entry of that name, if there is one.
pub remove_entry-delete_by_name :
    (entries : List DirEntry) (name : Text)
    → IsSorted entries
    → remove_entry entries name ≡ delete_by_name name entries
unfolding remove_entry
remove_entry-delete_by_name entries name s =
    rw (search-rank entries name s) (delete_at_rank entries name s)
