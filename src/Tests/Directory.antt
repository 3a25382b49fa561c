-- ===== src/Tests/Directory.antt =====
-- A directory of two files.
use net_drive.Prelude.{ℕ, ◌≡◌, refl, List, [], ◌∷◌, arith, text_beq, some, none}
use net_drive.Prelude.Text.{Text, codes, text_geb}
use net_drive.Protocol.{DirEntry, FileType}
use net_drive.Directory.{upsert_entry, remove_entry, search, not_before, is_at}
use net_drive.Directory.Order.{IsSorted}
use net_drive.Directory.Patch.{insert_by_name, upsert_entry-insert_by_name}
use net_drive.Directory.Lookup.{find_entry, upsert_entry_lem, remove_entry_lem}
use net_drive.Directory.Paging.{read_all, read_all_lem}

abbrev plain : ℕ → Text → DirEntry
plain id name = record {
  node_id = id;
  name = name;
  file_type = FileType.file;
  size = 0;
  mode = 0;
  mod_time = [];
}

abbrev two_files : List DirEntry
two_files = plain 2 (codes "a.go") ∷ plain 3 (codes "c.go") ∷ []

two_files-IsSorted : IsSorted two_files
unfolding text_geb
two_files-IsSorted = ((refl, tt), (tt, tt))

upsert_test :
    upsert_entry two_files (plain 4 (codes "b.go"))
    ≡ plain 2 (codes "a.go") ∷ plain 4 (codes "b.go") ∷ plain 3 (codes "c.go") ∷ []
unfolding upsert_entry search not_before is_at text_geb text_beq
upsert_test = refl

remove_test : remove_entry two_files (codes "a.go") ≡ plain 3 (codes "c.go") ∷ []
unfolding remove_entry search not_before is_at text_geb text_beq
remove_test = refl

upsert_entry-insert_by_name_example :
    upsert_entry two_files (plain 4 (codes "b.go"))
    ≡ insert_by_name (plain 4 (codes "b.go")) two_files
upsert_entry-insert_by_name_example =
    upsert_entry-insert_by_name two_files (plain 4 (codes "b.go")) two_files-IsSorted

upsert_entry_lem_example :
    IsSorted (upsert_entry two_files (plain 4 (codes "b.go")))
    × (find_entry (codes "b.go") (upsert_entry two_files (plain 4 (codes "b.go")))
        ≡ some (plain 4 (codes "b.go")))
unfolding text_beq
upsert_entry_lem_example =
    upsert_entry_lem two_files (plain 4 (codes "b.go")) (codes "b.go") two_files-IsSorted

remove_entry_lem_example :
    IsSorted (remove_entry two_files (codes "a.go"))
    × (find_entry (codes "a.go") (remove_entry two_files (codes "a.go")) ≡ none)
unfolding text_beq
remove_entry_lem_example =
    remove_entry_lem two_files (codes "a.go") (codes "a.go") two_files-IsSorted

read_all_lem_example : read_all 3 two_files 0 1 ≡ two_files
read_all_lem_example = read_all_lem 3 two_files 0 1 (omega arith) (omega arith) (omega arith)
