-- ===== src/Tests/Backend.antt =====
-- The backend at its start, and with one file.
use net_drive.Prelude.{ℕ, ◌≡◌, refl, false, some, [], arith, text_beq, nat_eq, text_eq}
use net_drive.Prelude.Map
use net_drive.Prelude.Text.{Text, codes, trim_prefix}
use net_drive.Prelude.Text.Paths.{dir}
use net_drive.Backend.Defs.{MetadataBackend, FileInfo}
use net_drive.Backend.Nodes.{ensure_node, move_path_mapping, relative, add_node, parent_path}
use net_drive.Backend.Cache.{
  prune_expired_caches, record_negative, is_negative_cached, store_node_info, cached_node_info,
  node_info_from_os_info,
}
use net_drive.Backend.Entries.{empty_backend}
use net_drive.Backend.Tables.{IsValid}
use net_drive.Backend.NodeTable.{ensure_node_lem, move_path_mapping_lem, empty_backend-IsValid}
use net_drive.Backend.Freshness.{answers, prune_expired_caches_lem, record_negative-store_node_info}

abbrev start : MetadataBackend
start = empty_backend (codes "/srv")

root_stored : Map.get start.nodes_by_path [] ≡ some 1
unfolding empty_backend Map.get Map.insert text_beq
root_stored = refl

ensure_node_test : (ensure_node start (codes "src/a") 0).1 ≡ 3
unfolding ensure_node empty_backend Map.get Map.insert text_beq trim_prefix add_node parent_path dir
ensure_node_test = refl

ensure_node_lem_example :
    IsValid (ensure_node start (codes "src/a") 0).0
    × (Map.get (ensure_node start (codes "src/a") 0).0.nodes_by_path (relative (codes "src/a"))
        ≡ some (ensure_node start (codes "src/a") 0).1)
    × ((p : Text) (j : ℕ)
        → Map.get start.nodes_by_path p ≡ some j
        → Map.get (ensure_node start (codes "src/a") 0).0.nodes_by_path p ≡ some j)
ensure_node_lem_example =
    ensure_node_lem start (codes "src/a") 0 (empty_backend-IsValid (codes "/srv")) root_stored
      (unfold empty_backend in omega arith)

abbrev with_file : MetadataBackend
with_file = (ensure_node start (codes "a") 1).0

with_file-IsValid : IsValid with_file
with_file-IsValid =
    (ensure_node_lem start (codes "a") 1 (empty_backend-IsValid (codes "/srv")) root_stored
      (unfold empty_backend in omega arith)).0

file_stored : Map.get with_file.nodes_by_path (codes "a") ≡ some 2
unfolding ensure_node empty_backend Map.get Map.insert text_beq trim_prefix add_node
file_stored = refl

move_path_mapping_lem_example :
    IsValid (move_path_mapping with_file (codes "a") (codes "b") 1)
    × (Map.get (move_path_mapping with_file (codes "a") (codes "b") 1).nodes_by_path (codes "b")
        ≡ some 2)
unfolding text_beq
move_path_mapping_lem_example =
    move_path_mapping_lem with_file (codes "a") (codes "b") (codes "b") 1 2 with_file-IsValid
      file_stored

abbrev searched : MetadataBackend
searched = record_negative (record_negative start 0 (codes "x")) 5 (codes "y")

prune_expired_caches_lem_example :
    answers (prune_expired_caches searched 2_000_000_003) 2_000_000_004 (codes "y") 1
    ≡ answers searched 2_000_000_004 (codes "y") 1
prune_expired_caches_lem_example =
    prune_expired_caches_lem searched 2_000_000_003 2_000_000_004 1 (codes "y") (omega arith)

abbrev y_info : FileInfo
y_info = record { name = codes "y"; is_dir = false; size = 3; mode = 420; mod_time = [] }

abbrev found_y : MetadataBackend
found_y = (store_node_info (record_negative start 5 (codes "y")) 7 (codes "y") 1 2 y_info).0

record_negative-store_node_info_example :
    (is_negative_cached (record_negative start 5 (codes "y")) 2_000_000_006 (codes "y") ≡ false)
    × (is_negative_cached found_y 2_000_000_006 (codes "y") ≡ false)
    × (cached_node_info found_y 2_000_000_006 (codes "y")
        ≡ some (node_info_from_os_info (codes "y") 1 2 y_info))
unfolding empty_backend text_beq
record_negative-store_node_info_example =
    record_negative-store_node_info start 5 7 2_000_000_006 1 2 (codes "y") (codes "y") y_info
