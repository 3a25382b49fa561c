-- ===== src/Backend/HandleTable.antt =====
-- The table of open files of metadata_backend.go, and the steps that leave it alone.
use net_drive.Prelude.{
  ℕ, ◌≡◌, refl, ◌∙◌, false, Option, none, some, arith, ◌==◌, nat_eq, text_eq, Option-cases, inl,
  inr,
}
use net_drive.Prelude.Map
use net_drive.Prelude.Map.{Map, get-insert, get-delete}
use net_drive.Prelude.Text.{Text}
use net_drive.Protocol.{NodeInfo}
use net_drive.Backend.Defs.{FileInfo, MetadataBackend, FileHandle}
use net_drive.Backend.Nodes.{remove_path_mapping, remove_node}
use net_drive.Backend.Cache.{
  invalidate_entry, record_negative, store_node_info, upsert_cached_dir_snapshot,
  invalidate_dir_snapshot, remove_cached_dir_snapshot_entry,
}
use net_drive.Backend.Files.{update_handle}

pub invalidate_entry-handles :
    (path : Text) (b : MetadataBackend) → (invalidate_entry b path).handles ≡ b.handles
unfolding invalidate_entry
invalidate_entry-handles path b = refl

pub invalidate_dir_snapshot-handles :
    (id : ℕ) (b : MetadataBackend) → (invalidate_dir_snapshot b id).handles ≡ b.handles
unfolding invalidate_dir_snapshot
invalidate_dir_snapshot-handles id b = ground arith

pub record_negative-handles :
    (path : Text) (b : MetadataBackend) (now : ℕ) → (record_negative b now path).handles ≡ b.handles
unfolding record_negative
record_negative-handles path b now = refl

pub store_node_info-handles :
    (path : Text) (parent id : ℕ) (info : FileInfo) (b : MetadataBackend) (now : ℕ)
    → (store_node_info b now path parent id info).0.handles ≡ b.handles
unfolding store_node_info
store_node_info-handles path parent id info b now = refl

pub upsert_cached_dir_snapshot-handles :
    (parent : ℕ) (info : NodeInfo) (b : MetadataBackend) (now : ℕ)
    → (upsert_cached_dir_snapshot b now parent info).handles ≡ b.handles
unfolding upsert_cached_dir_snapshot
upsert_cached_dir_snapshot-handles parent info b now = ground arith

pub remove_cached_dir_snapshot_entry-handles :
    (parent : ℕ) (name : Text) (b : MetadataBackend) (now : ℕ)
    → (remove_cached_dir_snapshot_entry b now parent name).handles ≡ b.handles
unfolding remove_cached_dir_snapshot_entry
remove_cached_dir_snapshot_entry-handles parent name b now = ground arith

remove_node-handles :
    (b : MetadataBackend) (old : Option ℕ) (path : Text)
    → (remove_node b old path).handles ≡ b.handles
unfolding remove_node
remove_node-handles b none path = refl
remove_node-handles b (some n) path = refl

pub remove_path_mapping-handles :
    (path : Text) (b : MetadataBackend)
    → (invalidate_entry (remove_path_mapping b path) path).handles ≡ b.handles
unfolding remove_path_mapping invalidate_entry
remove_path_mapping-handles path b = remove_node-handles b (Map.get b.nodes_by_path path) path

pub update_handle-other :
    (b : MetadataBackend) (id : ℕ) (f : FileHandle → FileHandle) (j : ℕ)
    → (id == j) ≡ false
    → Map.get (update_handle b id f).handles j ≡ Map.get b.handles j
unfolding update_handle
update_handle-other b id f j ne = elim (Option-cases (Map.get b.handles id)) [
  | inl e ↦ rw (e, update_handle) refl
  | inr (h, e) ↦ rw (e, update_handle) (get-insert b.handles id (f h) j ∙ ground arith)
]
