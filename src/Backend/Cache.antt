-- ===== src/Backend/Cache.antt =====
-- internal/server/metadata_backend.go: the caches of attributes, of missing paths, of directories
-- and of small files. `now` is the value of b.now().
use net_drive.Prelude.{
  ℕ, ◌+◌, Bool, true, false, Option, none, some, List, ◌||◌, eqb, leb, ltb, if◌then◌else◌, nat_eq,
  Eq, text_eq, length,
}
use net_drive.Prelude.Map
use net_drive.Prelude.Map.{Map, empty, binding}
use net_drive.Prelude.Text.{Text, is_empty}
use net_drive.Prelude.Text.Paths.{base}
use net_drive.Protocol.{NodeInfo, DirEntry, file, directory}
use net_drive.Directory.{
  search, is_at, not_before, upsert_entry, remove_entry, dir_entry_from_node_info,
}
use net_drive.Backend.Defs.{MetadataBackend, Cached, FileInfo}
use net_drive.Backend.Nodes.{relative, forget_path}

unfoldable pub is_fresh : ℕ → ℕ → Bool
is_fresh now expires_at = leb now expires_at

-- A cached value, unless it is missing or stale.
unfoldable pub fresh {ℓ} : {A : Type ℓ} → ℕ → Option (Cached A) → Option A
unfolding is_fresh
fresh now none = none
fresh now (some c) = if is_fresh now c.expires_at then some c.value else none

unfoldable pub until {ℓ} : {A : Type ℓ} → MetadataBackend → ℕ → A → Cached A
until b now a = record { value = a; expires_at = now + b.cache_ttl }

unfoldable pub cached_node_info : MetadataBackend → ℕ → Text → Option NodeInfo
cached_node_info b now path = fresh now (Map.get b.attr_cache path)

unfoldable pub cached_dir_snapshot : MetadataBackend → ℕ → ℕ → Option (List DirEntry)
cached_dir_snapshot b now node_id = fresh now (Map.get b.dir_snapshots node_id)

unfoldable pub cached_small_file_data : MetadataBackend → ℕ → Text → Option Text
cached_small_file_data b now path = fresh now (Map.get b.small_file_cache path)

unfoldable pub is_negative_cached : MetadataBackend → ℕ → Text → Bool
is_negative_cached b now path = elim (fresh now (Map.get b.negative_cache path)) [
  | none ↦ false
  | some u ↦ true
]

unfoldable pub record_negative : MetadataBackend → ℕ → Text → MetadataBackend
record_negative b now path = record b {
  negative_cache = Map.insert b.negative_cache path (until b now tt);
}

unfoldable pub clear_negative : MetadataBackend → Text → MetadataBackend
clear_negative b path = record b { negative_cache = Map.delete b.negative_cache path }

unfoldable pub store_attr : MetadataBackend → ℕ → Text → NodeInfo → MetadataBackend
store_attr b now path info = record b {
  attr_cache = Map.insert b.attr_cache path (until b now info);
}

unfoldable pub store_dir_snapshot : MetadataBackend → ℕ → ℕ → List DirEntry → MetadataBackend
store_dir_snapshot b now node_id entries = record b {
  dir_snapshots = Map.insert b.dir_snapshots node_id (until b now entries);
}

unfoldable pub store_small_file : MetadataBackend → ℕ → Text → Text → MetadataBackend
store_small_file b now path bytes = record b {
  small_file_cache = Map.insert b.small_file_cache path (until b now bytes);
}

unfoldable pub node_info_from_os_info : Text → ℕ → ℕ → FileInfo → NodeInfo
node_info_from_os_info path parent_id node_id info = record {
  node_id = node_id;
  parent_node_id = parent_id;
  name = if is_empty path then info.name else base path;
  file_type = if info.is_dir then directory else file;
  size = info.size;
  mode = info.mode;
  mod_time = info.mod_time;
}

unfoldable pub store_node_info :
    MetadataBackend → ℕ → Text → ℕ → ℕ → FileInfo → MetadataBackend × NodeInfo
unfolding clear_negative store_attr
store_node_info b now path parent_id node_id info =
    let entry = node_info_from_os_info path parent_id node_id info in
    (store_attr (clear_negative b path) now path entry, entry)

unfoldable pub upsert_cached_dir_snapshot : MetadataBackend → ℕ → ℕ → NodeInfo → MetadataBackend
unfolding store_dir_snapshot
upsert_cached_dir_snapshot b now parent_id info =
    if eqb parent_id 0 then b else elim (cached_dir_snapshot b now parent_id) [
      | none ↦ b
      | some entries ↦
          store_dir_snapshot b now parent_id (upsert_entry entries (dir_entry_from_node_info info))
    ]

unfoldable pub remove_cached_dir_snapshot_entry : MetadataBackend → ℕ → ℕ → Text → MetadataBackend
unfolding store_dir_snapshot
remove_cached_dir_snapshot_entry b now parent_id name =
    if eqb parent_id 0 || is_empty name then b else elim (cached_dir_snapshot b now parent_id) [
      | none ↦ b
      | some entries ↦
          if is_at entries name (search (length entries) (not_before entries name))
          then store_dir_snapshot b now parent_id (remove_entry entries name)
          else b
    ]

unfoldable pub invalidate_dir_snapshot : MetadataBackend → ℕ → MetadataBackend
invalidate_dir_snapshot b node_id =
    if eqb node_id 0 then b else record b { dir_snapshots = Map.delete b.dir_snapshots node_id }

unfoldable pub invalidate_entry : MetadataBackend → Text → MetadataBackend
unfolding forget_path
invalidate_entry b path = forget_path b (relative path)

unfoldable pub invalidate_path : MetadataBackend → Text → ℕ → MetadataBackend
unfolding invalidate_entry invalidate_dir_snapshot
invalidate_path b path parent_id =
    let b' = invalidate_dir_snapshot (invalidate_entry b path) parent_id in
    if is_empty (relative path) then invalidate_dir_snapshot b' 1 else b'

-- for k, v := range m { if now.After(v.expiresAt) { delete(m, k) } }
unfoldable pub prune {ℓ κ} :
    {K : Type ℓ} {A : Type κ} ⦃d : Eq K⦄ → ℕ → Map K (Cached A) → Map K (Cached A)
prune now empty = empty
prune now (binding k c rest) =
    let kept = prune now rest in
    if ltb c.expires_at now then Map.delete kept k else binding k c kept

unfoldable pub prune_expired_caches : MetadataBackend → ℕ → MetadataBackend
unfolding prune
prune_expired_caches b now = record b {
  attr_cache = prune now b.attr_cache;
  negative_cache = prune now b.negative_cache;
  dir_snapshots = prune now b.dir_snapshots;
  small_file_cache = prune now b.small_file_cache;
}
