-- ===== src/Backend/Freshness.antt =====
-- The caches of internal/server/metadata_backend.go over time, and pruneExpiredCachesLocked.
use net_drive.Prelude.{
  ℕ, ◌+◌, ◌≤◌, ◌≡◌, refl, Bool, false, Option, none, some, arith, leb, ltb, ◌==◌, Eq, nat_eq,
  text_eq, if◌then◌else◌, List,
}
use net_drive.Prelude.Map
use net_drive.Prelude.Map.{Map, empty, binding, get-delete, get-insert, map_laws}
use net_drive.Prelude.Text.{Text}
use net_drive.Protocol.{NodeInfo, DirEntry}
use net_drive.Backend.Defs.{MetadataBackend, Cached, FileInfo}
use net_drive.Backend.Cache.{
  fresh, until, prune, prune_expired_caches, is_negative_cached, cached_node_info,
  cached_dir_snapshot, cached_small_file_data, record_negative, store_node_info, is_fresh,
  clear_negative, store_attr, node_info_from_os_info,
}

get-prune {ℓ κ} :
    {K : Type ℓ} {A : Type κ} ⦃d : Eq K⦄ (now : ℕ) (m : Map K (Cached A)) (k : K)
    → Map.get (prune now m) k ≡ (elim (Map.get m k) [
      | none ↦ none
      | some c ↦ if ltb c.expires_at now then none else some c
    ])
unfolding prune Map.get
get-prune now empty k = refl
get-prune now (binding j c rest) k =
    ground (arith, get-prune now rest k, get-delete (prune now rest) j k)

fresh-prune {ℓ κ} :
    {K : Type ℓ} {A : Type κ} ⦃d : Eq K⦄ (now later : ℕ) (m : Map K (Cached A)) (k : K)
    → now ≤ later
    → fresh later (Map.get (prune now m) k) ≡ fresh later (Map.get m k)
unfolding fresh is_fresh
fresh-prune now later m k le = ground (arith, get-prune now m k)

-- The answers of the four caches, for a path and a node.
abbrev pub answers :
    MetadataBackend → ℕ → Text → ℕ → Option NodeInfo × Bool × Option (List DirEntry) × Option Text
answers b now path node_id = (
  cached_node_info b now path,
  is_negative_cached b now path,
  cached_dir_snapshot b now node_id,
  cached_small_file_data b now path,
)

-- Dropping the entries that have run out changes no answer of a cache, then or at a later time.
pub prune_expired_caches_lem :
    (b : MetadataBackend) (now later node_id : ℕ) (path : Text)
    → now ≤ later
    → answers (prune_expired_caches b now) later path node_id ≡ answers b later path node_id
unfolding prune_expired_caches cached_node_info is_negative_cached cached_dir_snapshot
    cached_small_file_data
prune_expired_caches_lem b now later node_id path le = ground (
  arith,
  fresh-prune now later b.attr_cache path le,
  fresh-prune now later b.negative_cache path le,
  fresh-prune now later b.dir_snapshots node_id le,
  fresh-prune now later b.small_file_cache path le,
)

-- A path that was found missing is answered as missing for the life of a cache entry, and no
-- longer; storing its attributes ends that at once, and they are answered for as long. Both
-- leave the answers for other paths as they were.
pub record_negative-store_node_info :
    (b : MetadataBackend) (now then_ later parent_id node_id : ℕ) (path p : Text) (info : FileInfo)
    → (is_negative_cached (record_negative b now path) later p
        ≡ (if path == p then leb later (now + b.cache_ttl) else is_negative_cached b later p))
      × (is_negative_cached
            (store_node_info (record_negative b now path) then_ path parent_id node_id info).0
            later
            p
          ≡ (if path == p then false else is_negative_cached b later p))
      × (cached_node_info
            (store_node_info (record_negative b now path) then_ path parent_id node_id info).0
            later
            p
          ≡ (if path == p
              then (if leb later (then_ + b.cache_ttl)
                  then some (node_info_from_os_info path parent_id node_id info)
                  else none)
              else cached_node_info b later p))
unfolding record_negative store_node_info is_negative_cached cached_node_info fresh is_fresh until
    clear_negative store_attr
record_negative-store_node_info b now then_ later parent_id node_id path p info =
    let entry = node_info_from_os_info path parent_id node_id info in
    ground (
      arith,
      get-insert b.negative_cache path (until b now tt) p,
      get-delete (Map.insert b.negative_cache path (until b now tt)) path p,
      get-insert b.attr_cache path (until b then_ entry) p,
    )
