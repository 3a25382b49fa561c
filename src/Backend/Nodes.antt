-- ===== src/Backend/Nodes.antt =====
-- internal/server/metadata_backend.go: the table of nodes, by number and by path.
use net_drive.Prelude.{
  ℕ, zero, suc, Option, Bool, none, some, [], ◌∷◌, if◌then◌else◌, ◌==◌, nat_eq, text_eq, Result, ok,
  err, ◌&&◌, not,
}
use net_drive.Prelude.Map
use net_drive.Prelude.Text.{Text, codes, slash, is_empty, trim_prefix, has_slash}
use net_drive.Prelude.Text.Paths.{dir, join_path}
use net_drive.Prelude.Words.{next_u64}
use net_drive.Backend.Defs.{
  MetadataBackend, NodeRecord, FileHandle, BackendError, not_exist, invalid_handle,
}

unfoldable pub node_by_id : MetadataBackend → ℕ → Result BackendError NodeRecord
node_by_id b id = elim (Map.get b.nodes_by_id id) [ none ↦ err not_exist | some rec ↦ ok rec ]

unfoldable pub handle_by_id : MetadataBackend → ℕ → Result BackendError FileHandle
handle_by_id b id = elim (Map.get b.handles id) [ none ↦ err invalid_handle | some h ↦ ok h ]

-- strings.TrimPrefix(path, "/")
abbrev pub relative : Text → Text
relative path = trim_prefix path (slash ∷ [])

-- strings.TrimPrefix(filepath.Join(parent, name), "/")
abbrev pub child_path : Text → Text → Text
child_path parent name = relative (join_path parent name)

-- filepath.Dir(path), with "" for "."
unfoldable pub parent_path : Text → Text
parent_path path = let parent = dir path in if parent == codes "." then [] else parent

unfoldable pub abs_path : MetadataBackend → Text → Text
abs_path b [] = b.root_path
abs_path b (c ∷ path) = join_path b.root_path (c ∷ path)

unfoldable pub is_valid_single_name : Text → Bool
is_valid_single_name name =
    not (is_empty name)
    && not (name == codes ".")
    && not (name == codes "..")
    && not (has_slash name)

-- The end of ensureNode, under the lock: the path's node, if another call has made one, or a new
-- node with the number.
unfoldable pub claim_node : MetadataBackend → Text → ℕ → ℕ → Option ℕ → MetadataBackend × ℕ
claim_node b path parent_id id (some existing) = (b, existing)
claim_node b path parent_id id none = (
  record b {
    nodes_by_path = Map.insert b.nodes_by_path path id;
    nodes_by_id =
        Map.insert b.nodes_by_id id (record { id = id; parent_id = parent_id; rel_path = path });
  },
  id,
)

unfoldable pub add_node : MetadataBackend → Text → ℕ → MetadataBackend × ℕ
unfolding claim_node
add_node b path parent_id =
    let id = next_u64 b.next_node_id in
    claim_node (record b { next_node_id = id }) path parent_id id (Map.get b.nodes_by_path path)

-- ensureNode with a parent that is not 0
unfoldable pub use_or_add : MetadataBackend → Text → ℕ → Option ℕ → MetadataBackend × ℕ
use_or_add b path parent_id (some id) = (b, id)
use_or_add b path parent_id none = if is_empty path then (b, 1) else add_node b path parent_id

unfoldable pub ensure_node_under : MetadataBackend → Text → ℕ → MetadataBackend × ℕ
unfolding use_or_add
ensure_node_under b path parent_id = use_or_add b path parent_id (Map.get b.nodes_by_path path)

-- The number is what the table has for the path, before.
unfoldable pub ensure_path : MetadataBackend → Text → ℕ → Option ℕ → MetadataBackend × ℕ
unfolding ensure_node_under
ensure_path b path parent_hint (some id) = (b, id)
ensure_path b [] parent_hint none = (b, 1)
ensure_path b (c ∷ path) zero none =
    let (b', parent) = ensure_node_under b (relative (parent_path (c ∷ path))) 1 in
    add_node b' (c ∷ path) parent
ensure_path b (c ∷ path) (suc parent_hint) none = add_node b (c ∷ path) (suc parent_hint)

unfoldable pub ensure_node : MetadataBackend → Text → ℕ → MetadataBackend × ℕ
unfolding ensure_path
ensure_node b rel_path parent_hint =
    let path = relative rel_path in ensure_path b path parent_hint (Map.get b.nodes_by_path path)

-- The three caches that are indexed by paths, without a path.
unfoldable pub forget_path : MetadataBackend → Text → MetadataBackend
forget_path b path = record b {
  attr_cache = Map.delete b.attr_cache path;
  negative_cache = Map.delete b.negative_cache path;
  small_file_cache = Map.delete b.small_file_cache path;
}

-- The record of a number that is in nodesByPath; Go reads a zero record if there is none.
unfoldable pub record_of : MetadataBackend → ℕ → NodeRecord
record_of b id = elim (Map.get b.nodes_by_id id) [
  | none ↦ record { id = 0; parent_id = 0; rel_path = [] }
  | some rec ↦ rec
]

-- The two maps of nodes, where the path had this number.
unfoldable pub move_node : MetadataBackend → Option ℕ → Text → Text → ℕ → MetadataBackend
move_node b none src dst dst_parent_id = b
move_node b (some id) src dst dst_parent_id = record b {
  nodes_by_path = Map.insert (Map.delete b.nodes_by_path src) dst id;
  nodes_by_id =
      Map.insert b.nodes_by_id id
        (record (record_of b id) { rel_path = dst; parent_id = dst_parent_id });
}

unfoldable pub move_path_mapping : MetadataBackend → Text → Text → ℕ → MetadataBackend
unfolding forget_path
move_path_mapping b src dst dst_parent_id =
    let moved = move_node b (Map.get b.nodes_by_path src) src dst dst_parent_id in
    forget_path (forget_path moved src) dst

unfoldable pub remove_node : MetadataBackend → Option ℕ → Text → MetadataBackend
remove_node b none path = b
remove_node b (some id) path = record b {
  nodes_by_path = Map.delete b.nodes_by_path path;
  nodes_by_id = Map.delete b.nodes_by_id id;
}

unfoldable pub remove_path_mapping : MetadataBackend → Text → MetadataBackend
unfolding forget_path
remove_path_mapping b path = forget_path (remove_node b (Map.get b.nodes_by_path path) path) path
