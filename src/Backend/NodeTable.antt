-- ===== src/Backend/NodeTable.antt =====
-- ensureNode and movePathMapping of internal/server/metadata_backend.go, on the table of nodes.
use net_drive.Prelude.{
  ℕ, suc, zero, ◌+◌, ◌∷◌, ◌^◌, ◌≤◌, ◌<◌, ◌≡◌, refl, Option, none, some, [], arith, ◌==◌, nat_eq,
  text_eq, text_beq_iff, if◌then◌else◌,
}
use net_drive.Prelude.Map
use net_drive.Prelude.Map.{Map, get-insert, get-delete, get-empty}
use net_drive.Prelude.Text.{Text}
use net_drive.Prelude.Words.{next_u64}
use net_drive.Backend.Defs.{MetadataBackend, NodeRecord}
use net_drive.Backend.Tables.{path_of-insert, IsValid, IsTable-add, IsTable-move, IsTable-remove}
use net_drive.Backend.Entries.{empty_backend}
use net_drive.Backend.Nodes.{
  relative, parent_path, add_node, ensure_node_under, ensure_node, ensure_path, use_or_add,
  claim_node, record_of, move_node, remove_node, move_path_mapping, forget_path,
}

-- What a call that finds or makes the node of a path leaves behind: a consistent table, in which
-- the path has the number that was returned, and every other path the number that it had.
abbrev pub IsEnsured : MetadataBackend → Text → MetadataBackend × ℕ → Type 0
IsEnsured b path (b', id) =
    IsValid b'
    × (Map.get b'.nodes_by_path path ≡ some id)
    × ((p : Text) (j : ℕ)
        → Map.get b.nodes_by_path p ≡ some j
        → Map.get b'.nodes_by_path p ≡ some j)
    × (b'.next_node_id ≤ b.next_node_id + 1)

claim_node-IsEnsured :
    (b : MetadataBackend) (path : Text) (parent_id id : ℕ) (old : Option ℕ)
    → IsValid b
    → id ≡ b.next_node_id + 1
    → Map.get b.nodes_by_path path ≡ old
    → IsEnsured b path (claim_node (record b { next_node_id = id }) path parent_id id old)
unfolding claim_node
claim_node-IsEnsured b path parent_id id (some existing) v n e =
    (λ p j h. ground (arith, v p j), e, λ p j h. h, ground arith)
claim_node-IsEnsured b path parent_id id none v n e = (
  λ p j h. ground (
    arith,
    IsTable-add b.nodes_by_path b.nodes_by_id b.next_node_id
        (record { id = id; parent_id = parent_id; rel_path = path }) v p j,
  ),
  ground (arith, get-insert b.nodes_by_path path id path, text_beq_iff path path),
  λ p j h. ground (arith, get-insert b.nodes_by_path path id p, text_beq_iff path p),
  ground arith,
)

add_node-IsEnsured :
    (b : MetadataBackend) (path : Text) (parent_id : ℕ)
    → IsValid b
    → b.next_node_id + 1 < 2 ^ 64
    → IsEnsured b path (add_node b path parent_id)
unfolding add_node
add_node-IsEnsured b path parent_id v room =
    claim_node-IsEnsured b path parent_id (next_u64 b.next_node_id) (Map.get b.nodes_by_path path) v
      (omega arith) refl

use_or_add-IsEnsured :
    (b : MetadataBackend) (path : Text) (parent_id : ℕ) (old : Option ℕ)
    → IsValid b
    → Map.get b.nodes_by_path [] ≡ some 1
    → b.next_node_id + 1 < 2 ^ 64
    → Map.get b.nodes_by_path path ≡ old
    → IsEnsured b path (use_or_add b path parent_id old)
unfolding use_or_add
use_or_add-IsEnsured b path parent_id (some id) v root room e = (v, e, λ p j h. h, omega arith)
use_or_add-IsEnsured b [] parent_id none v root room e = (v, root, λ p j h. h, omega arith)
use_or_add-IsEnsured b (c ∷ path) parent_id none v root room e =
    add_node-IsEnsured b (c ∷ path) parent_id v room

ensure_path-IsValid :
    (b : MetadataBackend) (path : Text) (hint : ℕ) (old : Option ℕ)
    → IsValid b
    → Map.get b.nodes_by_path [] ≡ some 1
    → b.next_node_id + 2 < 2 ^ 64
    → Map.get b.nodes_by_path path ≡ old
    → IsValid (ensure_path b path hint old).0
      × (Map.get (ensure_path b path hint old).0.nodes_by_path path
          ≡ some (ensure_path b path hint old).1)
      × ((p : Text) (j : ℕ)
          → Map.get b.nodes_by_path p ≡ some j
          → Map.get (ensure_path b path hint old).0.nodes_by_path p ≡ some j)
unfolding ensure_path
ensure_path-IsValid b path hint (some id) v root room e = (v, e, λ p j h. h)
ensure_path-IsValid b [] hint none v root room e = (v, root, λ p j h. h)
ensure_path-IsValid b (c ∷ path) (suc hint) none v root room e =
    let (v', at, keeps, _) = add_node-IsEnsured b (c ∷ path) (suc hint) v (omega arith) in
    (v', at, keeps)
ensure_path-IsValid b (c ∷ path) zero none v root room e =
    let parent = relative (parent_path (c ∷ path)) in
    let (v', at, keeps, le) =
      use_or_add-IsEnsured b parent 1 (Map.get b.nodes_by_path parent) v root (omega arith) refl in
    let (v'', at', keeps', _) =
      add_node-IsEnsured (ensure_node_under b parent 1).0 (c ∷ path)
        (ensure_node_under b parent 1).1 v' (omega arith) in
    (v'', at', λ p j h. keeps' p j (keeps p j h))

move_node-IsValid :
    (b : MetadataBackend) (old : Option ℕ) (src dst : Text) (parent_id : ℕ)
    → IsValid b
    → Map.get b.nodes_by_path src ≡ old
    → IsValid (move_node b old src dst parent_id)
unfolding move_node
move_node-IsValid b none src dst parent_id v e = v
move_node-IsValid b (some id) src dst parent_id v e =
    IsTable-move b.nodes_by_path b.nodes_by_id b.next_node_id src id
      (record (record_of b id) { rel_path = dst; parent_id = parent_id }) v e

remove_node-IsValid :
    (b : MetadataBackend) (old : Option ℕ) (path : Text)
    → IsValid b
    → Map.get b.nodes_by_path path ≡ old
    → IsValid (remove_node b old path)
unfolding remove_node
remove_node-IsValid b none path v e = v
remove_node-IsValid b (some id) path v e =
    IsTable-remove b.nodes_by_path b.nodes_by_id b.next_node_id path id v e

-- Where the table of nodes is consistent and holds the root, and at least two numbers are left,
-- ensureNode keeps it consistent, returns the number that the path has in it from then on, and
-- takes its number from no other path.
pub ensure_node_lem :
    (b : MetadataBackend) (rel_path : Text) (parent_hint : ℕ)
    → IsValid b
    → Map.get b.nodes_by_path [] ≡ some 1
    → b.next_node_id + 2 < 2 ^ 64
    → IsValid (ensure_node b rel_path parent_hint).0
      × (Map.get (ensure_node b rel_path parent_hint).0.nodes_by_path (relative rel_path)
          ≡ some (ensure_node b rel_path parent_hint).1)
      × ((p : Text) (j : ℕ)
          → Map.get b.nodes_by_path p ≡ some j
          → Map.get (ensure_node b rel_path parent_hint).0.nodes_by_path p ≡ some j)
unfolding ensure_node
ensure_node_lem b rel_path parent_hint v root room =
    ensure_path-IsValid b (relative rel_path) parent_hint
      (Map.get b.nodes_by_path (relative rel_path)) v root room refl

move_node-rest :
    (b : MetadataBackend) (old : Option ℕ) (src dst p : Text) (parent_id : ℕ)
    → Map.get b.nodes_by_path src ≡ old
    → Map.get (move_node b old src dst parent_id).nodes_by_path p ≡ (elim old [
      | none ↦ Map.get b.nodes_by_path p
      | some id ↦ if dst == p then some id else if src == p then none else Map.get b.nodes_by_path p
    ])
unfolding move_node
move_node-rest b none src dst p parent_id e = refl
move_node-rest b (some id) src dst p parent_id e =
    ground (
      arith,
      get-insert (Map.delete b.nodes_by_path src) dst id p,
      get-delete b.nodes_by_path src p,
    )

-- A rename of a path that has a number keeps a consistent table consistent: the target has that
-- number afterwards, the source has none, unless it is the target, and every other path has the
-- number that it had.
pub move_path_mapping_lem :
    (b : MetadataBackend) (src dst p : Text) (parent_id id : ℕ)
    → IsValid b
    → Map.get b.nodes_by_path src ≡ some id
    → IsValid (move_path_mapping b src dst parent_id)
      × (Map.get (move_path_mapping b src dst parent_id).nodes_by_path p
          ≡ (if dst == p then some id else if src == p then none else Map.get b.nodes_by_path p))
unfolding move_path_mapping forget_path
move_path_mapping_lem b src dst p parent_id id v e = rw e (
  move_node-IsValid b (some id) src dst parent_id v e,
  move_node-rest b (some id) src dst p parent_id e,
)

-- The table that the backend starts with.
pub empty_backend-IsValid : (root : Text) → IsValid (empty_backend root)
unfolding empty_backend
empty_backend-IsValid root p j h = ground (
  arith,
  get-insert {V = ℕ} Map.empty [] 1 p,
  get-empty {V = ℕ} p,
  get-empty {V = NodeRecord} j,
  path_of-insert Map.empty 1 (record { id = 1; parent_id = 1; rel_path = [] }) j,
  text_beq_iff [] p,
)
