-- ===== src/Backend/OpenTables.antt =====
-- The tables of open files and cursors of metadata_backend.go, and the steps that leave them alone.
use net_drive.Prelude.{
  ℕ, zero, suc, ◌∙◌, ◌≡◌, refl, Bool, true, false, Option, none, some, List, [], ◌∷◌, if◌then◌else◌,
}
use net_drive.Prelude.Map
use net_drive.Prelude.Map.{Map}
use net_drive.Prelude.Text.{Text}
use net_drive.Protocol.{NodeInfo, DirEntry}
use net_drive.Prelude.{text_eq, nat_eq}
use net_drive.Backend.Defs.{MetadataBackend, FileHandle, DirCursor}
use net_drive.Backend.Nodes.{
  relative, parent_path, ensure_node, ensure_path, add_node, claim_node, ensure_node_under,
  use_or_add,
}
use net_drive.Backend.Cache.{
  record_negative, clear_negative, store_attr, store_dir_snapshot, store_small_file,
}

-- The tables of open files and cursors.
abbrev pub Tables : Type 0
Tables = Map ℕ FileHandle × ℕ × Map ℕ DirCursor × ℕ

abbrev pub tables_of : MetadataBackend → Tables
tables_of b = (b.handles, b.next_handle_id, b.cursors, b.next_cursor_id)

claim_node-tables :
    (b : MetadataBackend) (path : Text) (parent_id id : ℕ) (old : Option ℕ)
    → tables_of (claim_node b path parent_id id old).0 ≡ tables_of b
unfolding claim_node
claim_node-tables b path parent_id id none = refl
claim_node-tables b path parent_id id (some n) = refl

pub add_node-tables :
    (b : MetadataBackend) (path : Text) (parent_id : ℕ)
    → tables_of (add_node b path parent_id).0 ≡ tables_of b
unfolding add_node
add_node-tables b path parent_id =
    claim_node-tables _ path parent_id _ (Map.get b.nodes_by_path path)

use_or_add-tables :
    (b : MetadataBackend) (path : Text) (parent_id : ℕ) (old : Option ℕ)
    → tables_of (use_or_add b path parent_id old).0 ≡ tables_of b
unfolding use_or_add
use_or_add-tables b path parent_id (some n) = refl
use_or_add-tables b [] parent_id none = refl
use_or_add-tables b (c ∷ path) parent_id none = add_node-tables b (c ∷ path) parent_id

ensure_path-tables :
    (b : MetadataBackend) (path : Text) (hint : ℕ) (old : Option ℕ)
    → tables_of (ensure_path b path hint old).0 ≡ tables_of b
unfolding ensure_path ensure_node_under
ensure_path-tables b path hint (some n) = refl
ensure_path-tables b [] hint none = refl
ensure_path-tables b (c ∷ path) (suc hint) none = add_node-tables b (c ∷ path) (suc hint)
ensure_path-tables b (c ∷ path) zero none =
    add_node-tables _ (c ∷ path) _ ∙ use_or_add-tables b (relative (parent_path (c ∷ path))) 1 _

pub ensure_node-tables :
    (b : MetadataBackend) (path : Text) (hint : ℕ)
    → tables_of (ensure_node b path hint).0 ≡ tables_of b
unfolding ensure_node
ensure_node-tables b path hint =
    ensure_path-tables b (relative path) hint (Map.get b.nodes_by_path (relative path))

record_negative-tables :
    (b : MetadataBackend) (now : ℕ) (path : Text)
    → tables_of (record_negative b now path) ≡ tables_of b
unfolding record_negative
record_negative-tables b now path = refl

pub if_negative-tables :
    (c : Bool) (path : Text) (b : MetadataBackend) (now : ℕ)
    → tables_of (if c then record_negative b now path else b) ≡ tables_of b
if_negative-tables true path b now = record_negative-tables b now path
if_negative-tables false path b now = refl

pub clear_negative-tables :
    (path : Text) (b : MetadataBackend) → tables_of (clear_negative b path) ≡ tables_of b
unfolding clear_negative
clear_negative-tables path b = refl

pub store_attr-tables :
    (path : Text) (info : NodeInfo) (b : MetadataBackend) (now : ℕ)
    → tables_of (store_attr b now path info) ≡ tables_of b
unfolding store_attr
store_attr-tables path info b now = refl

pub store_dir_snapshot-tables :
    (id : ℕ) (entries : List DirEntry) (b : MetadataBackend) (now : ℕ)
    → tables_of (store_dir_snapshot b now id entries) ≡ tables_of b
unfolding store_dir_snapshot
store_dir_snapshot-tables id entries b now = refl

pub store_small_file-tables :
    (path bytes : Text) (b : MetadataBackend) (now : ℕ)
    → tables_of (store_small_file b now path bytes) ≡ tables_of b
unfolding store_small_file
store_small_file-tables path bytes b now = refl
