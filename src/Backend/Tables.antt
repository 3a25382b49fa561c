-- ===== src/Backend/Tables.antt =====
-- nodesByPath and nodesByID of internal/server/metadata_backend.go, as a table.
use net_drive.Prelude.{
  ℕ, ◌+◌, ◌≤◌, ◌≡◌, Option, none, some, arith, ◌==◌, nat_eq, text_eq, text_beq_iff, if◌then◌else◌,
}
use net_drive.Prelude.Map
use net_drive.Prelude.Map.{Map, get-insert, get-delete, get-empty}
use net_drive.Prelude.Text.{Text}
use net_drive.Backend.Defs.{MetadataBackend, NodeRecord}

-- The path in the record of a number.
unfoldable pub path_of : Map ℕ NodeRecord → ℕ → Option Text
path_of ids id = elim (Map.get ids id) [ none ↦ none | some rec ↦ some rec.rel_path ]

pub path_of-insert :
    (ids : Map ℕ NodeRecord) (id : ℕ) (rec : NodeRecord) (j : ℕ)
    → path_of (Map.insert ids id rec) j ≡ (if id == j then some rec.rel_path else path_of ids j)
unfolding path_of
path_of-insert ids id rec j = ground (arith, get-insert ids id rec j)

pub path_of-delete :
    (ids : Map ℕ NodeRecord) (id j : ℕ)
    → path_of (Map.delete ids id) j ≡ (if id == j then none else path_of ids j)
unfolding path_of
path_of-delete ids id j = ground (arith, get-delete ids id j)

-- Every path of the table has a record, with that path and a number that was given out.
abbrev pub IsTable : Map Text ℕ → Map ℕ NodeRecord → ℕ → Type 0
IsTable paths ids next =
    (path : Text) (id : ℕ)
    → Map.get paths path ≡ some id
    → (path_of ids id ≡ some path) × (id ≤ next)

abbrev pub IsValid : MetadataBackend → Type 0
IsValid b = IsTable b.nodes_by_path b.nodes_by_id b.next_node_id

pub IsTable-add :
    (paths : Map Text ℕ) (ids : Map ℕ NodeRecord) (next : ℕ) (rec : NodeRecord)
    → IsTable paths ids next
    → IsTable (Map.insert paths rec.rel_path (next + 1)) (Map.insert ids (next + 1) rec) (next + 1)
IsTable-add paths ids next rec v p j h = ground (
  arith,
  get-insert paths rec.rel_path (next + 1) p,
  path_of-insert ids (next + 1) rec j,
  text_beq_iff rec.rel_path p,
  v p j,
)

pub IsTable-move :
    (paths : Map Text ℕ) (ids : Map ℕ NodeRecord) (next : ℕ) (src : Text) (id : ℕ)
    (rec : NodeRecord)
    → IsTable paths ids next
    → Map.get paths src ≡ some id
    → IsTable (Map.insert (Map.delete paths src) rec.rel_path id) (Map.insert ids id rec) next
IsTable-move paths ids next src id rec v e p j h = ground (
  arith,
  get-insert (Map.delete paths src) rec.rel_path id p,
  get-delete paths src p,
  path_of-insert ids id rec j,
  text_beq_iff rec.rel_path p,
  text_beq_iff src p,
  v p j,
  v src id,
)

pub IsTable-remove :
    (paths : Map Text ℕ) (ids : Map ℕ NodeRecord) (next : ℕ) (path : Text) (id : ℕ)
    → IsTable paths ids next
    → Map.get paths path ≡ some id
    → IsTable (Map.delete paths path) (Map.delete ids id) next
IsTable-remove paths ids next path id v e p j h =
    ground (
      arith,
      get-delete paths path p,
      path_of-delete ids id j,
      text_beq_iff path p,
      v p j,
      v path id,
    )
