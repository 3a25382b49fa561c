-- ===== src/Backend/Looks.antt =====
-- The requests of metadata_backend.go that only look: Lookup, GetAttr, SnapshotSubtree and
-- RevalidateNode.
use net_drive.Prelude.{
  ℕ, zero, suc, ◌∙◌, ◌≡◌, refl, Bool, Option, none, some, List, [], ◌∷◌, text_eq, nat_eq,
}
use net_drive.Prelude.Map
use net_drive.Prelude.Map.{Map}
use net_drive.Prelude.Text.{Text}
use net_drive.Protocol.{SnapshotEntry}
use net_drive.Backend.Defs.{MetadataBackend, Server, Os, M, modify}
use net_drive.Backend.Keeps.{Keeps, Keeps-bind, Keeps-return, Keeps-if, keeps_rules}
use net_drive.Backend.Nodes.{remove_path_mapping, remove_node}
use net_drive.Backend.OpenTables.{Tables, tables_of}
use net_drive.Backend.Frame.{IsFramed, Keeps-node_info_for_path}
use net_drive.Backend.Entries.{lookup, get_attr}
use net_drive.Backend.Recovery.{walk_names, walk, snapshot_subtree, revalidate_node}

remove_node-tables :
    (b : MetadataBackend) (old : Option ℕ) (path : Text)
    → tables_of (remove_node b old path) ≡ tables_of b
unfolding remove_node
remove_node-tables b none path = refl
remove_node-tables b (some n) path = refl

module _ {W : Type 0} (os : Os W) (t : Tables) (w : W) where
  Keeps-remove_path_mapping :
      (path : Text) → Keeps {W = W} (IsFramed t w) (modify (λ b. remove_path_mapping b path))
  unfolding modify remove_path_mapping
  Keeps-remove_path_mapping path = record {
    at = λ s f. record {
      tables = remove_node-tables s.backend (Map.get s.backend.nodes_by_path path) path ∙ f.tables;
      world = f.world;
    };
  }

  ruleset look_rules = (keeps_rules, Keeps-node_info_for_path, Keeps-remove_path_mapping)

  Keeps-lookup : (parent : ℕ) (name : Text) → Keeps (IsFramed t w) (lookup os parent name)
  unfolding lookup
  Keeps-lookup parent name = search look_rules depth 20

  Keeps-get_attr : (id : ℕ) → Keeps (IsFramed t w) (get_attr os id)
  unfolding get_attr
  Keeps-get_attr id = search look_rules depth 20

  Keeps-revalidate_node : (id : ℕ) → Keeps (IsFramed t w) (revalidate_node os id)
  unfolding revalidate_node
  Keeps-revalidate_node id = search look_rules depth 20

  Keeps-walk_names :
      (descend : Text → M W (List SnapshotEntry)) (root : Text) (id : ℕ) (recursive : Bool)
      (current : Text) (names : List (Text × Bool))
      → ((path : Text) → Keeps (IsFramed t w) (descend path))
      → Keeps (IsFramed t w) (walk_names os descend root id recursive current names)
  unfolding walk_names
  Keeps-walk_names descend root id recursive current [] h = Keeps-return []
  Keeps-walk_names descend root id recursive current ((name, is_dir) ∷ names) h =
      Keeps-bind _ _ (Keeps-node_info_for_path os t w _ id) (λ info.
        Keeps-bind _ _ (Keeps-if _ _ _ (h _) (Keeps-return [])) (λ below.
          Keeps-bind _ _ (Keeps-walk_names descend root id recursive current names h)
            (λ rest. Keeps-return _)))

  Keeps-walk :
      (fuel : ℕ) (root : Text) (id : ℕ) (recursive : Bool) (current : Text)
      → Keeps (IsFramed t w) (walk os fuel root id recursive current)
  unfolding walk
  Keeps-walk zero root id recursive current = search look_rules
  Keeps-walk (suc fuel) root id recursive current =
      let below : (path : Text) → Keeps (IsFramed t w) (walk os fuel root id recursive path) =
        λ path. Keeps-walk fuel root id recursive path in
      search (look_rules, Keeps-walk_names, below) depth 20

  Keeps-snapshot_subtree :
      (fuel id : ℕ) (recursive : Bool)
      → Keeps (IsFramed t w) (snapshot_subtree os fuel id recursive)
  unfolding snapshot_subtree
  Keeps-snapshot_subtree fuel id recursive =
      search (look_rules, Keeps-get_attr, Keeps-walk) depth 20

-- A request that looks at nodes. A snapshot has its fuel, the levels of directories it can reach.
pub data Look : Type 0 where
  looks_up : ℕ → Text → Look
  gets_attr revalidates : ℕ → Look
  snapshots : ℕ → ℕ → Bool → Look

module _ {W : Type 0} (os : Os W) where
  -- The state after a request, whatever it returns.
  unfoldable pub run_look : Look → Server W → Server W
  run_look (looks_up parent name) s = (lookup os parent name s).1
  run_look (gets_attr id) s = (get_attr os id s).1
  run_look (revalidates id) s = (revalidate_node os id s).1
  run_look (snapshots fuel id recursive) s = (snapshot_subtree os fuel id recursive s).1

  run_look-IsFramed :
      (q : Look) (s : Server W) → IsFramed (tables_of s.backend) s.world (run_look q s)
  unfolding run_look
  run_look-IsFramed q s = elim q as (λ q'. IsFramed (tables_of s.backend) s.world (run_look q' s)) [
    | looks_up parent name ↦
        (Keeps-lookup os _ _ parent name).at s (record { tables = refl; world = refl })
    | gets_attr id ↦ (Keeps-get_attr os _ _ id).at s (record { tables = refl; world = refl })
    | revalidates id ↦
        (Keeps-revalidate_node os _ _ id).at s (record { tables = refl; world = refl })
    | snapshots fuel id recursive ↦
        (Keeps-snapshot_subtree os _ _ fuel id recursive).at s
          (record { tables = refl; world = refl })
  ]

  -- Lookup, GetAttr, RevalidateNode and SnapshotSubtree, with all the refreshing and prefetching
  -- that they do and whether they succeed or fail, change nothing in the file system and keep the
  -- tables and counters of open files and cursors.
  pub run_look_lem :
      (q : Look) (s : Server W)
      → (tables_of (run_look q s).backend ≡ tables_of s.backend) × ((run_look q s).world ≡ s.world)
  run_look_lem q s = let f = run_look-IsFramed q s in (f.tables, f.world)
