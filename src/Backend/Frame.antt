-- ===== src/Backend/Frame.antt =====
-- What the methods of metadata_backend.go that only look leave alone: open files, cursors and the
-- operating system.
use net_drive.Prelude.{ℕ, ◌∙◌, ◌≡◌, Bool, List, [], ◌∷◌}
use net_drive.Prelude.Text.{Text}
use net_drive.Prelude.{text_eq, nat_eq}
use net_drive.Backend.Defs.{MetadataBackend, Server, Os, modify, FileInfo}
use net_drive.Backend.OpenTables.{
  Tables, tables_of, ensure_node-tables, if_negative-tables, clear_negative-tables,
  store_attr-tables, store_dir_snapshot-tables, store_small_file-tables,
}
use net_drive.Backend.Keeps.{
  Keeps, Keeps-bind, Keeps-then, Keeps-return, Keeps-attempt, keeps_rules,
}
use net_drive.Backend.Refresh.{
  modify_now, look, ensure, stat, resolve_parent, learn_node, refresh_node_info,
  with_resolved_parent, node_info_for_snapshot_path, snapshot_children, refresh_dir_snapshot,
  snapshot_dir, PrefetchJob, dir_snapshot, small_file, small_file_info, load_small_file_cache,
  run_prefetch_jobs, maybe_warm_node, node_info_for_path,
}

-- What only the calls on files, directories and names may change.
pub record IsFramed {W : Type 0} (t : Tables) (w : W) (s : Server W) : Type 0 where
  pub tables : tables_of s.backend ≡ t
  pub world : s.world ≡ w

module _ {W : Type 0} (os : Os W) (t : Tables) (w : W) where
  Keeps-modify :
      (g : MetadataBackend → MetadataBackend)
      → ((b : MetadataBackend) → tables_of (g b) ≡ tables_of b)
      → Keeps (IsFramed t w) (modify g)
  unfolding modify
  Keeps-modify g h = record {
    at = λ s f. record { tables = h s.backend ∙ f.tables; world = f.world };
  }

  Keeps-modify_now :
      (g : MetadataBackend → ℕ → MetadataBackend)
      → ((b : MetadataBackend) (now : ℕ) → tables_of (g b now) ≡ tables_of b)
      → Keeps (IsFramed t w) (modify_now os g)
  unfolding modify_now
  Keeps-modify_now g h = record {
    at = λ s f. record { tables = h s.backend (os.now s.world) ∙ f.tables; world = f.world };
  }

  Keeps-ensure : (path : Text) (hint : ℕ) → Keeps (IsFramed t w) (ensure os path hint)
  unfolding ensure
  Keeps-ensure path hint = record {
    at = λ s f. record {
      tables = ensure_node-tables s.backend path hint ∙ f.tables;
      world = f.world;
    };
  }

  Keeps-stat : (path : Text) → Keeps (IsFramed t w) (stat os path)
  unfolding stat
  Keeps-stat path = record { at = λ s f. f }

  Keeps-look : {A : Type 0} (g : MetadataBackend → ℕ → A) → Keeps (IsFramed t w) (look os g)
  unfolding look
  Keeps-look g = record { at = λ s f. f }

  Keeps-resolve_parent :
      (path : Text) (id hint : ℕ) → Keeps (IsFramed t w) (resolve_parent os path id hint)
  unfolding resolve_parent
  Keeps-resolve_parent path id hint = search (keeps_rules, Keeps-ensure)

  Keeps-learn_node :
      (path : Text) (hint : ℕ) (info : FileInfo)
      → Keeps (IsFramed t w) (learn_node os path hint info)
  unfolding learn_node
  Keeps-learn_node path hint info =
      search
        (
          keeps_rules, Keeps-modify, Keeps-modify_now, Keeps-ensure, Keeps-resolve_parent,
          clear_negative-tables, store_attr-tables,
        )
        depth 20

  ruleset frame_rules = (
    keeps_rules, Keeps-modify, Keeps-modify_now, Keeps-look, Keeps-ensure, Keeps-stat,
    Keeps-resolve_parent, Keeps-learn_node, clear_negative-tables, store_attr-tables,
    store_dir_snapshot-tables, store_small_file-tables, if_negative-tables,
  )

  pub Keeps-refresh_node_info :
      (path : Text) (hint : ℕ) → Keeps (IsFramed t w) (refresh_node_info os path hint)
  unfolding refresh_node_info
  Keeps-refresh_node_info path hint = search frame_rules depth 20

  Keeps-node_info_for_snapshot_path :
      (path : Text) (hint : ℕ) → Keeps (IsFramed t w) (node_info_for_snapshot_path os path hint)
  unfolding node_info_for_snapshot_path with_resolved_parent
  Keeps-node_info_for_snapshot_path path hint =
      search (frame_rules, Keeps-refresh_node_info) depth 20

  Keeps-snapshot_children :
      (path : Text) (id : ℕ) (names : List (Text × Bool))
      → Keeps (IsFramed t w) (snapshot_children os path id names)
  unfolding snapshot_children
  Keeps-snapshot_children path id [] = search frame_rules
  Keeps-snapshot_children path id ((name, d) ∷ names) =
      Keeps-bind _ _ (search (frame_rules, Keeps-node_info_for_snapshot_path))
        (λ child. Keeps-bind _ _ (Keeps-snapshot_children path id names) (λ items. Keeps-return _))

  pub Keeps-snapshot_dir : (id : ℕ) → Keeps (IsFramed t w) (snapshot_dir os id)
  unfolding snapshot_dir refresh_dir_snapshot
  Keeps-snapshot_dir id = search (frame_rules, Keeps-snapshot_children) depth 20

  pub Keeps-load_small_file_cache :
      (path : Text) → Keeps (IsFramed t w) (load_small_file_cache os path)
  unfolding load_small_file_cache small_file_info
  Keeps-load_small_file_cache path = search (frame_rules, Keeps-refresh_node_info) depth 20

  Keeps-run_prefetch_jobs :
      (jobs : List PrefetchJob) → Keeps (IsFramed t w) (run_prefetch_jobs os jobs)
  unfolding run_prefetch_jobs
  Keeps-run_prefetch_jobs [] = search frame_rules
  Keeps-run_prefetch_jobs (dir_snapshot id ∷ jobs) =
      Keeps-then _ _ (Keeps-attempt _ (Keeps-snapshot_dir id)) (Keeps-run_prefetch_jobs jobs)
  Keeps-run_prefetch_jobs (small_file path ∷ jobs) =
      Keeps-then _ _ (Keeps-attempt _ (Keeps-load_small_file_cache path))
        (Keeps-run_prefetch_jobs jobs)

  pub Keeps-node_info_for_path :
      (path : Text) (hint : ℕ) → Keeps (IsFramed t w) (node_info_for_path os path hint)
  unfolding node_info_for_path maybe_warm_node
  Keeps-node_info_for_path path hint =
      search (frame_rules, Keeps-node_info_for_snapshot_path, Keeps-run_prefetch_jobs) depth 20
