-- ===== src/Backend/Isolation.antt =====
-- The calls on one open file of metadata_backend.go, and the other open files.
use net_drive.Prelude.{
  suc, ℕ, ◌≡◌, refl, ap, ◌∙◌, Bool, false, Option, none, some, arith, ◌==◌, nat_eq, text_eq,
  if◌then◌else◌,
}
use net_drive.Prelude.Map
use net_drive.Prelude.Map.{Map, get-insert, get-delete}
use net_drive.Prelude.Text.{Text}
use net_drive.Backend.Defs.{
  BackendError, get_backend, of_result, MetadataBackend, FileHandle, Server, Os, M, modify, call,
  ◌>>=◌, ◌>>◌, fail, on_option,
}
use net_drive.Backend.Keeps.{Keeps, keeps_rules}
use net_drive.Backend.Nodes.{handle_by_id}
use net_drive.Backend.Refresh.{modify_now, refresh_node_info, load_small_file_cache}
use net_drive.Backend.Files.{handle, update_handle, refresh_node_info_and_patch_parent}
use net_drive.Backend.Handles.{
  Offset, at, before_start, read_file, read_from_os, write_file, flush_handle, truncate_handle,
  set_delete_on_close, forget_removed, finish_close, close_handle,
}
use net_drive.Backend.OpenTables.{Tables, tables_of}
use net_drive.Backend.Frame.{IsFramed, Keeps-refresh_node_info, Keeps-load_small_file_cache}
use net_drive.Backend.HandleTable.{
  invalidate_entry-handles, invalidate_dir_snapshot-handles, record_negative-handles,
  store_node_info-handles, upsert_cached_dir_snapshot-handles,
  remove_cached_dir_snapshot_entry-handles, remove_path_mapping-handles, update_handle-other,
}

-- Every handle but `id` is as in the map.
pub record HoldsOthers {W : Type 0} (m : Map ℕ FileHandle) (id : ℕ) (s : Server W) : Type 0 where
  pub at_other : (j : ℕ) → (id == j) ≡ false → Map.get s.backend.handles j ≡ Map.get m j

module _ {W : Type 0} (os : Os W) (m : Map ℕ FileHandle) (id : ℕ) where
  of_frame :
      {A : Type 0} (p : M W A)
      → ((t : Tables) (w : W) → Keeps (IsFramed t w) p)
      → Keeps (HoldsOthers m id) p
  of_frame p k = record {
    at = λ s h. record {
      at_other = λ j ne.
          ap (λ (t : Tables). Map.get t.0 j)
            ((k (tables_of s.backend) s.world).at s (record { tables = refl; world = refl })).tables
          ∙ h.at_other j ne;
    };
  }

  Keeps-modify :
      (g : MetadataBackend → MetadataBackend)
      → ((b : MetadataBackend) → (g b).handles ≡ b.handles)
      → Keeps {W = W} (HoldsOthers m id) (modify g)
  unfolding modify
  Keeps-modify g e = record {
    at = λ s h. record { at_other = λ j ne. ap (λ t. Map.get t j) (e s.backend) ∙ h.at_other j ne };
  }

  Keeps-modify_now :
      (g : MetadataBackend → ℕ → MetadataBackend)
      → ((b : MetadataBackend) (now : ℕ) → (g b now).handles ≡ b.handles)
      → Keeps {W = W} (HoldsOthers m id) (modify_now os g)
  unfolding modify_now
  Keeps-modify_now g e = record {
    at = λ s h. record {
      at_other = λ j ne. ap (λ t. Map.get t j) (e s.backend (os.now s.world)) ∙ h.at_other j ne;
    };
  }

  Keeps-call : {A : Type 0} (f : W → A × W) → Keeps (HoldsOthers m id) (call f)
  unfolding call
  Keeps-call f = record { at = λ s h. record { at_other = h.at_other } }

  Keeps-handle : (k : ℕ) → Keeps (HoldsOthers m id) (handle os k)
  unfolding handle
  Keeps-handle k = record { at = λ s h. h }

  Keeps-update_handle :
      (f : FileHandle → FileHandle)
      → Keeps {W = W} (HoldsOthers m id) (modify (λ b. update_handle b id f))
  unfolding modify
  Keeps-update_handle f = record {
    at = λ s h. record {
      at_other = λ j ne. update_handle-other s.backend id f j ne ∙ h.at_other j ne;
    };
  }

  Keeps-remove_handle :
      Keeps {W = W}
        (HoldsOthers m id)
        (modify (λ b. record b { handles = Map.delete b.handles id }))
  unfolding modify
  Keeps-remove_handle = record {
    at = λ s h. record {
      at_other = λ j ne. get-delete s.backend.handles id j ∙ rw ne refl ∙ h.at_other j ne;
    };
  }

  Keeps-refresh :
      (path : Text) (hint : ℕ) → Keeps (HoldsOthers m id) (refresh_node_info os path hint)
  Keeps-refresh path hint = of_frame _ (λ t w. Keeps-refresh_node_info os t w path hint)

  Keeps-load : (path : Text) → Keeps (HoldsOthers m id) (load_small_file_cache os path)
  Keeps-load path = of_frame _ (λ t w. Keeps-load_small_file_cache os t w path)

  ruleset others_rules = (
    keeps_rules, Keeps-modify, Keeps-modify_now, Keeps-call, Keeps-handle, Keeps-update_handle,
    Keeps-refresh, Keeps-load, invalidate_entry-handles, invalidate_dir_snapshot-handles,
    record_negative-handles, store_node_info-handles, upsert_cached_dir_snapshot-handles,
    remove_cached_dir_snapshot_entry-handles, remove_path_mapping-handles,
  )

  Keeps-patch :
      (path : Text) (parent : ℕ)
      → Keeps (HoldsOthers m id) (refresh_node_info_and_patch_parent os path parent)
  unfolding refresh_node_info_and_patch_parent
  Keeps-patch path parent = search others_rules depth 20

  Keeps-forget_removed : (h : FileHandle) → Keeps (HoldsOthers m id) (forget_removed os h)
  unfolding forget_removed
  Keeps-forget_removed h = search others_rules depth 20

  Keeps-finish_close : (h : FileHandle) → Keeps (HoldsOthers m id) (finish_close os h)
  unfolding finish_close
  Keeps-finish_close h = search (others_rules, Keeps-patch, Keeps-forget_removed) depth 20

  pub Keeps-read_file :
      (offset : Offset) (size : ℕ) → Keeps (HoldsOthers m id) (read_file os id offset size)
  unfolding read_file read_from_os
  Keeps-read_file before_start size = search others_rules depth 20
  Keeps-read_file (at n) size = search others_rules depth 20

  pub Keeps-write_file :
      (offset : Offset) (bytes : Text) → Keeps (HoldsOthers m id) (write_file os id offset bytes)
  unfolding write_file
  Keeps-write_file before_start bytes = search others_rules depth 20
  Keeps-write_file (at n) bytes = search others_rules depth 20

  pub Keeps-flush_handle : Keeps (HoldsOthers m id) (flush_handle os id)
  unfolding flush_handle
  Keeps-flush_handle = search others_rules depth 20

  pub Keeps-truncate_handle : (size : ℕ) → Keeps (HoldsOthers m id) (truncate_handle os id size)
  unfolding truncate_handle
  Keeps-truncate_handle size = search (others_rules, Keeps-patch) depth 20

  pub Keeps-set_delete_on_close :
      (enabled : Bool) → Keeps (HoldsOthers m id) (set_delete_on_close os id enabled)
  unfolding set_delete_on_close
  Keeps-set_delete_on_close enabled = search others_rules depth 20

  Keeps-close_rest :
      (h : FileHandle) (e : Option BackendError)
      → Keeps (HoldsOthers m id) (on_option e (finish_close os h) (λ e. fail e))
  Keeps-close_rest h e = search (others_rules, Keeps-finish_close) depth 20

  pub Keeps-close_handle : Keeps (HoldsOthers m id) (close_handle os id)
  unfolding close_handle
  Keeps-close_handle = search (others_rules, Keeps-remove_handle, Keeps-close_rest) depth 20

module _ {W : Type 0} (os : Os W) where
  -- CloseHandle of an open file: its handle is gone whatever the operating system answers to
  -- Close, Remove and Stat, and every other handle is as it was.
  pub close_handle_lem :
      (s : Server W) (id : ℕ) (h : FileHandle) (j : ℕ)
      → Map.get s.backend.handles id ≡ some h
      → Map.get (close_handle os id s).1.backend.handles j
        ≡ (if id == j then none else Map.get s.backend.handles j)
  unfolding close_handle handle handle_by_id ◌>>=◌ ◌>>◌ get_backend of_result modify call
  close_handle_lem s id h j found =
      let rest = Map.delete s.backend.handles id in
      let (closed, w) = os.close s.world h.file in
      let s' : Server W = record { backend = record s.backend { handles = rest }; world = w } in
      rw (found, ◌>>=◌)
        (((Keeps-close_rest os rest (suc j) h closed).at s'
              (record { at_other = λ i ne. refl })).at_other
            j (ground arith)
          ∙ get-delete s.backend.handles id j)
