-- ===== src/Client/Tracking.antt =====
-- internal/clientcore/state.go: the handles, cursors, watches and nodes that a client tracks. The
-- current time is an argument.
use net_drive.Prelude.{ℕ, Bool, none, some, List, [], ◌∷◌, eqb, if◌then◌else◌, nat_eq, max}
use net_drive.Prelude.Map
use net_drive.Prelude.Map.{Map}
use net_drive.Prelude.Text.{Text}

pub record TrackedHandle : Type 0 where
  pub handle_id : ℕ
  pub node_id : ℕ
  pub writable : Bool
  pub delete_on_close : Bool
  pub last_known_size : ℕ
  pub last_write_at : ℕ
  pub last_flush_at : ℕ
  pub last_truncate_at : ℕ

pub record TrackedDirCursor : Type 0 where
  pub dir_cursor_id : ℕ
  pub node_id : ℕ

pub record TrackedWatch : Type 0 where
  pub watch_id : ℕ
  pub node_id : ℕ
  pub recursive : Bool
  pub last_acked_seq : ℕ
  pub last_seen_seq : ℕ

pub record RuntimeState : Type 0 where
  pub client_name : Text
  pub client_version : Text
  pub client_instance_id : Text
  pub mount_name : Text
  pub lease_seconds : ℕ
  pub session_expires_at : Text
  pub session_state : Text
  pub principal_id : Text
  pub display_name : Text
  pub granted_features : List Text
  pub server_name : Text
  pub server_version : Text
  pub selected_protocol_version : ℕ
  pub server_capabilities : List Text
  pub last_heartbeat_at : ℕ
  pub last_heartbeat_error : Text
  pub tracked_handles : Map ℕ TrackedHandle
  pub tracked_dir_cursors : Map ℕ TrackedDirCursor
  pub tracked_watches : Map ℕ TrackedWatch
  pub tracked_nodes : Map ℕ (Unit {0})

-- A node number that is not 0.
unfoldable pub track_node : RuntimeState → ℕ → RuntimeState
track_node c node_id =
    if eqb node_id 0 then c else record c { tracked_nodes = Map.insert c.tracked_nodes node_id tt }

unfoldable pub track_node_ids : RuntimeState → List ℕ → RuntimeState
unfolding track_node
track_node_ids c [] = c
track_node_ids c (node_id ∷ node_ids) = track_node_ids (track_node c node_id) node_ids

unfoldable pub update_handle : RuntimeState → TrackedHandle → RuntimeState
unfolding track_node
update_handle c h =
    track_node (record c { tracked_handles = Map.insert c.tracked_handles h.handle_id h }) h.node_id

-- A change of a handle that is tracked.
unfoldable pub change_handle : RuntimeState → ℕ → (TrackedHandle → TrackedHandle) → RuntimeState
change_handle c id f = elim (Map.get c.tracked_handles id) [
  | none ↦ c
  | some h ↦ record c { tracked_handles = Map.insert c.tracked_handles id (f h) }
]

unfoldable pub set_handle_delete_on_close : RuntimeState → ℕ → Bool → RuntimeState
unfolding change_handle
set_handle_delete_on_close c id enabled =
    change_handle c id (λ h. record h { delete_on_close = enabled })

unfoldable pub mark_handle_write : RuntimeState → ℕ → ℕ → ℕ → RuntimeState
unfolding change_handle
mark_handle_write c id size now =
    change_handle c id (λ h. record h { last_known_size = size; last_write_at = now })

unfoldable pub mark_handle_flush : RuntimeState → ℕ → ℕ → RuntimeState
unfolding change_handle
mark_handle_flush c id now = change_handle c id (λ h. record h { last_flush_at = now })

unfoldable pub mark_handle_truncate : RuntimeState → ℕ → ℕ → ℕ → RuntimeState
unfolding change_handle
mark_handle_truncate c id size now =
    change_handle c id (λ h. record h { last_known_size = size; last_truncate_at = now })

unfoldable pub remove_handle : RuntimeState → ℕ → RuntimeState
remove_handle c id = record c { tracked_handles = Map.delete c.tracked_handles id }

unfoldable pub update_dir_cursor : RuntimeState → TrackedDirCursor → RuntimeState
unfolding track_node
update_dir_cursor c cursor =
    track_node
      (record c {
        tracked_dir_cursors = Map.insert c.tracked_dir_cursors cursor.dir_cursor_id cursor;
      })
      cursor.node_id

unfoldable pub remove_dir_cursor : RuntimeState → ℕ → RuntimeState
remove_dir_cursor c id = record c { tracked_dir_cursors = Map.delete c.tracked_dir_cursors id }

unfoldable pub update_watch : RuntimeState → TrackedWatch → RuntimeState
unfolding track_node
update_watch c w =
    track_node (record c { tracked_watches = Map.insert c.tracked_watches w.watch_id w }) w.node_id

unfoldable pub mark_watch_seen : RuntimeState → ℕ → ℕ → RuntimeState
mark_watch_seen c id latest_seq = elim (Map.get c.tracked_watches id) [
  | none ↦ c
  | some w ↦ record c {
    tracked_watches =
        Map.insert c.tracked_watches id
          (record w { last_seen_seq = max w.last_seen_seq latest_seq });
  }
]

unfoldable pub mark_watch_acked : RuntimeState → ℕ → ℕ → RuntimeState
mark_watch_acked c id acked_seq = elim (Map.get c.tracked_watches id) [
  | none ↦ c
  | some w ↦ record c {
    tracked_watches = Map.insert c.tracked_watches id (record w {
      last_acked_seq = max w.last_acked_seq acked_seq;
      last_seen_seq = max w.last_seen_seq acked_seq;
    });
  }
]

-- The error is "" for none.
unfoldable pub set_heartbeat_result : RuntimeState → Text → ℕ → RuntimeState
set_heartbeat_result c error now = record c {
  last_heartbeat_at = now;
  last_heartbeat_error = error;
}
