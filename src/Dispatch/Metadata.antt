-- ===== src/Dispatch/Metadata.antt =====
-- dispatchMetadata of internal/server/server.go, of requests that were decoded.
use net_drive.Prelude.{[], ◌∷◌, ℕ, Bool}
use net_drive.Prelude.Text.{Text}
use net_drive.Prelude.Text.Paths.{join_path}
use net_drive.Protocol.{NodeInfo, EventType, WatchEvent}
use net_drive.Backend.Entries
use net_drive.Backend.Recovery.{rel_path_by_node_id}
use net_drive.Dispatch.Defs.{
  Handler, ◌>>=◌, ◌>>◌, return, Services, Response, publish, event_at, lookup_resp, get_attr_resp,
  open_dir_resp, read_dir_resp, close_dir_resp, rename_resp,
}
use net_drive.Dispatch.Errors.{call_backend}

-- stringsJoin
unfoldable pub strings_join : Text → Text → Text
strings_join [] name = name
strings_join (c ∷ parent) name = join_path (c ∷ parent) name

-- The two events of a rename.
unfoldable pub rename_from : NodeInfo → ℕ → Text → Text → WatchEvent
unfolding event_at
rename_from entry src_parent src_name src =
    record (event_at EventType.rename_from entry.node_id src_parent src_name src) {
      old_parent_node_id = src_parent;
      old_name = src_name;
      old_path = src;
    }

unfoldable pub rename_to : NodeInfo → ℕ → Text → Text → ℕ → Text → Text → WatchEvent
unfolding event_at
rename_to entry src_parent src_name src dst_parent dst_name dst =
    record (event_at EventType.rename_to entry.node_id dst_parent dst_name dst) {
      old_parent_node_id = src_parent;
      old_name = src_name;
      old_path = src;
    }

module _ {W : Type 0} (v : Services W) where
  unfoldable pub serve_lookup : ℕ → Text → Handler W Response
  serve_lookup parent name = do
    entry ← call_backend (Entries.lookup v.os parent name)
    return (lookup_resp entry)

  unfoldable pub serve_get_attr : ℕ → Handler W Response
  serve_get_attr node_id = do
    entry ← call_backend (Entries.get_attr v.os node_id)
    return (get_attr_resp entry)

  unfoldable pub serve_open_dir : ℕ → Handler W Response
  serve_open_dir node_id = do
    cursor_id ← call_backend (Entries.open_dir v.os node_id)
    return (open_dir_resp cursor_id)

  unfoldable pub serve_read_dir : ℕ → ℕ → ℕ → Handler W Response
  serve_read_dir cursor_id cookie max_entries = do
    page ← call_backend (Entries.read_dir v.os cursor_id cookie max_entries)
    return (read_dir_resp page)

  unfoldable pub serve_close_dir : ℕ → Handler W Response
  serve_close_dir cursor_id = do
    call_backend (Entries.close_dir v.os cursor_id)
    return close_dir_resp

  unfoldable pub serve_rename : ℕ → Text → ℕ → Text → Bool → Handler W Response
  unfolding strings_join rename_from rename_to
  serve_rename src_parent src_name dst_parent dst_name replace = do
    src_path ← call_backend (rel_path_by_node_id v.os src_parent)
    dst_path ← call_backend (rel_path_by_node_id v.os dst_parent)
    let src = strings_join src_path src_name
    let dst = strings_join dst_path dst_name
    entry ← call_backend (Entries.rename_path v.os src_parent src_name dst_parent dst_name replace)
    publish v (rename_from entry src_parent src_name src)
    publish v (rename_to entry src_parent src_name src dst_parent dst_name dst)
    return (rename_resp entry)
