-- ===== src/Mount/Volume.antt =====
-- internal/mountcore/mount.go: the methods of a mount.
use net_drive.Prelude.{
  ℕ, Bool, true, false, List, [], ◌∷◌, eqb, if◌then◌else◌, not, ◌&&◌, ◌==◌, Result, ok, err,
  text_eq, nat_eq, text_beq,
}
use net_drive.Prelude.Map
use net_drive.Prelude.Words.{next_u64}
use net_drive.Prelude.Steps.{◌>>=◌, ◌>>◌, return, fail, get_state, modify, on_option}
use net_drive.Prelude.Text.{Text, slash, is_empty, trim_prefix, split}
use net_drive.Protocol.{NodeInfo, DirEntry, FileType}
use net_drive.Backend.Handles.{Offset}
use net_drive.Mount.Path.{normalize_mount_path, split_mount_path, join_mount_path}
use net_drive.Mount.Defs.{
  ProtocolClient, FileInfo, LocalHandle, Mount, MountError, invalid_handle, is_directory,
  not_directory, invalid_path, remote, lookup_failed, Method, root_entry,
}

unfoldable pub is_dir : FileType → Bool
is_dir FileType.directory = true
is_dir FileType.file = false

unfoldable pub last_part : List Text → Text
last_part [] = []
last_part (part ∷ []) = part
last_part (part ∷ next ∷ parts) = last_part (next ∷ parts)

unfoldable pub file_info_from_node : Text → NodeInfo → FileInfo
unfolding is_dir last_part text_beq trim_prefix split
file_info_from_node path node = record {
  path = path;
  node_id = node.node_id;
  parent_node_id = node.parent_node_id;
  name =
      if is_empty node.name && not (path == slash ∷ [])
      then last_part (split (trim_prefix path (slash ∷ [])))
      else node.name;
  is_directory = is_dir node.file_type;
  size = node.size;
  mode = node.mode;
  mod_time = node.mod_time;
}

-- What ReadDirectory makes of an entry.
unfoldable pub child_node : ℕ → DirEntry → NodeInfo
child_node parent e = record {
  node_id = e.node_id;
  parent_node_id = parent;
  name = e.name;
  file_type = e.file_type;
  size = e.size;
  mode = e.mode;
  mod_time = e.mod_time;
}

unfoldable pub wrap_error :
    {E A : Type 0} → (E → MountError E) → Result E A → Result (MountError E) A
wrap_error wrap (err e) = err (wrap e)
wrap_error wrap (ok a) = ok a

module _ {N E : Type 0} where
  -- A call of the client, with what its error becomes.
  unfoldable pub ask : {A : Type 0} → (E → MountError E) → (N → Result E A × N) → Method N E A
  unfolding wrap_error
  ask wrap f m = let (r, net) = f m.net in (wrap_error wrap r, record m { net = net })

  unfoldable pub cache_path : Text → NodeInfo → Method N E (Unit {0})
  cache_path path entry = modify (λ m. record m { path_cache = Map.insert m.path_cache path entry })

module _ {N : Type 0} where
  -- A new FileHandle or DirectoryHandle.
  unfoldable pub local_handle : Mount N → ℕ → FileInfo → LocalHandle
  local_handle m remote_id info = record {
    handle_id = m.next_local_handle;
    remote_id = remote_id;
    path = info.path;
    info = info;
  }

  unfoldable pub add_file : LocalHandle → Mount N → Mount N
  add_file h m = record m {
    next_local_handle = next_u64 m.next_local_handle;
    file_handles = Map.insert m.file_handles m.next_local_handle h;
  }

  unfoldable pub add_directory : LocalHandle → Mount N → Mount N
  add_directory h m = record m {
    next_local_handle = next_u64 m.next_local_handle;
    directory_handles = Map.insert m.directory_handles m.next_local_handle h;
  }

module _ {N E : Type 0} (client : ProtocolClient N E) where
  -- The loop of resolvePath, from an entry and its path.
  unfoldable pub walk : List Text → Text → NodeInfo → Method N E NodeInfo
  unfolding ask cache_path
  walk [] path current = return current
  walk (part ∷ parts) path current = do
    m ← get_state
    let next = join_mount_path path part
    on_option (Map.get m.path_cache next)
        (do
          entry ← ask (lookup_failed next) (client.lookup current.node_id part)
          cache_path next entry
          walk parts next entry)
        (λ cached. walk parts next cached)

  unfoldable pub resolve_normal : Text → Method N E NodeInfo
  unfolding walk root_entry
  resolve_normal path = do
    m ← get_state
    on_option (Map.get m.path_cache path)
        (on_option (split_mount_path path) (fail invalid_path)
          (λ parts. walk parts (slash ∷ []) (root_entry m.opts.root_node_id)))
        return

  unfoldable pub resolve_path : Text → Method N E (Text × NodeInfo)
  unfolding resolve_normal
  resolve_path input =
      on_option (normalize_mount_path input) (fail invalid_path)
        (λ path. do entry ← resolve_normal path; return (path, entry))

  unfoldable pub lookup : Text → Method N E FileInfo
  unfolding resolve_path file_info_from_node
  lookup input = do found ← resolve_path input; return (file_info_from_node found.0 found.1)

  unfoldable pub get_attr : Text → Method N E FileInfo
  unfolding resolve_path file_info_from_node ask cache_path
  get_attr input = do
    found ← resolve_path input
    let node = found.1
    entry ← ask remote (client.get_attr node.node_id)
    cache_path found.0 entry
    return (file_info_from_node found.0 entry)

  -- Open
  unfoldable pub open_file : Text → Method N E LocalHandle
  unfolding get_attr ask add_file local_handle
  open_file input = do
    info ← get_attr input
    if info.is_directory then fail is_directory else do
      opened ← ask remote (client.open_read info.node_id)
      m ← get_state
      let h = local_handle m opened.0 info
      modify (add_file h)
      return h

  unfoldable pub open_directory : Text → Method N E LocalHandle
  unfolding get_attr ask add_directory local_handle
  open_directory input = do
    info ← get_attr input
    if not info.is_directory then fail not_directory else do
      cursor ← ask remote (client.open_dir info.node_id)
      m ← get_state
      let h = local_handle m cursor info
      modify (add_directory h)
      return h

  unfoldable pub cache_entries : LocalHandle → List DirEntry → Method N E (List FileInfo)
  unfolding cache_path child_node file_info_from_node
  cache_entries h [] = return []
  cache_entries h (e ∷ entries) = do
    let path = join_mount_path h.path e.name
    let info = h.info
    let node = child_node info.node_id e
    cache_path path node
    infos ← cache_entries h entries
    return (file_info_from_node path node ∷ infos)

  -- (entries, next cookie, eof)
  unfoldable pub read_directory : ℕ → ℕ → ℕ → Method N E (List FileInfo × ℕ × Bool)
  unfolding cache_entries ask
  read_directory handle_id cookie max_entries = do
    m ← get_state
    on_option (Map.get m.directory_handles handle_id) (fail invalid_handle) (λ h. do
      let opts = m.opts
      let limit = if eqb max_entries 0 then opts.read_dir_batch_size else max_entries
      resp ← ask remote (client.read_dir h.remote_id cookie limit)
      infos ← cache_entries h resp.entries
      return (infos, resp.next_cookie, resp.eof))

  unfoldable pub read : ℕ → Offset → ℕ → Method N E (Text × Bool)
  unfolding ask
  read handle_id offset size = do
    m ← get_state
    on_option (Map.get m.file_handles handle_id) (fail invalid_handle)
        (λ h. ask remote (client.read h.remote_id offset size))

  unfoldable pub close : ℕ → Method N E (Unit {0})
  unfolding ask
  close handle_id = do
    m ← get_state
    on_option (Map.get m.file_handles handle_id)
        (on_option (Map.get m.directory_handles handle_id) (fail invalid_handle) (λ h. do
          modify (λ m'. record m' { directory_handles = Map.delete m'.directory_handles handle_id })
          ask remote (client.close_dir h.remote_id)))
        (λ h. do
          modify (λ m'. record m' { file_handles = Map.delete m'.file_handles handle_id })
          ask remote (client.close_handle h.remote_id))
