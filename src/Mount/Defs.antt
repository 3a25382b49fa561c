-- ===== src/Mount/Defs.antt =====
-- internal/mountcore/mount.go: the state of a mount, and the client it stands on.
use net_drive.Prelude.{ℕ, Bool, [], ◌∷◌, Result, eqb, if◌then◌else◌, text_eq, nat_eq}
use net_drive.Prelude.Map
use net_drive.Prelude.Map.{Map}
use net_drive.Prelude.Steps.{Steps}
use net_drive.Prelude.Text.{Text, codes, slash, is_empty}
use net_drive.Protocol.{NodeInfo, ReadDirResp, FileType}
use net_drive.Backend.Handles.{Offset}

-- What the mount calls, on a connection with the state N.
pub record ProtocolClient (N E : Type 0) : Type 0 where
  pub lookup : ℕ → Text → N → Result E NodeInfo × N
  pub get_attr : ℕ → N → Result E NodeInfo × N
  pub open_dir : ℕ → N → Result E ℕ × N
  pub read_dir : ℕ → ℕ → ℕ → N → Result E ReadDirResp × N
  pub close_dir : ℕ → N → Result E (Unit {0}) × N
  pub open_read : ℕ → N → Result E (ℕ × ℕ) × N
  pub read : ℕ → Offset → ℕ → N → Result E (Text × Bool) × N
  pub close_handle : ℕ → N → Result E (Unit {0}) × N

pub record Options : Type 0 where
  pub root_node_id : ℕ
  pub volume_name : Text
  pub read_only : Bool
  pub case_sensitive : Bool
  pub read_dir_batch_size : ℕ

pub record FileInfo : Type 0 where
  pub path : Text
  pub node_id : ℕ
  pub parent_node_id : ℕ
  pub name : Text
  pub is_directory : Bool
  pub size : ℕ
  pub mode : ℕ
  pub mod_time : Text

-- A FileHandle or a DirectoryHandle; `remote_id` is its number on the server.
pub record LocalHandle : Type 0 where
  pub handle_id : ℕ
  pub remote_id : ℕ
  pub path : Text
  pub info : FileInfo

pub record Mount (N : Type 0) : Type 0 where
  pub net : N
  pub opts : Options
  pub path_cache : Map Text NodeInfo
  pub file_handles : Map ℕ LocalHandle
  pub directory_handles : Map ℕ LocalHandle
  pub next_local_handle : ℕ

pub data MountError (E : Type 0) : Type 0 where
  invalid_handle is_directory not_directory invalid_path : MountError E
  remote : E → MountError E
  lookup_failed : Text → E → MountError E

abbrev pub Method : Type 0 → Type 0 → Type 0 → Type 0
Method N E A = Steps (Mount N) (MountError E) A

unfoldable pub root_entry : ℕ → NodeInfo
root_entry id = record {
  node_id = id;
  parent_node_id = id;
  name = [];
  file_type = FileType.directory;
  size = 0;
  mode = 0;
  mod_time = [];
}

unfoldable pub default_options : Options → Options
default_options o = record o {
  root_node_id = if eqb o.root_node_id 0 then 1 else o.root_node_id;
  volume_name = if is_empty o.volume_name then codes "devmount" else o.volume_name;
  read_dir_batch_size = if eqb o.read_dir_batch_size 0 then 128 else o.read_dir_batch_size;
}

-- New
unfoldable pub new_mount : {N : Type 0} → N → Options → Mount N
unfolding default_options root_entry
new_mount net o =
    let opts = default_options o in
    record {
      net = net;
      opts = opts;
      path_cache = Map.insert Map.empty (slash ∷ []) (root_entry opts.root_node_id);
      file_handles = Map.empty;
      directory_handles = Map.empty;
      next_local_handle = 1;
    }
