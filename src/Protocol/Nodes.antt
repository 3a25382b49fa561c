-- ===== src/Protocol/Nodes.antt =====
-- internal/protocol/types.go: what the server says of files and directories. A size is not
-- negative, and a time is a text.
use net_drive.Prelude.{ℕ, Bool, List, Option}
use net_drive.Prelude.Text.{Text}

pub data FileType : Type 0 where
  file directory : FileType

pub record NodeInfo : Type 0 where
  pub node_id : ℕ
  pub parent_node_id : ℕ
  pub name : Text
  pub file_type : FileType
  pub size : ℕ
  pub mode : ℕ
  pub mod_time : Text

pub record DirEntry : Type 0 where
  pub node_id : ℕ
  pub name : Text
  pub file_type : FileType
  pub size : ℕ
  pub mode : ℕ
  pub mod_time : Text

pub record ReadDirResp : Type 0 where
  pub entries : List DirEntry
  pub next_cookie : ℕ
  pub eof : Bool

pub record SnapshotEntry : Type 0 where
  pub relative_path : Text
  pub entry : NodeInfo

pub record RecoverHandleSpec : Type 0 where
  pub previous_handle_id : ℕ
  pub node_id : ℕ
  pub writable : Bool
  pub delete_on_close : Bool

-- `error` is empty where the handle was recovered.
pub record RecoverHandleResult : Type 0 where
  pub previous_handle_id : ℕ
  pub handle_id : ℕ
  pub node_id : ℕ
  pub size : ℕ
  pub delete_on_close : Bool
  pub error : Text

-- `entry` counts only where the node exists; `error` is empty unless the node could not be read.
pub record RevalidateEntry : Type 0 where
  pub node_id : ℕ
  pub found : Bool
  pub entry : Option NodeInfo
  pub error : Text
