-- ===== src/Runtime/Defs.antt =====
-- The state of internal/winclientruntime/runtime.go.
use net_drive.Prelude.{ℕ, Bool, []}
use net_drive.Prelude.Text.{Text}
use net_drive.Winclient.{Config}

pub data Phase : Type 0 where
  idle connecting mounted stopping failed : Phase

pub record SessionInfo : Type 0 where
  pub server_addr : Text
  pub mount_point : Text
  pub volume_prefix : Text
  pub remote_path : Text
  pub client_instance_id : Text
  pub session_id : ℕ
  pub principal_id : Text
  pub server_name : Text
  pub server_version : Text
  pub expires_at : Text
  pub requested_backend : Text
  pub host_backend : Text
  pub host_dll_path : Text
  pub host_launcher_path : Text
  pub host_binding_status : Text
  pub host_dispatcher_state : Text

-- The fields that a Snapshot shares with a SessionInfo are `info`. A time of 0 is the zero time.
pub record Snapshot : Type 0 where
  pub phase : Phase
  pub status_text : Text
  pub last_error : Text
  pub active_profile : Text
  pub info : SessionInfo
  pub started_at : ℕ
  pub updated_at : ℕ

-- `cancel` tells whether a cancel function is stored. `building` counts the calls of Start that
-- have set the phase to connecting and have not returned, `running` the goroutines of
-- waitForSession; they are not fields of the Go type.
pub record Runtime : Type 0 where
  pub cancel : Bool
  pub state : Snapshot
  pub building : ℕ
  pub running : ℕ

unfoldable pub config_info : Config → SessionInfo
config_info c = record {
  server_addr = c.addr;
  mount_point = c.mount_point;
  volume_prefix = c.volume_prefix;
  remote_path = c.path;
  client_instance_id = c.client_instance_id;
  session_id = 0;
  principal_id = [];
  server_name = [];
  server_version = [];
  expires_at = [];
  requested_backend = c.host_backend;
  host_backend = [];
  host_dll_path = [];
  host_launcher_path = [];
  host_binding_status = [];
  host_dispatcher_state = [];
}

abbrev pub no_config : Config
no_config = record {
  addr = [];
  token = [];
  client_instance_id = [];
  lease_seconds = 0;
  mount_point = [];
  volume_prefix = [];
  path = [];
  local_path = [];
  host_backend = [];
  length = 0;
  max_entries = 0;
}
