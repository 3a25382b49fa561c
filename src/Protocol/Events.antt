-- ===== src/Protocol/Events.antt =====
-- internal/protocol/types.go: events, polls and subscriptions.
use net_drive.Prelude.{ℕ, Bool, List}
use net_drive.Prelude.Text.{Text}
use net_drive.Protocol.Nodes.{SnapshotEntry}

pub data EventType : Type 0 where
  created deleted content_changed meta_changed rename_from rename_to : EventType

pub record WatchEvent : Type 0 where
  pub event_seq : ℕ
  pub event_time : Text
  pub watch_id : ℕ
  pub event_type : EventType
  pub node_id : ℕ
  pub parent_node_id : ℕ
  pub old_parent_node_id : ℕ
  pub name : Text
  pub old_name : Text
  pub path : Text
  pub old_path : Text

pub record PollEventsResp : Type 0 where
  pub events : List WatchEvent
  pub latest_seq : ℕ
  pub overflow : Bool
  pub needs_resync : Bool
  pub acked_seq : ℕ

pub record ResyncResp : Type 0 where
  pub watch_id : ℕ
  pub snapshot_seq : ℕ
  pub entries : List SnapshotEntry

pub record ResubscribeSpec : Type 0 where
  pub previous_watch_id : ℕ
  pub node_id : ℕ
  pub recursive : Bool
  pub after_seq : ℕ

-- `error` is empty where the watch was made.
pub record ResubscribeResult : Type 0 where
  pub previous_watch_id : ℕ
  pub watch_id : ℕ
  pub start_seq : ℕ
  pub acked_seq : ℕ
  pub error : Text
