-- ===== src/Dispatch/Defs.antt =====
-- internal/server/server.go: the state that the handlers of requests share, and the requests and
-- answers of internal/protocol/types.go.
use net_drive.Prelude.{ℕ, Bool, List, [], Result, ok, err}
use net_drive.Prelude.Text.{Text}
use net_drive.Protocol.{
  ErrorCode, NodeInfo, ReadDirResp, PollEventsResp, ResyncResp, ResubscribeSpec, ResubscribeResult,
  RecoverHandleSpec, RecoverHandleResult, RevalidateEntry, EventType, WatchEvent,
}
use net_drive.Backend.Defs.{Server, BackendError, Os, M}
use net_drive.Backend.Handles.{Offset}
use net_drive.Journal.{Journal, append}

-- Backend and Journal of Server, and the operating system.
pub record Site (W : Type 0) : Type 0 where
  pub server : Server W
  pub journal : Journal

-- What the handlers take from outside: the operating system, NowRFC3339 of the time, the texts of
-- errors, and how deep SnapshotSubtree may walk.
pub record Services (W : Type 0) : Type 0 where
  pub os : Os W
  pub now_text : W → Text
  pub message : BackendError → Text
  pub depth : W → ℕ

pub data Request : Type 0 where
  lookup : ℕ → Text → Request
  get_attr open_dir close_dir : ℕ → Request
  read_dir : ℕ → ℕ → ℕ → Request
  rename : ℕ → Text → ℕ → Text → Bool → Request
  open_file : ℕ → Bool → Bool → Request
  create_file : ℕ → Text → Bool → Request
  read_file : ℕ → Offset → ℕ → Request
  write_file : ℕ → Offset → Text → Request
  flush close_file : ℕ → Request
  truncate : ℕ → ℕ → Request
  set_delete_on_close : ℕ → Bool → Request
  subscribe : ℕ → Bool → Request
  poll_events : ℕ → ℕ → ℕ → Request
  ack_events : ℕ → ℕ → Request
  resync : ℕ → Request
  recover_handles : List RecoverHandleSpec → Request
  revalidate : List ℕ → Request
  resubscribe : List ResubscribeSpec → Request

pub data Response : Type 0 where
  lookup_resp get_attr_resp rename_resp : NodeInfo → Response
  open_dir_resp truncate_resp : ℕ → Response
  read_dir_resp : ReadDirResp → Response
  close_dir_resp flush_resp close_resp : Response
  open_resp write_resp subscribe_resp ack_events_resp : ℕ → ℕ → Response
  create_resp : NodeInfo → ℕ → Response
  -- the bytes, whether they are the last, and the offset asked for
  read_resp : Text → Bool → Offset → Response
  set_delete_on_close_resp : Bool → Response
  poll_events_resp : PollEventsResp → Response
  resync_resp : ResyncResp → Response
  recover_handles_resp : List RecoverHandleResult → Response
  revalidate_resp : List RevalidateEntry → Response
  resubscribe_resp : List ResubscribeResult → Response

-- A handler: what it changed stays changed when it answers with an error.
abbrev pub Handler : Type 0 → Type 0 → Type 0
Handler W A = Site W → Result ErrorCode A × Site W

module _ {W : Type 0} where
  infixl 4 ◌>>=◌ ◌>>◌
  unfoldable pub ◌>>=◌ : {A B : Type 0} → Handler W A → (A → Handler W B) → Handler W B
  ◌>>=◌ m next s = let (r, s') = m s in elim r [ err code ↦ (err code, s') | ok a ↦ next a s' ]

  unfoldable pub ◌>>◌ : {A B : Type 0} → Handler W A → Handler W B → Handler W B
  unfolding ◌>>=◌
  ◌>>◌ m next = m >>= λ _. next

  unfoldable pub return : {A : Type 0} → A → Handler W A
  return a s = (ok a, s)

  unfoldable pub refuse : {A : Type 0} → ErrorCode → Handler W A
  refuse code s = (err code, s)

  -- a call of the backend, with its error as a value
  unfoldable pub try_backend : {A : Type 0} → M W A → Handler W (Result BackendError A)
  try_backend m s = let (r, server) = m s.server in (ok r, record s { server = server })

  unfoldable pub get_journal : Handler W Journal
  get_journal s = (ok s.journal, s)

  -- the watches and their counter, which Subscribe, Ack and Resubscribe change
  unfoldable pub put_watches : Journal → Handler W (Unit {0})
  put_watches j s = (
    ok tt,
    record s {
      journal = record s.journal { watches = j.watches; next_watch_id = j.next_watch_id };
    },
  )

  -- s.Journal.Append(event)
  unfoldable pub publish : Services W → WatchEvent → Handler W (Unit {0})
  publish v event s =
      (ok tt, record s { journal = append s.journal (v.now_text s.server.world) event })

-- A literal of a WatchEvent with no old place.
unfoldable pub event_at : EventType → ℕ → ℕ → Text → Text → WatchEvent
event_at kind node_id parent_id name path = record {
  event_seq = 0;
  event_time = [];
  watch_id = 0;
  event_type = kind;
  node_id = node_id;
  parent_node_id = parent_id;
  old_parent_node_id = 0;
  name = name;
  old_name = [];
  path = path;
  old_path = [];
}
