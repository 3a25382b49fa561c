-- ===== src/Client/Calls/Defs.antt =====
-- internal/clientcore/rpc.go: requestDecode, the requests that a client sends, and the chaining of
-- its steps.
use net_drive.Prelude.{ℕ, Bool, Option, none, some, List, Result, ok, err}
use net_drive.Prelude.Text.{Text}
use net_drive.Protocol.{
  ErrorCode, NodeInfo, ReadDirResp, PollEventsResp, ResyncResp, RecoverHandleResult,
  RevalidateEntry, ResubscribeResult,
}
use net_drive.Dispatch.Defs.{Request}
use net_drive.Client.Tracking.{RuntimeState}
use net_drive.Client.Wire.{Conn, Client, CallError, bad_payload, request}

-- The requests of the control channel, with the fields that are not constants.
pub data ControlRequest : Type 0 where
  hello : Text → Text → ControlRequest
  auth : Text → ControlRequest
  create_session : Text → ℕ → Text → ControlRequest
  resume_session : ℕ → Text → ControlRequest
  heartbeat : ℕ → ControlRequest

pub record HelloResp : Type 0 where
  pub server_name : Text
  pub server_version : Text
  pub selected_protocol_version : ℕ
  pub features : List Text

pub record AuthResp : Type 0 where
  pub principal_id : Text
  pub display_name : Text
  pub granted_features : List Text

pub record SessionResp : Type 0 where
  pub session_id : ℕ
  pub lease_seconds : ℕ
  pub expires_at : Text
  pub state : Text

pub record HeartbeatResp : Type 0 where
  pub expires_at : Text
  pub state : Text

-- What a client takes from outside: the connection, the time, json.Marshal of the requests,
-- DecodePayload of the answers, and the texts of errors.
pub record Services (N : Type 0) : Type 0 where
  pub conn : Conn N
  pub now : N → ℕ
  pub control : ControlRequest → Text
  pub encode : Request → Text
  pub message : CallError → Text
  pub error_resp : Text → Option (ErrorCode × Text)
  pub hello_resp : Text → Option HelloResp
  pub auth_resp : Text → Option AuthResp
  pub session_resp : Text → Option SessionResp
  pub heartbeat_resp : Text → Option HeartbeatResp
  -- LookupResp, GetAttrResp and RenameResp
  pub entry_resp : Text → Option NodeInfo
  pub open_dir_resp : Text → Option ℕ
  pub read_dir_resp : Text → Option ReadDirResp
  -- CloseDirResp, FlushResp, SetDeleteOnCloseResp and CloseResp
  pub done_resp : Text → Option (Unit {0})
  -- the handle and the size
  pub open_resp : Text → Option (ℕ × ℕ)
  pub create_resp : Text → Option (NodeInfo × ℕ)
  -- the bytes, and whether they are the last
  pub read_resp : Text → Option (Text × Bool)
  -- the bytes written and the size
  pub write_resp : Text → Option (ℕ × ℕ)
  pub truncate_resp : Text → Option ℕ
  -- the watch and the sequence number
  pub subscribe_resp : Text → Option (ℕ × ℕ)
  pub ack_resp : Text → Option (ℕ × ℕ)
  pub poll_resp : Text → Option PollEventsResp
  pub resync_resp : Text → Option ResyncResp
  pub recover_resp : Text → Option (List RecoverHandleResult)
  pub revalidate_resp : Text → Option (List RevalidateEntry)
  pub resubscribe_resp : Text → Option (List ResubscribeResult)

-- A call: what it changed stays changed when it fails.
abbrev pub Call : Type 0 → Type 0 → Type 0
Call N A = Client N → Result CallError A × Client N

module _ {N : Type 0} where
  infixl 4 ◌>>=◌ ◌>>◌
  unfoldable pub ◌>>=◌ : {A B : Type 0} → Call N A → (A → Call N B) → Call N B
  ◌>>=◌ m next c = let (r, c') = m c in elim r [ err e ↦ (err e, c') | ok a ↦ next a c' ]

  unfoldable pub ◌>>◌ : {A B : Type 0} → Call N A → Call N B → Call N B
  unfolding ◌>>=◌
  ◌>>◌ m next = m >>= λ _. next

  unfoldable pub return : {A : Type 0} → A → Call N A
  return a c = (ok a, c)

  unfoldable pub fail : {A : Type 0} → CallError → Call N A
  fail e c = (err e, c)

  unfoldable pub attempt : {A : Type 0} → Call N A → Call N (Result CallError A)
  attempt m c = let (r, c') = m c in (ok r, c')

  unfoldable pub get : Call N (Client N)
  get c = (ok c, c)

  unfoldable pub set_session_id : ℕ → Call N (Unit {0})
  set_session_id id c = (ok tt, record c { session_id = id })

  -- a change of the state that the client remembers
  unfoldable pub remember : (RuntimeState → RuntimeState) → Call N (Unit {0})
  remember f c = (ok tt, record c { state = f c.state })

  unfoldable pub decoded : {A : Type 0} → Option A → Call N A
  decoded none = fail bad_payload
  decoded (some a) = return a

  unfoldable pub of_result : {A : Type 0} → Result CallError A → Call N A
  of_result (ok a) = return a
  of_result (err e) = fail e

  -- requestDecode
  unfoldable pub request_decode :
      {A : Type 0} → Services N → ℕ → ℕ → Text → (Text → Option A) → Call N A
  unfolding decoded
  request_decode v channel opcode payload decode = do
    bytes ← request v.conn v.error_resp channel opcode payload
    decoded (decode bytes)
