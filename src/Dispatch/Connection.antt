-- ===== src/Dispatch/Connection.antt =====
-- internal/server/server.go: dispatch, and the loop of handleConn on one frame. `now` is the value of
-- s.Now().
use net_drive.Prelude.{ℕ, [], Result, ok, err}
use net_drive.Prelude.Text.{Text}
use net_drive.Protocol.{Header, ErrorCode}
use net_drive.Session.{SessionManager}
use net_drive.Control
use net_drive.Control.{
  ConnectionState, Route, route, to_control, to_channel, refused, read_request, dispatch_control,
}
use net_drive.Transport.{decode_frame}
use net_drive.Dispatch.Defs.{Site, Services}
use net_drive.Dispatch.Decode.{Decoders}
use net_drive.Dispatch.Serve.{serve_frame}
use net_drive.Dispatch.Reply.{Encoders, Sent, send_response, send_control, reply_frame}

-- A connection's state with that of the server.
pub record ServerState (W : Type 0) : Type 0 where
  pub connection : ConnectionState
  pub sessions : SessionManager
  pub site : Site W

-- What does not change: what the handlers take from outside, the coding of payloads, and the token.
pub record Host (W : Type 0) : Type 0 where
  pub services : Services W
  pub decoders : Decoders
  pub control_decoders : Control.Decoders
  pub encoders : Encoders
  pub token : Text

module _ {W : Type 0} (host : Host W) where
  -- The cases of dispatch, where `route` makes the tests.
  unfoldable pub dispatch_to :
      Route → ℕ → Header → Text → ServerState W → Result ErrorCode Sent × ServerState W
  unfolding read_request dispatch_control serve_frame send_response send_control
  dispatch_to to_control now header payload s =
      let request = read_request host.control_decoders header.opcode payload in
      let (connection, sessions, reply) =
        dispatch_control host.token s.connection s.sessions now request in
      (
        send_control host.encoders now reply,
        record s { connection = connection; sessions = sessions },
      )
  dispatch_to (to_channel channel) now header payload s =
      let (r, site) = serve_frame host.services host.decoders header payload s.site in
      (send_response host.encoders header r, record s { site = site })
  dispatch_to (refused code) now header payload s = (err code, s)

  unfoldable pub dispatch :
      ℕ → Header → Text → ServerState W → Result ErrorCode Sent × ServerState W
  unfolding route dispatch_to
  dispatch now header payload s = dispatch_to (route s.sessions now header) now header payload s

  -- The bytes of the answer to the bytes of a request. A frame that cannot be read closes the
  -- connection.
  unfoldable pub answer_frame : ℕ → ServerState W → Text → Text × ServerState W
  unfolding reply_frame dispatch
  answer_frame now s bytes = elim (decode_frame bytes) [
    | err e ↦ ([], s)
    | ok (header, payload, rest) ↦
        let (r, s') = dispatch now header payload s in (reply_frame host.encoders header r, s')
  ]
