-- ===== src/Dispatch/Reply.antt =====
-- internal/server/server.go: writeResponse and writeError. `Encoders` makes the bytes of payloads, as
-- json.Marshal does.
use net_drive.Prelude.{ℕ, Result, ok, err}
use net_drive.Prelude.Text.{Text}
use net_drive.Protocol.{Header, ErrorCode}
use net_drive.Protocol.Opcode
use net_drive.Transport.{encode_frame}
use net_drive.Control
use net_drive.Control.{Reply}
use net_drive.Dispatch.Defs.{Response}
use net_drive.Dispatch.Serve.{response_header, error_header, opcode_of}

-- An ErrorResp has more fields than the code; they do not count here. The answers on the control
-- channel name the time.
pub record Encoders : Type 0 where
  pub response : Response → Text
  pub control : ℕ → Reply → Text
  pub error : ErrorCode → Text

-- The arguments of writeResponse after the header.
pub record Sent : Type 0 where
  pub opcode : ℕ
  pub session_id : ℕ
  pub payload : Text

unfoldable pub send_response : Encoders → Header → Result ErrorCode Response → Result ErrorCode Sent
unfolding opcode_of
send_response enc header (err code) = err code
send_response enc header (ok resp) = ok (record {
  opcode = opcode_of resp;
  session_id = header.session_id;
  payload = enc.response resp;
})

unfoldable pub send_control : Encoders → ℕ → Reply → Result ErrorCode Sent
send_control enc now (Control.failed code) = err code
send_control enc now (Control.hello_done selected) = ok (record {
  opcode = Opcode.hello_resp;
  session_id = 0;
  payload = enc.control now (Control.hello_done selected);
})
send_control enc now (Control.auth_done principal) = ok (record {
  opcode = Opcode.auth_resp;
  session_id = 0;
  payload = enc.control now (Control.auth_done principal);
})
send_control enc now (Control.session_info opcode s) = ok (record {
  opcode = opcode;
  session_id = s.id;
  payload = enc.control now (Control.session_info opcode s);
})

unfoldable pub reply_header : Header → Result ErrorCode Sent → Header
unfolding response_header error_header
reply_header header (ok sent) = response_header header sent.opcode sent.session_id
reply_header header (err code) = error_header header

unfoldable pub reply_body : Encoders → Result ErrorCode Sent → Text
reply_body enc (ok sent) = sent.payload
reply_body enc (err code) = enc.error code

unfoldable pub reply_frame : Encoders → Header → Result ErrorCode Sent → Text
unfolding reply_header reply_body
reply_frame enc header r = encode_frame (reply_header header r) (reply_body enc r)
