-- ===== src/Client/Loop.antt =====
-- A request of internal/clientcore/rpc.go that is answered by internal/server/server.go.
use net_drive.Prelude.{
  ℕ, ◌+◌, ◌^◌, ◌<◌, ◌≡◌, refl, subst, true, none, some, Option, [], ◌++◌, arith, length, Result, ok,
  err,
}
use mathlib.Core.List.{append-nil}
use net_drive.Prelude.Words.{next_u64}
use net_drive.Prelude.Text.{Text}
use net_drive.Protocol.{Header, ErrorCode}
use net_drive.Transport.{encode_frame, decode_frame, stamp}
use net_drive.Transport.RoundTrip.{IsSendable, decode_frame-encode_frame}
use net_drive.Dispatch.Serve.{response_header, error_header}
use net_drive.Dispatch.Reply.{Encoders, Sent, reply_header, reply_body, reply_frame}
use net_drive.Dispatch.Connection.{ServerState, Host, dispatch, answer_frame}
use net_drive.Dispatch.Fits.{sent_opcode, sent_session, HasNumbers, dispatch-Fits}
use net_drive.Client.Wire.{
  Conn, Client, CallError, answered, request_header, check_reply, read_reply, exchange, request,
  has_error_flag,
}

decode_alone :
    (h : Header) (payload : Text)
    → IsSendable h
    → 32 + length payload < 2 ^ 32
    → decode_frame (encode_frame h payload) ≡ ok (stamp h payload, payload, [])
decode_alone h payload sendable fits =
    subst (λ bytes. decode_frame bytes ≡ ok (stamp h payload, payload, []))
      (append-nil (encode_frame h payload)) (decode_frame-encode_frame h payload [] sendable fits)

stamp-IsSendable : (h : Header) (payload : Text) → IsSendable h → IsSendable (stamp h payload)
unfolding stamp
stamp-IsSendable h payload v = record {
  channel = v.channel;
  opcode = v.opcode;
  flags = v.flags;
  request_id = v.request_id;
  session_id = v.session_id;
}

-- What the client makes of the server's answer.
abbrev pub received : Encoders → (ErrorCode → Text) → Result ErrorCode Sent → Result CallError Text
received enc message (ok sent) = ok sent.payload
received enc message (err code) = err (answered code (message code))

reply_header-IsSendable :
    (h : Header) (r : Result ErrorCode Sent)
    → IsSendable h
    → sent_opcode r < 2 ^ 8
    → sent_session r < 2 ^ 64
    → IsSendable (reply_header h r)
unfolding reply_header response_header error_header sent_opcode sent_session
reply_header-IsSendable h (ok sent) v op session = record {
  channel = v.channel;
  opcode = op;
  flags = omega arith;
  request_id = v.request_id;
  session_id = session;
}
reply_header-IsSendable h (err code) v op session = record {
  channel = v.channel;
  opcode = omega arith;
  flags = omega arith;
  request_id = v.request_id;
  session_id = v.session_id;
}

module _ {N : Type 0} (conn : Conn N) (error_resp : Text → Option (ErrorCode × Text)) where
  check_reply-reply_header :
      (enc : Encoders) (message : ErrorCode → Text)
      → ((code : ErrorCode) → error_resp (enc.error code) ≡ some (code, message code))
      → (h : Header) (r : Result ErrorCode Sent)
      → check_reply conn error_resp h.request_id
          (stamp (reply_header h r) (reply_body enc r))
          (reply_body enc r)
        ≡ received enc message r
  unfolding check_reply reply_header response_header error_header reply_body stamp has_error_flag
  check_reply-reply_header enc message law h (ok sent) = ground arith
  check_reply-reply_header enc message law h (err code) = rw (law code) (ground arith)

-- The server at the other end of the connection, with the time at which it gets the frame, and the
-- bytes that it has sent.
abbrev pub loopback : {W : Type 0} → Host W → ℕ → Conn (ServerState W × Text)
loopback host now = record {
  write = λ net frame.
      let (bytes, s) = answer_frame host now net.0 frame in (none, (s, net.1 ++ bytes));
  arriving = λ net. net.1;
  left = λ net rest. (net.0, rest);
  broken = λ net. net;
}

module _ {W : Type 0} (host : Host W) (now : ℕ) (error_resp : Text → Option (ErrorCode × Text))
    (message : ErrorCode → Text) where
  answer_frame_lem :
      (h : Header) (payload : Text) (s : ServerState W)
      → IsSendable h
      → 32 + length payload < 2 ^ 32
      → let (r, s') = dispatch host now (stamp h payload) payload s in
        answer_frame host now s (encode_frame h payload)
        ≡ (reply_frame host.encoders (stamp h payload) r, s')
  unfolding answer_frame
  answer_frame_lem h payload s sendable fits =
      rw (decode_alone h payload sendable fits, answer_frame) refl

  read_reply_lem :
      (h : Header) (r : Result ErrorCode Sent) (s : ServerState W)
      → ((code : ErrorCode) → error_resp (host.encoders.error code) ≡ some (code, message code))
      → IsSendable (reply_header h r)
      → 32 + length (reply_body host.encoders r) < 2 ^ 32
      → read_reply (loopback host now) error_resp h.request_id (s, reply_frame host.encoders h r)
        ≡ (received host.encoders message r, (s, []))
  unfolding read_reply reply_frame
  read_reply_lem h r s law sendable fits =
      rw (decode_alone (reply_header h r) (reply_body host.encoders r) sendable fits, read_reply)
        (λ i. (
          check_reply-reply_header (loopback host now) error_resp host.encoders message law h r i,
          (s, []),
        ))

  exchange_lem :
      (h : Header) (payload : Text) (s : ServerState W)
      → let (r, s') = dispatch host now (stamp h payload) payload s in
        ((code : ErrorCode) → error_resp (host.encoders.error code) ≡ some (code, message code))
        → IsSendable h
        → HasNumbers s.sessions
        → 32 + length payload < 2 ^ 32
        → 32 + length (reply_body host.encoders r) < 2 ^ 32
        → exchange (loopback host now) error_resp h.request_id (s, []) (encode_frame h payload)
          ≡ (received host.encoders message r, (s', []))
  unfolding exchange stamp
  exchange_lem h payload s law sendable numbers fits fits' =
      let (r, s') = dispatch host now (stamp h payload) payload s in
      let (op, session) =
        dispatch-Fits host now (stamp h payload) payload s sendable.session_id numbers in
      rw (answer_frame_lem h payload s sendable fits) (
        read_reply_lem (stamp h payload) r s' law
          (reply_header-IsSendable (stamp h payload) r (stamp-IsSendable h payload sendable) op
            session)
          fits')

  -- A request of a connected client to this server, on any channel and under any session, over the
  -- bytes of both frames, is what dispatch makes of it, the test of the session included: the
  -- client gets the payload of its answer or the code of its error, the server is in the state in
  -- which dispatch leaves it, and no byte is left over. The payloads of both frames have room in a
  -- frame, and the numbers of the sessions in a uint64.
  pub request-dispatch :
      (c : Client (ServerState W × Text)) (channel opcode : ℕ) (payload : Text) (s : ServerState W)
      → let header =
          stamp (request_header channel opcode (next_u64 c.next_req_id) c.session_id) payload in
        let (r, s') = dispatch host now header payload s in
        ((code : ErrorCode) → error_resp (host.encoders.error code) ≡ some (code, message code))
        → c.connected ≡ true
        → c.net ≡ (s, [])
        → channel < 2 ^ 8
        → opcode < 2 ^ 8
        → c.session_id < 2 ^ 64
        → HasNumbers s.sessions
        → 32 + length payload < 2 ^ 32
        → 32 + length (reply_body host.encoders r) < 2 ^ 32
        → let result = request (loopback host now) error_resp channel opcode payload c in
          (result.0 ≡ received host.encoders message r) × (result.1.net ≡ (s', []))
  unfolding request
  request-dispatch c channel opcode payload s law up net chan op session numbers fits fits' =
      let header = request_header channel opcode (next_u64 c.next_req_id) c.session_id in
      let sendable : IsSendable header =
        unfold request_header in
        record {
          channel = chan;
          opcode = op;
          flags = omega arith;
          request_id = omega arith;
          session_id = session;
        } in
      rw (up, net, exchange_lem header payload s law sendable numbers fits fits') (refl, refl)
