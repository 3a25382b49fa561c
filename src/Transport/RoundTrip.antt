-- ===== src/Transport/RoundTrip.antt =====
-- DecodeFrame after EncodeFrame, of internal/transport/codec.go.
use net_drive.Prelude.{
  ◌+◌, ◌%◌, ◌^◌, ◌<◌, ◌≡◌, refl, ◌++◌, arith, length, length-append, take, drop, take-length-append,
  drop-length-append, ok,
}
use net_drive.Prelude.Text.{Text}
use net_drive.Protocol
use net_drive.Protocol.{Header}
use net_drive.Transport.Bytes.{uint32_put, uint64_put, put_uint32}
use net_drive.Transport.Steps.{read_full-append, length-write_header, decode_frame-steps}
use net_drive.Transport.{
  stamp, write_header, encode_frame, read_header, check_frame, decode_frame, get_uint32,
}

-- The fields that the caller sets fit their Go types.
pub record IsSendable (h : Header) : Type 0 where
  pub channel : h.channel < 2 ^ 8
  pub opcode : h.opcode < 2 ^ 8
  pub flags : h.flags < 2 ^ 32
  pub request_id : h.request_id < 2 ^ 64
  pub session_id : h.session_id < 2 ^ 64

read_header-write_header :
    (h : Header) (payload : Text)
    → IsSendable h
    → read_header (write_header (stamp h payload)) ≡ stamp h payload
unfolding read_header write_header stamp
read_header-write_header h payload v = λ i. record {
  magic = Protocol.magic;
  version = 1;
  header_length = 32;
  channel = h.channel;
  opcode = h.opcode;
  flags = uint32_put h.flags v.flags i;
  request_id = uint64_put h.request_id v.request_id i;
  session_id = uint64_put h.session_id v.session_id i;
  payload_length = uint32_put (length payload % 2 ^ 32) (omega arith) i;
}

check_frame-write_header :
    (h : Header) (payload : Text)
    → IsSendable h
    → check_frame (write_header (stamp h payload) ++ payload) ≡ ok (stamp h payload, payload)
unfolding check_frame
check_frame-write_header h payload v =
    rw (taken, dropped, read_header-write_header h payload v) (unfold stamp in ground arith)
  where
    taken : take 32 (write_header (stamp h payload) ++ payload) ≡ write_header (stamp h payload)
    taken =
        rw (← length-write_header h payload)
          (take-length-append (write_header (stamp h payload)) payload)

    dropped : drop 32 (write_header (stamp h payload) ++ payload) ≡ payload
    dropped =
        rw (← length-write_header h payload)
          (drop-length-append (write_header (stamp h payload)) payload)

-- A frame whose payload is shorter than 2^32 - 32 bytes is read back as its completed header and
-- its payload, and the stream is left at the byte after it.
pub decode_frame-encode_frame :
    (h : Header) (payload rest : Text)
    → IsSendable h
    → 32 + length payload < 2 ^ 32
    → decode_frame (encode_frame h payload ++ rest) ≡ ok (stamp h payload, payload, rest)
unfolding encode_frame get_uint32
decode_frame-encode_frame h payload rest v fits =
    let frame = write_header (stamp h payload) ++ payload in
    let n = 32 + length payload in
    decode_frame-steps _ (frame ++ rest) (put_uint32 n) frame rest payload n _
      (read_full-append 4 (put_uint32 n) (frame ++ rest) refl (omega arith)) (uint32_put n fits)
      (omega arith)
      (read_full-append n frame rest
        (omega (
          arith,
          length-append (write_header (stamp h payload)) payload,
          length-write_header h payload,
        ))
        (omega arith))
      (check_frame-write_header h payload v)
