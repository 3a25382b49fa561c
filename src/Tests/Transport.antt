-- ===== src/Tests/Transport.antt =====
-- A heartbeat request on the wire.
use net_drive.Prelude.{◌≡◌, refl, [], ◌∷◌, ◌++◌, arith, ok, err, take}
use net_drive.Prelude.Text.{Text, codes}
use net_drive.Protocol.{Header}
use net_drive.Protocol.Channel
use net_drive.Protocol.Opcode
use net_drive.Protocol.Flag
use net_drive.Transport.{
  encode_frame, decode_frame, stamp, unexpected_eof, read_full, check_frame, read_header,
  get_uint32, invalid_frame_length,
}
use net_drive.Transport.RoundTrip.{decode_frame-encode_frame}
use net_drive.Transport.Rejection.{decode_frame-take}
use net_drive.Transport.Soundness.{decode_frame_sound}

abbrev beat : Header
beat = record {
  magic = [];
  version = 0;
  header_length = 0;
  channel = Channel.control;
  opcode = Opcode.heartbeat_req;
  flags = Flag.request;
  request_id = 7;
  session_id = 1001;
  payload_length = 0;
}

abbrev body : Text
body = codes "{}"

short_length_test : decode_frame (0 ∷ 0 ∷ 0 ∷ 31 ∷ []) ≡ err (invalid_frame_length 31)
unfolding decode_frame read_full get_uint32
short_length_test = refl

decode_frame-encode_frame_example :
    decode_frame (encode_frame beat body ++ codes "next") ≡ ok (stamp beat body, body, codes "next")
decode_frame-encode_frame_example =
    decode_frame-encode_frame beat body (codes "next")
      (record {
        channel = omega arith;
        opcode = omega arith;
        flags = omega arith;
        request_id = omega arith;
        session_id = omega arith;
      })
      (omega arith)

decode_frame-take_example : decode_frame (take 20 (encode_frame beat body)) ≡ err unexpected_eof
decode_frame-take_example = decode_frame-take beat body 20 (omega arith) (omega arith)

decode_frame_sound_example :
    (stamp beat body ≡ stamp (stamp beat body) body)
    × (encode_frame beat body ≡ encode_frame (stamp beat body) body ++ [])
unfolding encode_frame decode_frame read_full check_frame read_header get_uint32
decode_frame_sound_example =
    decode_frame_sound (encode_frame beat body) body [] (stamp beat body) (omega arith) refl
