-- ===== src/Transport.antt =====
-- internal/transport/codec.go: frames on the wire. `json.Marshal` has made the payload's bytes.
pub mod Bytes
mod Steps
pub mod RoundTrip
pub mod Rejection
pub mod Soundness
use net_drive.Prelude.{
  ℕ, zero, suc, ◌+◌, ◌%◌, ◌^◌, Bool, List, [], ◌∷◌, ◌++◌, arith, ltb, eqb, length, take, drop,
  if◌then◌else◌, not, Result, ok, err, ◌>>=◌, ◌==◌, text_eq, text_beq,
}
use net_drive.Prelude.Text.{Text}
use net_drive.Protocol
use net_drive.Protocol.{Header}
use Bytes.{uint32, uint64, put_uint32, put_uint64}

pub data FrameError : Type 0 where
  eof unexpected_eof : FrameError
  invalid_frame_length : ℕ → FrameError
  invalid_magic : Text → FrameError
  unsupported_version : ℕ → FrameError
  invalid_header_length : ℕ → FrameError
  payload_length_mismatch : ℕ → ℕ → FrameError

-- The header as EncodeFrame completes it.
unfoldable pub stamp : Header → Text → Header
stamp h payload = record h {
  magic = Protocol.magic;
  version = Protocol.version;
  header_length = Protocol.header_length;
  payload_length = length payload % 2 ^ 32;
}

unfoldable pub write_header : Header → Text
unfolding put_uint32 put_uint64
write_header h =
    take 4 h.magic
    ++ (h.version
        ∷ h.header_length
        ∷ h.channel
        ∷ h.opcode
        ∷ (put_uint32 h.flags
            ++ (put_uint64 h.request_id
                ++ (put_uint64 h.session_id ++ put_uint32 h.payload_length))))

unfoldable pub encode_frame : Header → Text → Text
unfolding stamp write_header
encode_frame h payload =
    put_uint32 (Protocol.header_length + length payload)
    ++ (write_header (stamp h payload) ++ payload)

-- src[i], binary.BigEndian.Uint32(src) and Uint64(src). The callers' slices are long enough, so
-- the last clauses are not reached.
unfoldable pub byte : Text → ℕ
byte (a ∷ _) = a
byte _ = 0

unfoldable pub get_uint32 : Text → ℕ
get_uint32 (a ∷ b ∷ c ∷ d ∷ _) = uint32 a b c d
get_uint32 _ = 0

unfoldable pub get_uint64 : Text → ℕ
get_uint64 (a ∷ b ∷ c ∷ d ∷ e ∷ f ∷ g ∷ h ∷ _) = uint64 a b c d e f g h
get_uint64 _ = 0

unfoldable pub read_header : Text → Header
unfolding byte get_uint32 get_uint64
read_header src = record {
  magic = take 4 src;
  version = byte (drop 4 src);
  header_length = byte (drop 5 src);
  channel = byte (drop 6 src);
  opcode = byte (drop 7 src);
  flags = get_uint32 (drop 8 src);
  request_id = get_uint64 (drop 12 src);
  session_id = get_uint64 (drop 20 src);
  payload_length = get_uint32 (drop 28 src);
}

-- io.ReadFull of n > 0 bytes, from a stream that ends with the list.
unfoldable pub read_full : ℕ → Text → Result FrameError (Text × Text)
read_full n [] = err eof
read_full n (b ∷ s) =
    if ltb (length (b ∷ s)) n then err unexpected_eof else ok (take n (b ∷ s), drop n (b ∷ s))

unfoldable pub check_frame : Text → Result FrameError (Header × Text)
unfolding text_beq
check_frame frame =
    let header = read_header (take Protocol.header_length frame) in
    let payload = drop Protocol.header_length frame in
    if not (header.magic == Protocol.magic)
    then err (invalid_magic header.magic)
    else if not (eqb header.version Protocol.version)
    then err (unsupported_version header.version)
    else if not (eqb header.header_length Protocol.header_length)
    then err (invalid_header_length header.header_length)
    else if not (eqb (length payload % 2 ^ 32) header.payload_length)
    then err (payload_length_mismatch header.payload_length (length payload))
    else ok (header, payload)

-- The frame's header and payload, and what the stream holds after it.
unfoldable pub decode_frame : Text → Result FrameError (Header × Text × Text)
decode_frame s = do
  (len_buf, s') ← read_full 4 s
  let frame_len = get_uint32 len_buf
  if ltb frame_len Protocol.header_length then err (invalid_frame_length frame_len) else do
    (frame, rest) ← read_full frame_len s'
    (header, payload) ← check_frame frame
    ok (header, payload, rest)
