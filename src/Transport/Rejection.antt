-- ===== src/Transport/Rejection.antt =====
-- What DecodeFrame says of a frame that is cut.
use net_drive.Prelude.{
  ℕ, zero, suc, ◌+◌, ◌^◌, ◌<◌, ◌≡◌, refl, ap, ◌∙◌, [], ◌∷◌, ◌++◌, arith, eqb, length, length-append,
  take, length-take, err, ◌||◌, if◌then◌else◌,
}
use net_drive.Prelude.Text.{Text}
use net_drive.Protocol.{Header}
use net_drive.Transport.Bytes.{uint32_put, put_uint32}
use net_drive.Transport.Steps.{read_full-append, length-write_header, decode_frame-cut}
use net_drive.Transport.{
  eof, unexpected_eof, stamp, write_header, encode_frame, read_full, decode_frame, get_uint32,
}

abbrev pub IsByte : ℕ → Type 0
IsByte b = b < 256

-- A frame of n > 0 bytes of which only the first j arrive.
read_full-cut :
    (n j : ℕ) (xs : Text)
    → length xs ≡ n
    → j < n
    → read_full n (take j xs) ≡ err (if eqb j 0 then eof else unexpected_eof)
unfolding read_full
read_full-cut n zero xs e h = ground arith
read_full-cut n (suc j) [] e h = absurd (omega arith)
read_full-cut n (suc j) (x ∷ xs) e h = ground (arith, length-take j xs)

decode_frame-cut_body :
    (h : Header) (payload : Text) (j : ℕ)
    → 32 + length payload < 2 ^ 32
    → j < 32 + length payload
    → decode_frame
        (put_uint32 (32 + length payload) ++ take j (write_header (stamp h payload) ++ payload))
      ≡ err (if eqb j 0 then eof else unexpected_eof)
unfolding get_uint32
decode_frame-cut_body h payload j fits le =
    let frame = write_header (stamp h payload) ++ payload in
    let n = 32 + length payload in
    decode_frame-cut _ (take j frame) (put_uint32 n) n _
      (read_full-append 4 (put_uint32 n) (take j frame) (unfold put_uint32 in refl) (omega arith))
      (unfold put_uint32 in uint32_put n fits) (omega arith)
      (read_full-cut n j frame
        (omega (
          arith,
          length-append (write_header (stamp h payload)) payload,
          length-write_header h payload,
        ))
        le)

-- A frame with a payload shorter than 2^32 - 32 bytes that is cut anywhere is refused: as the end
-- of the stream where it stops before the length prefix or right behind it, and as an unexpected
-- end at every other place.
pub decode_frame-take :
    (h : Header) (payload : Text) (k : ℕ)
    → 32 + length payload < 2 ^ 32
    → k < 36 + length payload
    → decode_frame (take k (encode_frame h payload))
      ≡ err (if eqb k 0 || eqb k 4 then eof else unexpected_eof)
unfolding encode_frame decode_frame read_full
decode_frame-take h payload zero fits le = refl
decode_frame-take h payload (suc zero) fits le = refl
decode_frame-take h payload (suc (suc zero)) fits le = refl
decode_frame-take h payload (suc (suc (suc zero))) fits le = refl
decode_frame-take h payload (suc (suc (suc (suc j)))) fits le =
    decode_frame-cut_body h payload j fits (omega arith) ∙ ap err (ground arith)
