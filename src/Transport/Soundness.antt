-- ===== src/Transport/Soundness.antt =====
-- The frames that DecodeFrame of internal/transport/codec.go accepts.
use mathlib.Core.List.{append_assoc}
use net_drive.Prelude.{
  ap₂, subst, All-append_left, All-append_right, ℕ, ◌+◌, ◌%◌, ◌^◌, ◌≤◌, ◌<◌, ◌≡◌, refl, ap, ◌∙◌,
  sym, [], ◌∷◌, ◌++◌, arith, length, take, drop, All, length-take, length-drop, take-append-drop,
  ok, Result-cases, inl, inr, text_beq_iff,
}
use net_drive.Prelude.Text.{Text}
use net_drive.Protocol
use net_drive.Protocol.{Header}
use net_drive.Transport.Bytes.{put_uint32, put_uint32-uint32, put_uint64-uint64}
use net_drive.Transport.{
  stamp, write_header, encode_frame, read_header, read_full, check_frame, decode_frame, get_uint32,
}

abbrev pub IsByte : ℕ → Type 0
IsByte b = b < 256

length-read_full :
    (n : ℕ) (s a b : Text) → read_full n s ≡ ok (a, b) → (length a ≡ n) × (s ≡ a ++ b)
unfolding read_full
length-read_full n [] a b e = ground arith
length-read_full n (x ∷ s) a b e = ground (arith, length-take n (x ∷ s), take-append-drop n (x ∷ s))

write_header-read_header :
    (src : Text) → length src ≡ 32 → All IsByte src → write_header (read_header src) ≡ src
unfolding write_header read_header get_uint32
write_header-read_header
      (x₀ ∷ x₁ ∷ x₂ ∷ x₃ ∷ x₄ ∷ x₅ ∷ x₆ ∷ x₇ ∷ x₈ ∷ x₉ ∷ y₀ ∷ y₁ ∷ y₂ ∷ y₃ ∷ y₄ ∷ y₅ ∷ y₆ ∷ y₇ ∷ y₈
        ∷ y₉ ∷ z₀ ∷ z₁ ∷ z₂ ∷ z₃ ∷ z₄ ∷ z₅ ∷ z₆ ∷ z₇ ∷ z₈ ∷ z₉ ∷ w₀ ∷ w₁ ∷ [])
      e h =
    let flags =
      put_uint32-uint32 x₈ x₉ y₀ y₁ (omega arith) (omega arith) (omega arith) (omega arith) in
    let request =
      put_uint64-uint64 y₂ y₃ y₄ y₅ y₆ y₇ y₈ y₉ (omega arith) (omega arith) (omega arith)
        (omega arith) (omega arith) (omega arith) (omega arith) (omega arith) in
    let session =
      put_uint64-uint64 z₀ z₁ z₂ z₃ z₄ z₅ z₆ z₇ (omega arith) (omega arith) (omega arith)
        (omega arith) (omega arith) (omega arith) (omega arith) (omega arith) in
    let payload =
      put_uint32-uint32 z₈ z₉ w₀ w₁ (omega arith) (omega arith) (omega arith) (omega arith) in
    λ i.
      x₀ ∷ x₁ ∷ x₂ ∷ x₃ ∷ x₄ ∷ x₅ ∷ x₆ ∷ x₇ ∷ (flags i ++ (request i ++ (session i ++ payload i)))
write_header-read_header _ e h = absurd (omega arith)

put_uint32-get_uint32 :
    (src : Text) → length src ≡ 4 → All IsByte src → put_uint32 (get_uint32 src) ≡ src
unfolding get_uint32
put_uint32-get_uint32 (a ∷ b ∷ c ∷ d ∷ []) e h =
    put_uint32-uint32 a b c d (omega arith) (omega arith) (omega arith) (omega arith)
put_uint32-get_uint32 _ e h = absurd (omega arith)

-- What the tests of DecodeFrame have established when it returns a header.
record Checked (frame : Text) (h : Header) (payload : Text) : Type 0 where
  header : h ≡ read_header (take 32 frame)
  payload_eq : payload ≡ drop 32 frame
  magic : h.magic ≡ Protocol.magic
  version : h.version ≡ 1
  header_length : h.header_length ≡ 32
  payload_length : h.payload_length ≡ length payload % 2 ^ 32

check_frame-Checked :
    (frame payload : Text) (h : Header)
    → check_frame frame ≡ ok (h, payload)
    → Checked frame h payload
unfolding check_frame
check_frame-Checked frame payload h e =
    ground (arith, text_beq_iff (read_header (take 32 frame)).magic Protocol.magic)

-- The reads and tests behind an accepted frame.
record Decoded (s : Text) (h : Header) (payload rest : Text) : Type 0 where
  len_buf : Text
  stream : Text
  frame : Text
  prefix_read : read_full 4 s ≡ ok (len_buf, stream)
  long_enough : 32 ≤ get_uint32 len_buf
  frame_read : read_full (get_uint32 len_buf) stream ≡ ok (frame, rest)
  checked : Checked frame h payload

decode_frame-Decoded :
    (s payload rest : Text) (h : Header)
    → decode_frame s ≡ ok (h, payload, rest)
    → Decoded s h payload rest
unfolding decode_frame
decode_frame-Decoded s payload rest h e = elim (Result-cases (read_full 4 s)) [
  | inr (x, p) ↦ absurd (ground arith)
  | inl ((len_buf, stream), p) ↦ elim (Result-cases (read_full (get_uint32 len_buf) stream)) [
    | inr (x, q) ↦ absurd (ground arith)
    | inl ((frame, rest'), q) ↦ elim (Result-cases (check_frame frame)) [
      | inr (x, r) ↦ absurd (ground arith)
      | inl ((h', payload'), r) ↦ record {
        len_buf = len_buf;
        stream = stream;
        frame = frame;
        prefix_read = p;
        long_enough = ground arith;
        frame_read = ground arith;
        checked = check_frame-Checked frame payload h (ground arith);
      }
    ]
  ]
]

unfold_encode_frame :
    (h : Header) (payload : Text)
    → encode_frame h payload
      ≡ put_uint32 (32 + length payload) ++ (write_header (stamp h payload) ++ payload)
unfolding encode_frame
unfold_encode_frame h payload = refl

module _ {s payload rest : Text} {h : Header} (bytes : All IsByte s)
    (d : Decoded s h payload rest) where
  frame_of_prefix : (s ≡ d.len_buf ++ d.stream) × (d.stream ≡ d.frame ++ rest)
  frame_of_prefix =
      ((length-read_full 4 s _ _ d.prefix_read).1, (length-read_full _ d.stream _ _ d.frame_read).1)

  prefix_bytes : All IsByte d.len_buf
  prefix_bytes =
      All-append_left IsByte d.len_buf d.stream (subst (All IsByte) frame_of_prefix.0 bytes)

  frame_bytes : All IsByte d.frame
  frame_bytes = All-append_left IsByte d.frame rest (
      subst (All IsByte) frame_of_prefix.1
        (All-append_right IsByte d.len_buf d.stream (subst (All IsByte) frame_of_prefix.0 bytes)))

  length-frame : length d.frame ≡ 32 + length payload
  length-frame = omega (
    arith,
    (length-read_full _ d.stream _ _ d.frame_read).0,
    d.long_enough,
    length-drop 32 d.frame,
    ap length d.checked.payload_eq,
  )

  prefix_of_length : put_uint32 (32 + length payload) ≡ d.len_buf
  prefix_of_length =
      rw (← length-frame, (length-read_full _ d.stream _ _ d.frame_read).0)
        (put_uint32-get_uint32 d.len_buf (length-read_full 4 s _ _ d.prefix_read).0 prefix_bytes)

  header_bytes : write_header h ≡ take 32 d.frame
  header_bytes =
      ap write_header d.checked.header
      ∙ write_header-read_header (take 32 d.frame)
          (omega (arith, length-take 32 d.frame, length-frame))
          (All-append_left IsByte (take 32 d.frame) (drop 32 d.frame)
            (rw take-append-drop frame_bytes))

  stamped : h ≡ stamp h payload
  unfolding stamp
  stamped = λ i. record h {
    magic = d.checked.magic i;
    version = d.checked.version i;
    header_length = d.checked.header_length i;
    payload_length = d.checked.payload_length i;
  }

  encoded : encode_frame h payload ≡ d.len_buf ++ d.frame
  encoded =
      unfold_encode_frame h payload
      ∙ ap₂ ◌++◌ prefix_of_length (
          ap₂ ◌++◌ (ap write_header (sym stamped) ∙ header_bytes) d.checked.payload_eq
          ∙ take-append-drop 32 d.frame)

-- An accepted stream of bytes begins with the very frame that EncodeFrame writes for the header
-- and the payload returned, and the header returned is the completed one.
pub decode_frame_sound :
    (s payload rest : Text) (h : Header)
    → All IsByte s
    → decode_frame s ≡ ok (h, payload, rest)
    → (h ≡ stamp h payload) × (s ≡ encode_frame h payload ++ rest)
decode_frame_sound s payload rest h bytes e =
    let d = decode_frame-Decoded s payload rest h e in
    (
      stamped bytes d,
      (frame_of_prefix bytes d).0
          ∙ ap (◌++◌ d.len_buf) (frame_of_prefix bytes d).1
          ∙ sym (append_assoc d.len_buf d.frame rest)
          ∙ ap (λ t. t ++ rest) (sym (encoded bytes d)),
    )
