-- ===== src/Transport/Steps.antt =====
-- One call of DecodeFrame, step by step.
use net_drive.Prelude.{
  ℕ, ◌≤◌, ◌<◌, ◌≡◌, refl, [], ◌∷◌, ◌++◌, arith, length, length-append, take-length-append,
  drop-length-append, ok, err,
}
use net_drive.Prelude.Text.{Text}
use net_drive.Protocol.{Header}
use net_drive.Transport.{
  stamp, write_header, read_full, check_frame, decode_frame, get_uint32, FrameError,
}

pub read_full-append :
    (n : ℕ) (xs ys : Text) → length xs ≡ n → 0 < n → read_full n (xs ++ ys) ≡ ok (xs, ys)
unfolding read_full
read_full-append n [] ys e h = absurd (omega arith)
read_full-append n (x ∷ xs) ys e h = rw (← e) (
    ground
      (arith, length-append xs ys, take-length-append (x ∷ xs) ys, drop-length-append (x ∷ xs) ys))

pub length-write_header :
    (h : Header) (payload : Text) → length (write_header (stamp h payload)) ≡ 32
unfolding write_header stamp
length-write_header h payload = refl

pub decode_frame-steps :
    (s s' len_buf frame rest payload : Text) (n : ℕ) (h : Header)
    → read_full 4 s ≡ ok (len_buf, s')
    → get_uint32 len_buf ≡ n
    → 32 ≤ n
    → read_full n s' ≡ ok (frame, rest)
    → check_frame frame ≡ ok (h, payload)
    → decode_frame s ≡ ok (h, payload, rest)
unfolding decode_frame
decode_frame-steps s s' len_buf frame rest payload n h e₁ e₂ le e₃ e₄ = ground arith

pub decode_frame-cut :
    (s s' len_buf : Text) (n : ℕ) (e : FrameError)
    → read_full 4 s ≡ ok (len_buf, s')
    → get_uint32 len_buf ≡ n
    → 32 ≤ n
    → read_full n s' ≡ err e
    → decode_frame s ≡ err e
unfolding decode_frame
decode_frame-cut s s' len_buf n e e₁ e₂ le e₃ = ground arith
