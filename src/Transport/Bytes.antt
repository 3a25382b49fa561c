-- ===== src/Transport/Bytes.antt =====
-- encoding/binary: BigEndian.PutUint32, Uint32, PutUint64 and Uint64 on byte lists.
use net_drive.Prelude.{ℕ, ◌+◌, ◌*◌, ◌/◌, ◌%◌, ◌^◌, ◌<◌, ◌≡◌, [], ◌∷◌, arith}
use net_drive.Prelude.Text.{Text}

-- byte(v >> k)
abbrev pub byte_at : ℕ → ℕ → ℕ
byte_at v k = v / 2 ^ k % 256

unfoldable pub put_uint32 : ℕ → Text
put_uint32 v = byte_at v 24 ∷ byte_at v 16 ∷ byte_at v 8 ∷ byte_at v 0 ∷ []

unfoldable pub put_uint64 : ℕ → Text
put_uint64 v =
    byte_at v 56
    ∷ byte_at v 48
    ∷ byte_at v 40
    ∷ byte_at v 32
    ∷ byte_at v 24
    ∷ byte_at v 16
    ∷ byte_at v 8
    ∷ byte_at v 0
    ∷ []

abbrev pub uint32 : ℕ → ℕ → ℕ → ℕ → ℕ
uint32 a b c d = a * 2 ^ 24 + b * 2 ^ 16 + c * 2 ^ 8 + d

abbrev pub uint64 : ℕ → ℕ → ℕ → ℕ → ℕ → ℕ → ℕ → ℕ → ℕ
uint64 a b c d e f g h = uint32 a b c d * 2 ^ 32 + uint32 e f g h

pub uint32_put :
    (v : ℕ) → v < 2 ^ 32 → uint32 (byte_at v 24) (byte_at v 16) (byte_at v 8) (byte_at v 0) ≡ v
uint32_put v h = omega arith

pub uint64_put :
    (v : ℕ)
    → v < 2 ^ 64
    → uint64
        (byte_at v 56)
        (byte_at v 48)
        (byte_at v 40)
        (byte_at v 32)
        (byte_at v 24)
        (byte_at v 16)
        (byte_at v 8)
        (byte_at v 0)
      ≡ v
uint64_put v h = omega arith

pub put_uint32-uint32 :
    (a b c d : ℕ)
    → a < 256
    → b < 256
    → c < 256
    → d < 256
    → put_uint32 (uint32 a b c d) ≡ a ∷ b ∷ c ∷ d ∷ []
unfolding put_uint32
put_uint32-uint32 a b c d ha hb hc hd = grind arith

pub put_uint64-uint64 :
    (a b c d e f g h : ℕ)
    → a < 256
    → b < 256
    → c < 256
    → d < 256
    → e < 256
    → f < 256
    → g < 256
    → h < 256
    → put_uint64 (uint64 a b c d e f g h) ≡ a ∷ b ∷ c ∷ d ∷ e ∷ f ∷ g ∷ h ∷ []
unfolding put_uint64
put_uint64-uint64 a b c d e f g h ha hb hc hd he hf hg hh = ground arith
