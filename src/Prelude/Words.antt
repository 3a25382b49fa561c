-- ===== src/Prelude/Words.antt =====
-- Machine words: uint64 counters with their wrap-around.
use Prim.Native.Nat.{ℕ, ◌+◌, ◌%◌, ◌^◌}

abbrev pub u64_mod : ℕ
u64_mod = 2 ^ 64

-- `x.Add(1)` of an atomic.Uint64, and `x + 1` of a uint64
abbrev pub next_u64 : ℕ → ℕ
next_u64 x = (x + 1) % u64_mod
