-- ===== src/Directory/Search.antt =====
-- sort.Search, and the boundary of a monotone test.
use net_drive.Prelude.{
  ℕ, zero, suc, ◌+◌, ◌/◌, ◌≤◌, ◌<◌, ◌≡◌, Bool, true, false, arith, ltb, Bool-cases, ltb→lt, inl,
  inr,
}
use net_drive.Directory.{search, search_loop}

-- Once true, always true.
abbrev pub IsMonotone : (ℕ → Bool) → Type 0
IsMonotone f = (i j : ℕ) → i ≤ j → f i ≡ true → f j ≡ true

search_loop-boundary :
    (fuel i j n : ℕ) (f : ℕ → Bool) (r : ℕ)
    → IsMonotone f
    → j ≤ i + fuel
    → i ≤ r
    → r ≤ j
    → ((k : ℕ) → k < r → f k ≡ false)
    → (r < n → f r ≡ true)
    → j ≤ n
    → search_loop fuel f i j ≡ r
unfolding search_loop
search_loop-boundary zero i j n f r mono enough lo hi below at le = omega arith
search_loop-boundary (suc fuel) i j n f r mono enough lo hi below at le =
    elim (Bool-cases (ltb i j)) [
      | inr done ↦ rw done (ground arith)
      | inl more ↦ rw more (elim (Bool-cases (f ((i + j) / 2))) [
        | inl t ↦ rw t (
            search_loop-boundary fuel i ((i + j) / 2) n f r mono (omega (arith, ltb→lt i j more)) lo
              (ground (arith, below ((i + j) / 2))) below at (omega (arith, ltb→lt i j more)))
        | inr u ↦ rw u (
            search_loop-boundary fuel ((i + j) / 2 + 1) j n f r mono
              (omega (arith, ltb→lt i j more))
              (ground (arith, ltb→lt i j more, at, mono r ((i + j) / 2))) hi below at le)
      ])
    ]

-- On a monotone test the search returns the boundary r: the test fails below r, and holds at r
-- unless r is n.
pub search-boundary :
    (n : ℕ) (f : ℕ → Bool) (r : ℕ)
    → IsMonotone f
    → r ≤ n
    → ((k : ℕ) → k < r → f k ≡ false)
    → (r < n → f r ≡ true)
    → search n f ≡ r
unfolding search
search-boundary n f r mono le below at =
    search_loop-boundary n 0 n n f r mono (omega arith) (omega arith) le below at (omega arith)
