-- ===== src/Prelude/Equality.antt =====
-- Boolean equality as an interface, for map keys and for Go's `==` on strings.
use Prim.Native.Nat.{ℕ}
use mathlib.Core.Path.{◌≡◌, refl, subst}
use mathlib.Core.Logic.{◌↔◌}
use mathlib.Core.Bool.{Bool, true, false, ◌&&◌}
use mathlib.Core.List.{List, [], ◌∷◌}
use native.Mathlib.Omega.{arith}
use net_drive.Prelude.Tests.{eqb, eqb_iff}

-- A decidable equality: the test, that it finds only equal things, and that it finds them all.
pub record Eq {ℓ} (A : Type ℓ) : Type ℓ where
  pub same : A → A → Bool
  pub same-≡ : {a b : A} → same a b ≡ true → a ≡ b
  pub same-refl : (a : A) → same a a ≡ true

infix 50 ◌==◌
abbrev pub ◌==◌ {ℓ} : {A : Type ℓ} ⦃d : Eq A⦄ → A → A → Bool
◌==◌ ⦃d⦄ a b = d.same a b

pub ==_iff {ℓ} : {A : Type ℓ} ⦃d : Eq A⦄ (a b : A) → ((a == b) ≡ true) ↔ (a ≡ b)
==_iff ⦃d⦄ a b = (d.same-≡, λ p. subst (λ c. d.same a c ≡ true) p (d.same-refl a))

instance abbrev pub nat_eq : Eq ℕ
nat_eq = record {
  same = eqb;
  same-≡ = λ {a} {b} h. (eqb_iff a b).0 h;
  same-refl = λ a. (eqb_iff a a).1 refl;
}

-- A text is the list of its bytes.
unfoldable pub text_beq : List ℕ → List ℕ → Bool
text_beq [] [] = true
text_beq [] (b ∷ t) = false
text_beq (a ∷ s) [] = false
text_beq (a ∷ s) (b ∷ t) = eqb a b && text_beq s t

pub text_beq_iff : (s t : List ℕ) → (text_beq s t ≡ true) ↔ (s ≡ t)
unfolding text_beq
text_beq_iff [] [] = ground arith
text_beq_iff [] (b ∷ t) = ground arith
text_beq_iff (a ∷ s) [] = ground arith
text_beq_iff (a ∷ s) (b ∷ t) = ground (arith, text_beq_iff s t)

instance abbrev pub text_eq : Eq (List ℕ)
text_eq = record {
  same = text_beq;
  same-≡ = λ {a} {b} h. (text_beq_iff a b).0 h;
  same-refl = λ s. (text_beq_iff s s).1 refl;
}
