-- ===== src/Prelude/Steps.antt =====
-- Go methods that change the state S and may return an error: what they changed stays changed when
-- they fail.
pub mod Leads
pub mod Success
use mathlib.Core.Path.{◌≡◌, refl}
use mathlib.Core.Bool.{Bool, true, false}
use mathlib.Core.Option.{Option, none, some}
use net_drive.Prelude.Results.{Result, ok, err}

abbrev pub Steps : Type 0 → Type 0 → Type 0 → Type 0
Steps S E A = S → Result E A × S

module _ {S E : Type 0} where
  infixl 4 ◌>>=◌ ◌>>◌
  unfoldable pub ◌>>=◌ : {A B : Type 0} → Steps S E A → (A → Steps S E B) → Steps S E B
  ◌>>=◌ m next s = let (r, s') = m s in elim r [ err e ↦ (err e, s') | ok a ↦ next a s' ]

  unfoldable pub ◌>>◌ : {A B : Type 0} → Steps S E A → Steps S E B → Steps S E B
  unfolding ◌>>=◌
  ◌>>◌ m next = m >>= λ _. next

  unfoldable pub return : {A : Type 0} → A → Steps S E A
  return a s = (ok a, s)

  unfoldable pub fail : {A : Type 0} → E → Steps S E A
  fail e s = (err e, s)

  unfoldable pub get_state : Steps S E S
  get_state s = (ok s, s)

  unfoldable pub modify : (S → S) → Steps S E (Unit {0})
  modify f s = (ok tt, f s)

  unfoldable pub on_option :
      {A B : Type 0} → Option A → Steps S E B → (A → Steps S E B) → Steps S E B
  on_option none m f = m
  on_option (some a) m f = f a
