-- ===== src/Prelude/Steps/Success.antt =====
-- Steps that return: what the steps they are made of returned.
use mathlib.Core.Path.{◌≡◌, refl, ap}
use mathlib.Core.Option.{Option, none, some}
use net_drive.Prelude.Results.{Result, ok, err}
use net_drive.Prelude.Steps.{Steps, ◌>>=◌, ◌>>◌, fail, on_option}

module _ {S E A B : Type 0} where
  next-ok :
      (f : A → Steps S E B) (b : B) (s'' : S) (p : Result E A × S)
      → ◌≡◌ {A = Result E B × S} (elim p.0 [ err e ↦ (err e, p.1) | ok a ↦ f a p.1 ]) (ok b, s'')
      → (a : A) × (s' : S) × (p ≡ (ok a, s')) × (f a s' ≡ (ok b, s''))
  next-ok f b s'' (err e, s') h = absurd (cc (ap (λ p. p.0) h))
  next-ok f b s'' (ok a, s') h = (a, s', refl, h)

  pub bind-ok :
      (m : Steps S E A) (f : A → Steps S E B) (s : S) (b : B) (s'' : S)
      → (m >>= f) s ≡ (ok b, s'')
      → (a : A) × (s' : S) × (m s ≡ (ok a, s')) × (f a s' ≡ (ok b, s''))
  unfolding ◌>>=◌
  bind-ok m f s b s'' h = next-ok f b s'' (m s) h

  pub then-ok :
      (m : Steps S E A) (n : Steps S E B) (s : S) (b : B) (s'' : S)
      → (m >> n) s ≡ (ok b, s'')
      → (a : A) × (s' : S) × (m s ≡ (ok a, s')) × (n s' ≡ (ok b, s''))
  unfolding ◌>>◌
  then-ok m n = bind-ok m (λ _. n)

  pub option-ok :
      (o : Option A) (e : E) (f : A → Steps S E B) (s : S) (b : B) (s' : S)
      → on_option o (fail e) f s ≡ (ok b, s')
      → (a : A) × (o ≡ some a) × (f a s ≡ (ok b, s'))
  unfolding on_option fail
  option-ok none e f s b s' h = absurd (cc (ap (λ p. p.0) h))
  option-ok (some a) e f s b s' h = (a, refl, h)
