-- ===== src/Backend/Keeps.antt =====
-- Invariants of the backend's methods, one rule for each way to build a method.
use net_drive.Prelude.{Bool, true, false, Option, none, some, Result, ok, err, if◌then◌else◌}
use net_drive.Backend.Defs.{
  BackendError, Server, M, ◌>>=◌, on_option, on_result, ◌>>◌, return, fail, attempt, of_result,
  get_backend, get_world,
}

-- `m` keeps `P`, whether it returns or fails.
pub record Keeps {W A : Type 0} (P : Server W → Type 0) (m : M W A) : Type 0 where
  pub at : (s : Server W) → P s → P (m s).1

module _ {W A : Type 0} {P : Server W → Type 0} where
  pub Keeps-return : (a : A) → Keeps P (return a)
  unfolding return
  Keeps-return a = record { at = λ s h. h }

  pub Keeps-fail : (e : BackendError) → Keeps P (fail {A = A} e)
  unfolding fail
  Keeps-fail e = record { at = λ s h. h }

  pub Keeps-of_result : (r : Result BackendError A) → Keeps P (of_result r)
  unfolding of_result
  Keeps-of_result r = record { at = λ s h. h }

  pub Keeps-if : (b : Bool) (m n : M W A) → Keeps P m → Keeps P n → Keeps P (if b then m else n)
  Keeps-if true m n km kn = km
  Keeps-if false m n km kn = kn

  pub Keeps-attempt : (m : M W A) → Keeps P m → Keeps P (attempt m)
  unfolding attempt
  Keeps-attempt m km = record { at = λ s h. km.at s h }

module _ {W A B : Type 0} {P : Server W → Type 0} where
  pub Keeps-option :
      (o : Option A) (m : M W B) (f : A → M W B)
      → Keeps P m
      → ((a : A) → Keeps P (f a))
      → Keeps P (on_option o m f)
  unfolding on_option
  Keeps-option none m f km kf = km
  Keeps-option (some a) m f km kf = kf a

  pub Keeps-result :
      (r : Result BackendError A) (f : BackendError → M W B) (g : A → M W B)
      → ((e : BackendError) → Keeps P (f e))
      → ((a : A) → Keeps P (g a))
      → Keeps P (on_result r f g)
  unfolding on_result
  Keeps-result (err e) f g kf kg = kf e
  Keeps-result (ok a) f g kf kg = kg a

  Keeps-next :
      (r : Result BackendError A) (f : A → M W B)
      → ((a : A) → Keeps P (f a))
      → Keeps P (of_result r >>= f)
  unfolding ◌>>=◌ of_result
  Keeps-next (err e) f kf = record { at = λ s h. h }
  Keeps-next (ok a) f kf = record { at = λ s h. (kf a).at s h }

  pub Keeps-bind :
      (m : M W A) (f : A → M W B) → Keeps P m → ((a : A) → Keeps P (f a)) → Keeps P (m >>= f)
  unfolding ◌>>=◌ of_result
  Keeps-bind m f km kf = record {
    at = λ s h. let (r, s') = m s in (Keeps-next r f kf).at s' (km.at s h);
  }

  pub Keeps-then : (m : M W A) (n : M W B) → Keeps P m → Keeps P n → Keeps P (m >> n)
  unfolding ◌>>◌
  Keeps-then m n km kn = Keeps-bind m (λ _. n) km (λ _. kn)

module _ {W : Type 0} {P : Server W → Type 0} where
  pub Keeps-get_backend : Keeps P get_backend
  unfolding get_backend
  Keeps-get_backend = record { at = λ s h. h }

  pub Keeps-get_world : Keeps P get_world
  unfolding get_world
  Keeps-get_world = record { at = λ s h. h }

pub ruleset keeps_rules = (
  Keeps-return, Keeps-fail, Keeps-of_result, Keeps-if, Keeps-attempt, Keeps-option, Keeps-result,
  Keeps-bind, Keeps-then, Keeps-get_backend, Keeps-get_world,
)
