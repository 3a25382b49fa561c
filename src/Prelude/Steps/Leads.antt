-- ===== src/Prelude/Steps/Leads.antt =====
-- What holds after steps, whether they return or fail: one rule for each way to build them.
use mathlib.Core.Bool.{Bool, true, false}
use mathlib.Core.Option.{Option, none, some}
use net_drive.Prelude.Results.{Result, ok, err}
use net_drive.Prelude.Tests.{if◌then◌else◌}
use net_drive.Prelude.Steps.{Steps, ◌>>=◌, ◌>>◌, return, fail, get_state, modify, on_option}

-- From a state with P, `m` leads to one with Q.
pub record Leads {S E A : Type 0} (P Q : S → Type 0) (m : Steps S E A) : Type 0 where
  pub at : (s : S) → P s → Q (m s).1

module _ {S E A : Type 0} {P Q : S → Type 0} where
  pub Leads-return : (a : A) → ((s : S) → P s → Q s) → Leads {E = E} P Q (return a)
  unfolding return
  Leads-return a le = record { at = le }

  pub Leads-fail : (e : E) → ((s : S) → P s → Q s) → Leads {A = A} P Q (fail e)
  unfolding fail
  Leads-fail e le = record { at = le }

  pub Leads-if :
      (b : Bool) (m n : Steps S E A) → Leads P Q m → Leads P Q n → Leads P Q (if b then m else n)
  Leads-if true m n hm hn = hm
  Leads-if false m n hm hn = hn

module _ {S E A B : Type 0} {P Q : S → Type 0} where
  pub Leads-option :
      (o : Option A) (m : Steps S E B) (f : A → Steps S E B)
      → Leads P Q m
      → ((a : A) → Leads P Q (f a))
      → Leads P Q (on_option o m f)
  unfolding on_option
  Leads-option none m f hm hf = hm
  Leads-option (some a) m f hm hf = hf a

  Leads-next :
      (r : Result E A) (f : A → Steps S E B) (s : S)
      → ((s : S) → P s → Q s)
      → ((a : A) → Leads P Q (f a))
      → P s
      → Q (((λ s'. (r, s')) >>= f) s).1
  unfolding ◌>>=◌
  Leads-next (err e) f s le hf h = le s h
  Leads-next (ok a) f s le hf h = (hf a).at s h

  pub Leads-bind :
      (m : Steps S E A) (f : A → Steps S E B)
      → ((s : S) → P s → Q s)
      → Leads P P m
      → ((a : A) → Leads P Q (f a))
      → Leads P Q (m >>= f)
  unfolding ◌>>=◌
  Leads-bind m f le hm hf = record {
    at = λ s h. let (r, s') = m s in Leads-next r f s' le hf (hm.at s h);
  }

  pub Leads-then :
      (m : Steps S E A) (n : Steps S E B)
      → ((s : S) → P s → Q s)
      → Leads P P m
      → Leads P Q n
      → Leads P Q (m >> n)
  unfolding ◌>>◌
  Leads-then m n le hm hn = Leads-bind m (λ _. n) le hm (λ _. hn)

module _ {S E A B : Type 0} {P Q : S → Type 0} where
  -- where the last step that changes something comes before others
  pub Leads-then_rest :
      (m : Steps S E A) (n : Steps S E B) → Leads P Q m → Leads Q Q n → Leads P Q (m >> n)
  unfolding ◌>>◌ ◌>>=◌
  Leads-then_rest m n hm hn = record {
    at = λ s h. let (r, s') = m s in Leads-next r (λ _. n) s' (λ t q. q) (λ a. hn) (hm.at s h);
  }

module _ {S E : Type 0} {P Q : S → Type 0} where
  pub Leads-get_state : ((s : S) → P s → Q s) → Leads {E = E} P Q get_state
  unfolding get_state
  Leads-get_state le = record { at = le }

  pub Leads-modify : (f : S → S) → ((s : S) → P s → Q (f s)) → Leads {E = E} P Q (modify f)
  unfolding modify
  Leads-modify f h = record { at = h }

pub ruleset leads_rules = (
  Leads-return, Leads-fail, Leads-if, Leads-option, Leads-bind, Leads-then, Leads-get_state,
  Leads-modify,
)
