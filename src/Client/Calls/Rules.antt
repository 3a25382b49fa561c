-- ===== src/Client/Calls/Rules.antt =====
-- internal/clientcore: rules for what the steps of a call change, and whether they can fail.
use net_drive.Prelude.{
  arith, ℕ, ◌≡◌, refl, sym, ap, ◌∙◌, Option, none, some, Result, ok, err, err-ne-ok,
}
use net_drive.Prelude.Text.{Text}
use net_drive.Client.Tracking.{RuntimeState}
use net_drive.Client.Wire.{Client, CallError, request}
use net_drive.Client.Calls.Defs.{
  Services, Call, ◌>>=◌, ◌>>◌, return, fail, get, set_session_id, remember, decoded, request_decode,
}

-- What a client knows of the server, and its session.
abbrev pub known : {N : Type 0} → Client N → RuntimeState × ℕ
known c = (c.state, c.session_id)

pub record LooksOnly {N A : Type 0} (m : Call N A) : Type 0 where
  pub at : (c : Client N) → known (m c).1 ≡ known c

pub record Succeeds {N A : Type 0} (m : Call N A) : Type 0 where
  pub at : (c : Client N) → (a : A) × ((m c).0 ≡ ok a)

pub record IsAtomic {N A : Type 0} (m : Call N A) : Type 0 where
  pub at : (c : Client N) (e : CallError) → (m c).0 ≡ err e → known (m c).1 ≡ known c

module _ {N A : Type 0} where
  pub LooksOnly-decoded : (o : Option A) → LooksOnly {N = N} (decoded o)
  unfolding decoded fail return
  LooksOnly-decoded none = record { at = λ c. refl }
  LooksOnly-decoded (some a) = record { at = λ c. refl }

  pub Succeeds-return : (a : A) → Succeeds {N = N} (return a)
  unfolding return
  Succeeds-return a = record { at = λ c. (a, refl) }

  pub of_Succeeds : (m : Call N A) → Succeeds m → IsAtomic m
  of_Succeeds m h = record { at = λ c e failed. absurd (err-ne-ok (sym failed ∙ (h.at c).1)) }

  pub of_LooksOnly : (m : Call N A) → LooksOnly m → IsAtomic m
  of_LooksOnly m h = record { at = λ c e failed. h.at c }

module _ {N : Type 0} where
  pub LooksOnly-get : LooksOnly {N = N} get
  unfolding get
  LooksOnly-get = record { at = λ c. refl }

  pub Succeeds-get : Succeeds {N = N} get
  unfolding get
  Succeeds-get = record { at = λ c. (c, refl) }

  pub Succeeds-remember : (f : RuntimeState → RuntimeState) → Succeeds {N = N} (remember f)
  unfolding remember
  Succeeds-remember f = record { at = λ c. (tt, refl) }

  pub Succeeds-set_session_id : (id : ℕ) → Succeeds {N = N} (set_session_id id)
  unfolding set_session_id
  Succeeds-set_session_id id = record { at = λ c. (tt, refl) }

module _ {A B : Type 0} where
  first_error : Result CallError B → CallError → Result CallError A
  first_error (err e) other = err e
  first_error (ok b) other = err other

module _ {N A B : Type 0} where
  LooksOnly-next :
      (r : Result CallError A) (f : A → Call N B) (c : Client N)
      → ((a : A) → LooksOnly (f a))
      → known (((λ c'. (r, c')) >>= f) c).1 ≡ known c
  unfolding ◌>>=◌
  LooksOnly-next (err e) f c h = refl
  LooksOnly-next (ok a) f c h = (h a).at c

  pub LooksOnly-bind :
      (m : Call N A) (f : A → Call N B)
      → LooksOnly m
      → ((a : A) → LooksOnly (f a))
      → LooksOnly (m >>= f)
  unfolding ◌>>=◌
  LooksOnly-bind m f hm hf = record {
    at = λ c. let (r, c') = m c in LooksOnly-next r f c' hf ∙ hm.at c;
  }

  IsAtomic-next :
      (r : Result CallError A) (f : A → Call N B) (c : Client N) (e : CallError)
      → ((a : A) → IsAtomic (f a))
      → (((λ c'. (r, c')) >>= f) c).0 ≡ err e
      → known (((λ c'. (r, c')) >>= f) c).1 ≡ known c
  unfolding ◌>>=◌
  IsAtomic-next (err e') f c e h failed = refl
  IsAtomic-next (ok a) f c e h failed = (h a).at c e failed

  pub IsAtomic-bind :
      (m : Call N A) (f : A → Call N B)
      → LooksOnly m
      → ((a : A) → IsAtomic (f a))
      → IsAtomic (m >>= f)
  unfolding ◌>>=◌
  IsAtomic-bind m f hm hf = record {
    at = λ c e failed. let (r, c') = m c in IsAtomic-next r f c' e hf failed ∙ hm.at c;
  }

  pub IsAtomic-then : (m : Call N A) (n : Call N B) → LooksOnly m → IsAtomic n → IsAtomic (m >> n)
  unfolding ◌>>◌
  IsAtomic-then m n hm hn = IsAtomic-bind m (λ _. n) hm (λ _. hn)

  finish_next :
      (r : Result CallError A) (n : Call N B) (c : Client N) (e : CallError)
      → Succeeds n
      → (((λ c'. (r, c')) >>= λ _. n) c).0 ≡ err e
      → (r ≡ err e) × (known (((λ c'. (r, c')) >>= λ _. n) c).1 ≡ known c)
  unfolding ◌>>=◌ first_error
  finish_next (err e') n c e h failed = (ap (λ r. first_error r e) failed, refl)
  finish_next (ok a) n c e h failed = absurd (err-ne-ok (sym failed ∙ (h.at c).1))

  pub IsAtomic-finish : (m : Call N A) (n : Call N B) → IsAtomic m → Succeeds n → IsAtomic (m >> n)
  unfolding ◌>>◌ ◌>>=◌
  IsAtomic-finish m n hm hn = record {
    at = λ c e failed.
        let (r, c') = m c in
        let (failed', same) = finish_next r n c' e hn failed in same ∙ hm.at c e failed';
  }

  pub Succeeds-bind :
      (m : Call N A) (f : A → Call N B)
      → Succeeds m
      → ((a : A) → Succeeds (f a))
      → Succeeds (m >>= f)
  unfolding ◌>>=◌
  Succeeds-bind m f hm hf = record {
    at = λ c. rw ((hm.at c).1, ◌>>=◌) ((hf (hm.at c).0).at (m c).1);
  }

  pub Succeeds-then : (m : Call N A) (n : Call N B) → Succeeds m → Succeeds n → Succeeds (m >> n)
  unfolding ◌>>◌
  Succeeds-then m n hm hn = Succeeds-bind m (λ _. n) hm (λ _. hn)

module _ {N : Type 0} (v : Services N) where
  pub LooksOnly-request :
      (channel opcode : ℕ) (payload : Text)
      → LooksOnly (request v.conn v.error_resp channel opcode payload)
  unfolding request
  LooksOnly-request channel opcode payload = record { at = λ c. ground arith }

  pub LooksOnly-request_decode :
      {A : Type 0} (channel opcode : ℕ) (payload : Text) (decode : Text → Option A)
      → LooksOnly (request_decode v channel opcode payload decode)
  unfolding request_decode
  LooksOnly-request_decode channel opcode payload decode =
      LooksOnly-bind _ _ (LooksOnly-request channel opcode payload)
        (λ bytes. LooksOnly-decoded (decode bytes))

pub ruleset call_rules = (
  LooksOnly-request_decode, LooksOnly-get, LooksOnly-decoded, Succeeds-return, Succeeds-get,
  Succeeds-remember, Succeeds-set_session_id, Succeeds-bind, Succeeds-then, IsAtomic-bind,
  IsAtomic-then, of_Succeeds, of_LooksOnly,
)
