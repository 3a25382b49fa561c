-- ===== src/Dispatch/Logs.antt =====
-- Requests of internal/server/server.go, next to the list of all events ever appended.
use net_drive.Prelude.{
  ℕ, ◌+◌, ◌≤◌, ◌<◌, ◌-◌, drop, ◌≡◌, refl, sym, ap, subst, ◌∙◌, List, [], ◌∷◌, ◌++◌, Result, ok, err,
  arith, length, length-append, err-ne-ok,
}
use mathlib.Core.List.{append-nil, append_assoc}
use net_drive.Prelude.Words.{u64_mod}
use net_drive.Protocol.{ErrorCode, WatchEvent}
use net_drive.Journal.{Journal, reserve}
use net_drive.Journal.Numbering.{Refines, append-Refines}
use net_drive.Dispatch.Defs.{Site, Handler, ◌>>=◌, ◌>>◌, return, publish, Services}
use net_drive.Dispatch.Silent.{log_of, IsSilent}

-- The journal after a handler holds the same history and at most `n` more events.
pub record HasLogged (n : ℕ) (history : List WatchEvent) (j : Journal) : Type 0 where
  pub events : List WatchEvent
  pub short : length events ≤ n
  pub refines : Refines j (history ++ events)

-- A handler that returns, and appends at most `n` events.
pub record Adds {W A : Type 0} (n : ℕ) (m : Handler W A) : Type 0 where
  returns : (s : Site W) → (a : A) × ((m s).0 ≡ ok a)
  pub logs :
      (s : Site W) (history : List WatchEvent)
      → Refines s.journal history
      → length history + n < u64_mod
      → HasLogged n history (m s).1.journal

-- A handler that appends at most `n` events, and none where it fails.
pub record Logs {W A : Type 0} (n : ℕ) (m : Handler W A) : Type 0 where
  pub logs :
      (s : Site W) (history : List WatchEvent)
      → Refines s.journal history
      → length history + n < u64_mod
      → HasLogged n history (m s).1.journal
  pub on_error :
      (s : Site W) (code : ErrorCode)
      → (m s).0 ≡ err code
      → log_of (m s).1.journal ≡ log_of s.journal

Refines-log_of :
    (j j' : Journal) (history : List WatchEvent)
    → log_of j' ≡ log_of j
    → Refines j history
    → Refines j' history
Refines-log_of j j' history e v = record {
  numbered = v.numbered;
  counter = ap (λ (l : ℕ × ℕ × List WatchEvent). l.1) e ∙ v.counter;
  kept =
      ap (λ (l : ℕ × ℕ × List WatchEvent). l.2) e
      ∙ v.kept
      ∙ ap (λ (l : ℕ × ℕ × List WatchEvent). drop (length history - l.0) history) (sym e);
  positive = subst (λ (l : ℕ × ℕ × List WatchEvent). 0 < l.0) (sym e) v.positive;
}

HasLogged-log_of :
    (n : ℕ) (j j' : Journal) (history : List WatchEvent)
    → log_of j' ≡ log_of j
    → HasLogged n history j
    → HasLogged n history j'
HasLogged-log_of n j j' history e h = record {
  events = h.events;
  short = h.short;
  refines = Refines-log_of j j' _ e h.refines;
}

HasLogged-nil :
    (n : ℕ) (j : Journal) (history : List WatchEvent) → Refines j history → HasLogged n history j
HasLogged-nil n j history v = record {
  events = [];
  short = omega arith;
  refines = subst (Refines j) (sym (append-nil history)) v;
}

HasLogged-trans :
    (n k : ℕ) (j j' : Journal) (history : List WatchEvent)
    → (first : HasLogged n history j) → HasLogged k (history ++ first.events) j'
    → HasLogged (n + k) history j'
HasLogged-trans n k j j' history first second = record {
  events = first.events ++ second.events;
  short = omega (arith, length-append first.events second.events, first.short, second.short);
  refines = subst (Refines j') (append_assoc history first.events second.events) second.refines;
}

module _ {W : Type 0} where
  pub Adds-return : {A : Type 0} (a : A) → Adds {W = W} 0 (return a)
  unfolding return
  Adds-return a = record {
    returns = λ s. (a, refl);
    logs = λ s history v room. HasLogged-nil 0 _ history v;
  }

  pub Adds-publish : (v : Services W) (e : WatchEvent) → Adds 1 (publish v e)
  unfolding publish
  Adds-publish v e = record {
    returns = λ s. (tt, refl);
    logs = λ s history r room. record {
      events = (reserve s.journal (v.now_text s.server.world) e).1 ∷ [];
      short = omega arith;
      refines = append-Refines s.journal history (v.now_text s.server.world) e r room;
    };
  }

module _ {W A B : Type 0} where
  pub Adds-then :
      (n k : ℕ) (p : Handler W A) (q : Handler W B) → Adds n p → Adds k q → Adds (n + k) (p >> q)
  unfolding ◌>>◌ ◌>>=◌
  Adds-then n k p q hp hq = record {
    returns = λ s. rw ((hp.returns s).1, ◌>>◌, ◌>>=◌) (hq.returns (p s).1);
    logs = λ s history v room.
        rw ((hp.returns s).1, ◌>>◌, ◌>>=◌)
          (let first = hp.logs s history v (omega arith) in
            HasLogged-trans n k (p s).1.journal (q (p s).1).1.journal history first (
              hq.logs (p s).1 (history ++ first.events) first.refines
                (omega (arith, length-append history first.events, first.short))));
  }

  Logs-next :
      (n : ℕ) (r : Result ErrorCode A) (f : A → Handler W B)
      → ((a : A) → Logs n (f a))
      → Logs n ((λ s. (r, s)) >>= f)
  unfolding ◌>>=◌
  Logs-next n (ok a) f h = record { logs = (h a).logs; on_error = (h a).on_error }
  Logs-next n (err code) f h = record {
    logs = λ s history v room. HasLogged-nil n _ history v;
    on_error = λ s code' e. refl;
  }

  pub Logs-bind :
      (n : ℕ) (p : Handler W A) (f : A → Handler W B)
      → IsSilent p
      → ((a : A) → Logs n (f a))
      → Logs n (p >>= f)
  unfolding ◌>>=◌
  Logs-bind n p f hp hf = record {
    logs = λ s history v room.
        let (r, s') = p s in
        (Logs-next n r f hf).logs s' history (Refines-log_of _ _ history (hp.at s) v) room;
    on_error = λ s code e. let (r, s') = p s in (Logs-next n r f hf).on_error s' code e ∙ hp.at s;
  }

module _ {W A : Type 0} where
  pub Adds-Logs : (n : ℕ) (p : Handler W A) → Adds n p → Logs n p
  Adds-Logs n p h = record {
    logs = h.logs;
    on_error = λ s code e. absurd (err-ne-ok (sym e ∙ (h.returns s).1));
  }

  pub IsSilent-Logs : (n : ℕ) (p : Handler W A) → IsSilent p → Logs n p
  IsSilent-Logs n p h = record {
    logs = λ s history v room. HasLogged-nil n _ history (Refines-log_of _ _ history (h.at s) v);
    on_error = λ s code e. h.at s;
  }

  pub Logs-more : (n k : ℕ) (p : Handler W A) → n ≤ k → Logs n p → Logs k p
  Logs-more n k p le h = record {
    logs = λ s history v room.
        let l = h.logs s history v (omega arith) in
        record { events = l.events; short = omega (arith, l.short); refines = l.refines };
    on_error = h.on_error;
  }
