-- ===== src/Journal/Numbering.antt =====
-- Append of internal/server/journal.go, next to the list of all events ever appended.
use net_drive.Prelude.{
  ℕ, suc, ◌+◌, ◌-◌, ◌<◌, ◌≡◌, refl, sym, ap, ◌∙◌, List, [], ◌∷◌, ◌++◌, arith, length, length-append,
  drop, drop-drop, drop-append, drop-nil, ltb→lt, length-drop, ltb, Bool-cases, inl, inr,
  if◌then◌else◌,
}
use net_drive.Prelude.Text.{Text}
use net_drive.Prelude.Words.{u64_mod}
use net_drive.Protocol.{WatchEvent}
use net_drive.Journal.{Journal, reserve, append, new_journal_broker}

-- The events are numbered n + 1, n + 2, …
abbrev pub Numbered : ℕ → List WatchEvent → Type 0
Numbered n [] = Unit
Numbered n (e ∷ events) = (e.event_seq ≡ suc n) × Numbered (suc n) events

-- `history` lists all events ever appended; the journal holds the last `retention` of them.
pub record Refines (j : Journal) (history : List WatchEvent) : Type 0 where
  pub numbered : Numbered 0 history
  pub counter : j.next_seq ≡ length history
  pub kept : j.events ≡ drop (length history - j.retention) history
  pub positive : 0 < j.retention

pub Refines-new : (retention : ℕ) → Refines (new_journal_broker retention) []
unfolding new_journal_broker
Refines-new retention = record {
  numbered = tt;
  counter = refl;
  kept = sym (drop-nil _);
  positive = ground arith;
}

Numbered-append :
    (n : ℕ) (events : List WatchEvent) (e : WatchEvent)
    → Numbered n events
    → e.event_seq ≡ n + length events + 1
    → Numbered n (events ++ e ∷ [])
Numbered-append n [] e h q = (omega arith, tt)
Numbered-append n (x ∷ events) e h q = (h.0, Numbered-append (suc n) events e h.1 (omega arith))

-- What the trimming of a full journal leaves.
keep_last :
    (r : ℕ) (h : List WatchEvent) (e : WatchEvent)
    → 0 < r
    → let events = drop (length h - r) h ++ e ∷ [] in
      (if ltb r (length events) then drop (length events - r) events else events)
      ≡ drop (length (h ++ e ∷ []) - r) (h ++ e ∷ [])
keep_last r h e pos =
    rw (← drop-append (length h - r) h (e ∷ []) (omega arith))
      (elim (Bool-cases (ltb r (length rest))) [
        | inl more ↦ rw more (
            drop-drop (length rest - r) (length h - r) (h ++ e ∷ [])
            ∙ ap (λ k. drop k (h ++ e ∷ [])) (omega (arith, ltb→lt, more, length-rest, length-all)))
        | inr fits ↦
            rw fits (ap (λ k. drop k (h ++ e ∷ [])) (ground (arith, length-rest, length-all)))
      ])
  where
    rest : List WatchEvent
    rest = drop (length h - r) (h ++ e ∷ [])

    length-all : length (h ++ e ∷ []) ≡ length h + 1
    length-all = length-append h (e ∷ [])

    length-rest : length (drop (length h - r) (h ++ e ∷ [])) ≡ length h + 1 - (length h - r)
    length-rest = omega (arith, length-drop (length h - r) (h ++ e ∷ []), length-all)

-- Appending an event gives it the next number, puts it at the end of the history, and drops at most
-- the oldest event.
pub append-Refines :
    (j : Journal) (history : List WatchEvent) (event_time : Text) (e : WatchEvent)
    → Refines j history
    → length history + 1 < u64_mod
    → Refines (append j event_time e) (history ++ (reserve j event_time e).1 ∷ [])
unfolding append
append-Refines j history event_time e v room = record {
  numbered = Numbered-append 0 history _ v.numbered (unfold reserve in ground (arith, v.counter));
  counter = omega (arith, length-append history ((reserve j event_time e).1 ∷ []), v.counter);
  kept = rw v.kept (keep_last j.retention history (reserve j event_time e).1 v.positive);
  positive = v.positive;
}
