-- ===== src/Journal/Poll.antt =====
-- Poll of internal/server/journal.go, next to a poll of the list of all events.
use net_drive.Prelude.{
  ℕ, zero, suc, ◌+◌, ◌-◌, ◌^◌, ◌≤◌, ◌<◌, ◌≡◌, refl, sym, ap, ◌∙◌, subst, Bool, ◌&&◌, List, [], ◌∷◌,
  ◌++◌, arith, length, length-append, drop, take, select, length-drop, ltb, Bool-cases, inl, inr,
  if◌then◌else◌,
}
use mathlib.Core.List.{append-nil, append_assoc}
use net_drive.Prelude.Words.{u64_mod}
use net_drive.Protocol.{WatchEvent, PollEventsResp}
use net_drive.Journal.{Journal, Watch, latest_seq, watch_matches, poll_loop, poll_events}
use net_drive.Journal.Numbering.{Numbered, Refines}

-- An event that a poll after number `after` is to return to a watch.
abbrev pub visible : Watch → ℕ → WatchEvent → Bool
visible w after e = ltb after e.event_seq && watch_matches w e

-- The loop returns the visible events in order, up to the limit; there is room for m more.
pub poll_loop_lem :
    (w : Watch) (after max_events m : ℕ) (out events : List WatchEvent)
    → length out + suc m ≡ max_events
    → max_events < 2 ^ 32
    → poll_loop w after max_events out events
      ≡ out ++ take (suc m) (select (visible w after) events)
unfolding poll_loop
poll_loop_lem w after max_events m out [] h fits = sym (append-nil out)
poll_loop_lem w after max_events zero out (e ∷ events) h fits =
    ground
      (arith, poll_loop_lem w after max_events zero out events h fits, length-append out (e ∷ []))
poll_loop_lem w after max_events (suc m) out (e ∷ events) h fits = ground (
  arith,
  poll_loop_lem w after max_events (suc m) out events h fits,
  poll_loop_lem w after max_events m (out ++ e ∷ []) events
      (omega (arith, length-append out (e ∷ []))) fits,
  length-append out (e ∷ []),
  append_assoc out (e ∷ []) (take (suc m) (select (visible w after) events)),
)

Numbered-drop :
    (k n : ℕ) (events : List WatchEvent)
    → Numbered n events
    → k ≤ length events
    → Numbered (n + k) (drop k events)
Numbered-drop zero n events h le = subst (λ m. Numbered m events) (omega arith) h
Numbered-drop (suc k) n [] h le = absurd (omega arith)
Numbered-drop (suc k) n (e ∷ events) h le =
    subst (λ m. Numbered m (drop k events)) (omega arith)
      (Numbered-drop k (suc n) events h.1 (omega arith))

latest_seq-Numbered :
    (n : ℕ) (events : List WatchEvent)
    → Numbered n events
    → 0 < length events
    → latest_seq events ≡ n + length events
unfolding latest_seq
latest_seq-Numbered n [] h pos = absurd (omega arith)
latest_seq-Numbered n (e ∷ []) h pos = omega arith
latest_seq-Numbered n (e ∷ f ∷ events) h pos =
    omega (arith, latest_seq-Numbered (suc n) (f ∷ events) h.1 (omega arith))

-- What lies at or below `after` is not visible.
pub select-drop :
    (w : Watch) (after k n : ℕ) (events : List WatchEvent)
    → Numbered n events
    → n + k ≤ after
    → select (visible w after) (drop k events) ≡ select (visible w after) events
select-drop w after zero n events h le = refl
select-drop w after (suc k) n [] h le = refl
select-drop w after (suc k) n (e ∷ events) h le =
    select-drop w after k (suc n) events h.1 (omega arith) ∙ ground arith

-- The answer of Poll after number `after`, on the list of all events.
abbrev pub spec_poll : List WatchEvent → ℕ → Watch → ℕ → ℕ → PollEventsResp
spec_poll history retention w after max_events =
    let missed = ltb after (length history - retention) in
    record {
      events = if missed then [] else take max_events (select (visible w after) history);
      latest_seq = length history;
      overflow = missed;
      needs_resync = missed;
      acked_seq = w.acked_seq;
    }

eq-nil_of_length : (events : List WatchEvent) → length events ≡ 0 → events ≡ []
eq-nil_of_length [] e = refl
eq-nil_of_length (x ∷ events) e = absurd (omega arith)

module _ (j : Journal) (history : List WatchEvent) (v : Refines j history) where
  abbrev dropped : ℕ
  dropped = length history - j.retention

  kept_numbered : (events : List WatchEvent) → j.events ≡ events → Numbered dropped events
  kept_numbered events e = subst (Numbered dropped) (sym v.kept ∙ e) (
      subst (λ n. Numbered n (drop dropped history)) (omega arith)
        (Numbered-drop dropped 0 history v.numbered (omega arith)))

  latest_seq-kept :
      (events : List WatchEvent)
      → j.events ≡ events
      → 0 < length events
      → latest_seq events ≡ length history
  latest_seq-kept events e pos = omega (
    arith,
    latest_seq-Numbered dropped events (kept_numbered events e) pos,
    ap length v.kept,
    ap length e,
    length-drop dropped history,
  )

  select-kept :
      (w : Watch) (after : ℕ) (events : List WatchEvent)
      → j.events ≡ events
      → dropped ≤ after
      → select (visible w after) events ≡ select (visible w after) history
  select-kept w after events e le =
      ap (select (visible w after)) (sym e ∙ v.kept)
      ∙ select-drop w after dropped 0 history v.numbered (omega arith)

  poll_events_on :
      (w : Watch) (after m : ℕ) (events : List WatchEvent)
      → after + 1 < u64_mod
      → suc m < 2 ^ 32
      → j.events ≡ events
      → poll_events j w after (suc m) ≡ spec_poll history j.retention w after (suc m)
  unfolding poll_events latest_seq
  poll_events_on w after m [] room fits e = ground (
    arith,
    eq-nil_of_length history
        (omega (arith, ap length v.kept, ap length e, length-drop dropped history, v.positive)),
  )
  poll_events_on w after m (oldest ∷ rest) room fits e = elim (Bool-cases (ltb after dropped)) [
    | inl missed ↦ ground (
      arith,
      (kept_numbered (oldest ∷ rest) e).0,
      latest_seq-kept (oldest ∷ rest) e (omega arith),
    )
    | inr held ↦ ground (
      arith,
      (kept_numbered (oldest ∷ rest) e).0,
      latest_seq-kept (oldest ∷ rest) e (omega arith),
      poll_loop_lem w after (suc m) m [] (oldest ∷ rest) (omega arith) fits,
      select-kept w after (oldest ∷ rest) e (ground arith),
    )
  ]

-- Poll after a number below 2^64 - 1, for at least one and fewer than 2^32 events, reports an
-- overflow exactly when an event with a number above `after` has been dropped, and otherwise
-- returns the first `max_events` events of the whole history that have a number above `after` and
-- match the watch, in order.
pub poll_events-Refines :
    (j : Journal) (history : List WatchEvent) (w : Watch) (after max_events : ℕ)
    → Refines j history
    → after + 1 < u64_mod
    → 0 < max_events
    → max_events < 2 ^ 32
    → poll_events j w after max_events ≡ spec_poll history j.retention w after max_events
poll_events-Refines j history w after zero v room pos fits = absurd (omega arith)
poll_events-Refines j history w after (suc m) v room pos fits =
    poll_events_on j history v w after m j.events room fits refl
