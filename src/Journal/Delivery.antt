-- ===== src/Journal/Delivery.antt =====
-- Poll of internal/server/journal.go right after an Append.
use net_drive.Prelude.{
  ℕ, zero, suc, ◌+◌, ◌-◌, ◌^◌, ◌≤◌, ◌<◌, ◌≡◌, refl, ap, ◌∙◌, Bool, true, false, List, [], ◌∷◌, ◌++◌,
  arith, length, length-append, take, select, select-append, ltb, if◌then◌else◌,
}
use net_drive.Prelude.Words.{u64_mod}
use net_drive.Prelude.Text.{Text}
use net_drive.Protocol.{WatchEvent, PollEventsResp}
use net_drive.Journal.{Journal, Watch, watch_matches, poll_events, append, reserve}
use net_drive.Journal.Numbering.{Numbered, Refines, append-Refines}
use net_drive.Journal.Poll.{visible, poll_events-Refines}

-- Events up to number `after` are not visible.
select-old :
    (w : Watch) (after n : ℕ) (events : List WatchEvent)
    → Numbered n events
    → n + length events ≤ after
    → select (visible w after) events ≡ []
select-old w after n [] h le = refl
select-old w after n (e ∷ events) h le =
    ground (arith, h.0, select-old w after (suc n) events h.1 (omega arith))

select-new :
    (w : Watch) (history : List WatchEvent) (e : WatchEvent)
    → Numbered 0 history
    → e.event_seq ≡ length history + 1
    → select (visible w (length history)) (history ++ e ∷ [])
      ≡ (if watch_matches w e then e ∷ [] else [])
select-new w history e h q =
    select-append (visible w (length history)) history (e ∷ [])
    ∙ rw (select-old w (length history) 0 history h (omega arith)) (ground (arith, q))

take-one :
    (m : ℕ) (b : Bool) (e : WatchEvent)
    → 0 < m
    → take m (if b then e ∷ [] else []) ≡ (if b then e ∷ [] else [])
take-one zero b e pos = absurd (omega arith)
take-one (suc zero) true e pos = refl
take-one (suc (suc m)) true e pos = refl
take-one (suc m) false e pos = refl

-- A client that has seen all events so far and polls after an Append gets exactly the new event,
-- or nothing if the watch does not match it, and no overflow.
pub append-poll_events :
    (j : Journal) (history : List WatchEvent) (event_time : Text) (e : WatchEvent) (w : Watch)
    (max_events : ℕ)
    → Refines j history
    → length history + 2 < u64_mod
    → 0 < max_events
    → max_events < 2 ^ 32
    → let stamped = (reserve j event_time e).1 in
      let resp = poll_events (append j event_time e) w (length history) max_events in
      (resp.events ≡ (if watch_matches w stamped then stamped ∷ [] else []))
      × (resp.overflow ≡ false)
append-poll_events j history event_time e w max_events v room pos fits =
    let stamped = (reserve j event_time e).1 in
    let after = append-Refines j history event_time e v (omega arith) in
    let polled =
      poll_events-Refines (append j event_time e) (history ++ stamped ∷ []) w (length history)
        max_events after (omega arith) pos fits in
    let present : ltb (length history)
          (length (history ++ stamped ∷ []) - (append j event_time e).retention)
        ≡ false =
      ground (arith, after.positive, length-append history (stamped ∷ [])) in
    let found : take max_events (select (visible w (length history)) (history ++ stamped ∷ []))
        ≡ (if watch_matches w stamped then stamped ∷ [] else []) =
      rw (select-new w history stamped v.numbered (unfold reserve in omega (arith, v.counter)))
        (take-one max_events (watch_matches w stamped) stamped pos) in
    (
      ap (λ (r : PollEventsResp). r.events) polled ∙ rw present found,
      ap (λ (r : PollEventsResp). r.overflow) polled ∙ present,
    )
