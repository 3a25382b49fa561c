-- ===== src/Client/Seen.antt =====
-- internal/clientcore/watch.go, PollEvents: what the client has seen, and a poll after a recovery.
use net_drive.Prelude.{
  ℕ, suc, ◌+◌, ◌^◌, ◌≤◌, ◌<◌, ◌≡◌, refl, sym, ap, ◌∙◌, false, some, List, [], ◌∷◌, arith, length,
  drop, select, max, nat_eq,
}
use net_drive.Prelude.Map
use net_drive.Prelude.Map.{get-insert}
use net_drive.Prelude.Words.{u64_mod}
use net_drive.Protocol.{WatchEvent, PollEventsResp}
use net_drive.Journal.{Journal, Watch, poll_events}
use net_drive.Journal.Numbering.{Numbered, Refines}
use net_drive.Journal.Poll.{visible, select-drop, spec_poll, poll_events-Refines}
use net_drive.Client.Tracking.{
  RuntimeState, TrackedWatch, mark_watch_seen, track_node_ids, track_node,
}
use net_drive.Client.Recovering.{watch_spec}

-- The nodes of the events that a poll returned.
unfoldable pub event_nodes : List WatchEvent → List ℕ
event_nodes [] = []
event_nodes (e ∷ events) = e.node_id ∷ e.parent_node_id ∷ e.old_parent_node_id ∷ event_nodes events

-- PollEvents, after the answer has come.
unfoldable pub take_poll : RuntimeState → ℕ → PollEventsResp → RuntimeState
unfolding event_nodes
take_poll c watch_id resp =
    track_node_ids (mark_watch_seen c watch_id resp.latest_seq) (event_nodes resp.events)

track_node-watches :
    (c : RuntimeState) (id : ℕ) → (track_node c id).tracked_watches ≡ c.tracked_watches
unfolding track_node
track_node-watches c id = ground arith

track_node_ids-watches :
    (c : RuntimeState) (ids : List ℕ) → (track_node_ids c ids).tracked_watches ≡ c.tracked_watches
unfolding track_node_ids
track_node_ids-watches c [] = refl
track_node_ids-watches c (id ∷ ids) =
    track_node_ids-watches (track_node c id) ids ∙ track_node-watches c id

drop_all : (events : List WatchEvent) → drop (length events) events ≡ []
drop_all [] = refl
drop_all (e ∷ events) = drop_all events

no_more_visible :
    (w : Watch) (after : ℕ) (history : List WatchEvent)
    → Numbered 0 history
    → length history ≤ after
    → select (visible w after) history ≡ []
no_more_visible w after history h le =
    sym (select-drop w after (length history) 0 history h (omega arith))
    ∙ ap (select (visible w after)) (drop_all history)

spec_poll-end :
    (history : List WatchEvent) (retention : ℕ) (w : Watch) (after max_events : ℕ)
    → Numbered 0 history
    → length history ≤ after
    → ((spec_poll history retention w after (suc max_events)).events ≡ [])
      × ((spec_poll history retention w after (suc max_events)).overflow ≡ false)
spec_poll-end history retention w after max_events h le =
    ground (arith, no_more_visible w after history h le)

mark_watch_seen_lem :
    (c : RuntimeState) (id latest_seq : ℕ) (tw : TrackedWatch)
    → Map.get c.tracked_watches id ≡ some tw
    → Map.get (mark_watch_seen c id latest_seq).tracked_watches id
      ≡ some (record tw { last_seen_seq = max tw.last_seen_seq latest_seq })
unfolding mark_watch_seen
mark_watch_seen_lem c id latest_seq tw e = ground (
  arith,
  get-insert c.tracked_watches id (record tw { last_seen_seq = max tw.last_seen_seq latest_seq })
      id,
)

-- PollEvents counts as seen every event that the journal holds, also those that the answer had no
-- room for: once the answer has come, the resubscription that the client asks for at a recovery
-- starts after the last of them, whatever number was acknowledged, or after the number
-- acknowledged or seen before where that is higher. A poll of the same journal from there returns
-- no event, and reports no overflow, so what the answer left out is not delivered any more.
pub take_poll-poll_events :
    (c : RuntimeState) (j : Journal) (history : List WatchEvent) (w : Watch) (tw : TrackedWatch)
    (watch_id after max_events more : ℕ)
    → Refines j history
    → Map.get c.tracked_watches watch_id ≡ some tw
    → after + 1 < u64_mod
    → 0 < max_events
    → max_events < 2 ^ 32
    → suc more < 2 ^ 32
    → max tw.last_acked_seq (max tw.last_seen_seq (length history)) + 1 < u64_mod
    → (tw' : TrackedWatch) × (Map.get
          (take_poll c watch_id (poll_events j w after max_events)).tracked_watches
          watch_id
        ≡ some tw')
      × ((watch_spec tw').after_seq ≡ max tw.last_acked_seq (max tw.last_seen_seq (length history)))
      × ((poll_events j w (watch_spec tw').after_seq (suc more)).events ≡ [])
      × ((poll_events j w (watch_spec tw').after_seq (suc more)).overflow ≡ false)
unfolding take_poll watch_spec
take_poll-poll_events c j history w tw watch_id after max_events more v e room pos fits fits'
      room' =
    let resp = poll_events j w after max_events in
    let start = max tw.last_acked_seq (max tw.last_seen_seq (length history)) in
    let again = poll_events-Refines j history w start (suc more) v room' (omega arith) fits' in
    let (none_left, held) =
      spec_poll-end history j.retention w start more v.numbered (omega arith) in
    (
      record tw { last_seen_seq = max tw.last_seen_seq (length history) },
      ap (λ watches. Map.get watches watch_id)
            (track_node_ids-watches (mark_watch_seen c watch_id resp.latest_seq)
              (event_nodes resp.events))
          ∙ mark_watch_seen_lem c watch_id resp.latest_seq tw e
          ∙ ap (λ n. some (record tw { last_seen_seq = max tw.last_seen_seq n }))
              (ap (λ r. r.latest_seq)
                (poll_events-Refines j history w after max_events v room pos fits)),
      refl,
      ap (λ r. r.events) again ∙ none_left,
      ap (λ r. r.overflow) again ∙ held,
    )
