-- ===== src/Dispatch/Delivery.antt =====
-- CreateFile of internal/server/server.go, and a Poll after it.
use net_drive.Prelude.{
  ℕ, ◌+◌, ◌^◌, ◌<◌, ◌≡◌, ap, ◌∙◌, Bool, List, [], ◌∷◌, ◌++◌, Result, ok, err, arith, length, ◌&&◌,
  not, subst, sym, if◌then◌else◌, err-ne-ok,
}
use net_drive.Prelude.Words.{u64_mod, next_u64}
use net_drive.Prelude.Text.{Text, is_empty}
use net_drive.Prelude.Text.Paths.{base}
use net_drive.Protocol.{WatchEvent, EventType, NodeInfo}
use net_drive.Backend.Files
use net_drive.Journal.{Journal, Watch, watch_matches, poll_events, append, reserve}
use net_drive.Journal.Numbering.{Refines, append-Refines}
use net_drive.Journal.Delivery.{append-poll_events}
use net_drive.Dispatch.Defs.{
  Site, ◌>>=◌, ◌>>◌, return, refuse, try_backend, publish, event_at, Services, Response,
  create_resp,
}
use net_drive.Dispatch.Errors.{call_backend, or_backend_error}
use net_drive.Dispatch.Bulk.{serve_create_file, announce_created, path_or_empty}
use net_drive.Backend.Recovery.{rel_path_by_node_id}
use net_drive.Protocol.{ErrorCode}
use net_drive.Backend.Defs.{BackendError, Server}

-- The event of a created file, with the path that the backend gave.
abbrev created_event : NodeInfo → Text → WatchEvent
created_event entry path =
    event_at EventType.created entry.node_id entry.parent_node_id entry.name path

-- The last element of the path stands in for a name that is missing.
abbrev pub shown_name : NodeInfo → Text → Text
shown_name entry path = if is_empty entry.name && not (is_empty path) then base path else entry.name

entry_of : Result ErrorCode Response → NodeInfo → NodeInfo
entry_of (ok (create_resp entry id)) other = entry
entry_of _ other = other

-- The event as it stands in the history after `append`.
abbrev pub stamped_event : List WatchEvent → NodeInfo → Text → Text → WatchEvent
stamped_event history entry path time = record (created_event entry path) {
  event_seq = length history + 1;
  event_time = time;
  name = shown_name entry path;
}

reserve-created_event :
    (j : Journal) (history : List WatchEvent) (entry : NodeInfo) (path time : Text)
    → Refines j history
    → length history + 2 < u64_mod
    → (reserve j time (created_event entry path)).1 ≡ stamped_event history entry path time
unfolding reserve event_at
reserve-created_event j history entry path time h room =
    let seq : next_u64 j.next_seq ≡ length history + 1 = omega (arith, h.counter) in
    λ i. record (stamped_event history entry path time) { event_seq = seq i }

module _ {W : Type 0} (v : Services W) where
  -- The path of a node, as the backend gives it; empty where it gives none.
  abbrev pub path_of_node : ℕ → Server W → Text
  path_of_node node_id b = path_or_empty (rel_path_by_node_id v.os node_id b).0

  journal_after :
      (r : Result BackendError (NodeInfo × ℕ)) (s : Site W) (entry : NodeInfo) (id : ℕ)
      → ((or_backend_error r >>= announce_created v) s).0 ≡ ok (create_resp entry id)
      → (time : Text) × (((or_backend_error r >>= announce_created v) s).1.journal
          ≡ append s.journal time (created_event entry (path_of_node entry.node_id s.server)))
  unfolding announce_created or_backend_error try_backend ◌>>=◌ ◌>>◌ return refuse publish entry_of
  journal_after (err e) s entry id answered = absurd (err-ne-ok answered)
  journal_after (ok (entry', id')) s entry id answered =
      let same : entry' ≡ entry = ap (λ r. entry_of r entry) answered in
      let time =
        λ (x : NodeInfo). v.now_text (rel_path_by_node_id v.os x.node_id s.server).1.world in
      (
        time entry',
        ap (λ x. append s.journal (time entry') (created_event x (path_of_node x.node_id s.server)))
            same,
      )

  -- A CreateFile that succeeds, while the counter of events is not near its end, adds one event to
  -- the history, and nothing else: that the returned node was created, with its parent, its name
  -- and the path that the backend then gives for it. A watch that has seen all events before and
  -- polls after the call gets exactly this event if it matches, and nothing if it does not.
  pub serve_create_file-poll_events :
      (parent : ℕ) (name : Text) (overwrite : Bool) (s : Site W) (history : List WatchEvent)
      (entry : NodeInfo) (id : ℕ) (w : Watch) (max_events : ℕ)
      → Refines s.journal history
      → length history + 2 < u64_mod
      → 0 < max_events
      → max_events < 2 ^ 32
      → (serve_create_file v parent name overwrite s).0 ≡ ok (create_resp entry id)
      → let journal = (serve_create_file v parent name overwrite s).1.journal in
        let server = (Files.create_file v.os parent name overwrite s.server).1 in
        (time : Text) × (let e =
            stamped_event history entry (path_of_node entry.node_id server) time in
          Refines journal (history ++ e ∷ [])
          × ((poll_events journal w (length history) max_events).events
              ≡ (if watch_matches w e then e ∷ [] else [])))
  unfolding serve_create_file call_backend try_backend ◌>>=◌
  serve_create_file-poll_events parent name overwrite s history entry id w max_events h room pos
        fits answered =
      let (r, server) = Files.create_file v.os parent name overwrite s.server in
      let (time, made) = journal_after r (record s { server = server }) entry id answered in
      let path = path_of_node entry.node_id server in
      let e0 = created_event entry path in
      let j' = append s.journal time e0 in
      let stamped = reserve-created_event s.journal history entry path time h room in
      (
        time,
        (
          subst (λ j. Refines j (history ++ stamped_event history entry path time ∷ [])) (sym made)
              (subst (λ e. Refines j' (history ++ e ∷ [])) stamped
                (append-Refines s.journal history time e0 h (omega arith))),
          ap (λ j. (poll_events j w (length history) max_events).events) made
              ∙ (append-poll_events s.journal history time e0 w max_events h room pos fits).0
              ∙ ap (λ e. if watch_matches w e then e ∷ [] else []) stamped,
        ),
      )
