-- ===== src/Tests/Client.antt =====
-- A client that reads one of two events, and then recovers.
use net_drive.Prelude.{◌≡◌, refl, true, false, some, [], ◌∷◌, arith, nat_eq}
use net_drive.Prelude.Map
use net_drive.Prelude.Text.{codes}
use net_drive.Journal.{Watch, poll_events, poll_loop, watch_matches, path_matches_watch}
use net_drive.Client.Tracking.{RuntimeState, TrackedWatch}
use net_drive.Client.Wire.{new_state}
use net_drive.Client.Recovering.{watch_spec}
use net_drive.Client.Seen.{take_poll, take_poll-poll_events}
use net_drive.Tests.Journal.{history, kept, kept-Refines, src_watch, numbered}

abbrev everything : Watch
everything = record src_watch { rel_path = [] }

abbrev tracked : TrackedWatch
tracked = record {
  watch_id = 5001;
  node_id = 1;
  recursive = true;
  last_acked_seq = 1;
  last_seen_seq = 1;
}

abbrev client : RuntimeState
client = record new_state {
  client_instance_id = codes "c1";
  tracked_watches = Map.insert Map.empty 5001 tracked;
}

tracked_stored : Map.get client.tracked_watches 5001 ≡ some tracked
unfolding Map.get Map.insert new_state
tracked_stored = refl

-- The answer holds the first of the two events only.
first_poll_test :
    (poll_events kept everything 1 1).events ≡ numbered 2 (codes "b") (codes "lib/b") ∷ []
unfolding poll_events poll_loop watch_matches path_matches_watch
first_poll_test = refl

take_poll-poll_events_example :
    (tw : TrackedWatch) × (Map.get
        (take_poll client 5001 (poll_events kept everything 1 1)).tracked_watches
        5001
      ≡ some tw)
    × ((watch_spec tw).after_seq ≡ 3)
    × ((poll_events kept everything (watch_spec tw).after_seq 128).events ≡ [])
    × ((poll_events kept everything (watch_spec tw).after_seq 128).overflow ≡ false)
take_poll-poll_events_example =
    take_poll-poll_events client kept history everything tracked 5001 1 1 127 kept-Refines
      tracked_stored (omega arith) (omega arith) (omega arith) (omega arith) (omega arith)
