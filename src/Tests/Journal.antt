-- ===== src/Tests/Journal.antt =====
-- A journal that keeps two events, after three.
use net_drive.Prelude.{ℕ, ◌≡◌, refl, true, List, [], ◌∷◌, ◌++◌, arith}
use net_drive.Prelude.Map
use net_drive.Prelude.Text.{Text, codes}
use net_drive.Protocol.{WatchEvent, EventType}
use net_drive.Journal.{
  Journal, Watch, new_journal_broker, append, reserve, poll_events, poll_loop, watch_matches,
  path_matches_watch,
}
use net_drive.Journal.Numbering.{Refines, append-Refines}
use net_drive.Journal.Poll.{poll_events-Refines, spec_poll}

abbrev write_to : Text → WatchEvent
write_to path = record {
  event_seq = 0;
  event_time = [];
  watch_id = 0;
  event_type = EventType.content_changed;
  node_id = 2;
  parent_node_id = 1;
  old_parent_node_id = 0;
  name = [];
  old_name = [];
  path = path;
  old_path = [];
}

abbrev pub numbered : ℕ → Text → Text → WatchEvent
numbered n name path = record (write_to path) { event_seq = n; name = name }

abbrev pub history : List WatchEvent
history =
    numbered 1 (codes "a") (codes "src/a")
    ∷ numbered 2 (codes "b") (codes "lib/b")
    ∷ numbered 3 (codes "c") (codes "src/c")
    ∷ []

abbrev pub kept : Journal
kept = record {
  retention = 2;
  next_seq = 3;
  next_watch_id = 5000;
  watches = Map.empty;
  events = numbered 2 (codes "b") (codes "lib/b") ∷ numbered 3 (codes "c") (codes "src/c") ∷ [];
}

pub kept-Refines : Refines kept history
kept-Refines = record {
  numbered = omega arith;
  counter = refl;
  kept = refl;
  positive = omega arith;
}

abbrev pub src_watch : Watch
src_watch = record {
  id = 5001;
  node_id = 7;
  rel_path = codes "src";
  recursive = true;
  acked_seq = 1;
}

three_appends :
    append
      (append
        (append (new_journal_broker 2) [] (write_to (codes "src/a")))
        []
        (write_to (codes "lib/b")))
      []
      (write_to (codes "src/c"))
    ≡ kept
unfolding append new_journal_broker
three_appends = refl

append-Refines_example :
    Refines
      (append kept [] (write_to (codes "src/d")))
      (history ++ numbered 4 (codes "d") (codes "src/d") ∷ [])
unfolding reserve
append-Refines_example =
    append-Refines kept history [] (write_to (codes "src/d")) kept-Refines (omega arith)

poll_test : (poll_events kept src_watch 1 128).events ≡ numbered 3 (codes "c") (codes "src/c") ∷ []
unfolding poll_events poll_loop watch_matches path_matches_watch
poll_test = refl

poll_events-Refines_example : poll_events kept src_watch 1 128 ≡ spec_poll history 2 src_watch 1 128
poll_events-Refines_example =
    poll_events-Refines kept history src_watch 1 128 kept-Refines (omega arith) (omega arith)
      (omega arith)
