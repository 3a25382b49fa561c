-- ===== src/Journal.antt =====
-- internal/server/journal.go: the journal of change events and the watches on it.
pub mod Numbering
pub mod Poll
pub mod Subscription
pub mod Delivery
use net_drive.Prelude.{
  ℕ, ◌+◌, ◌-◌, ◌%◌, ◌^◌, Bool, true, false, Option, none, some, List, [], ◌∷◌, ◌++◌, ltb, leb, eqb,
  ◌||◌, ◌&&◌, not, if◌then◌else◌, ◌==◌, text_eq, text_beq, nat_eq, length, drop, Result, ok, err,
  ◌>>=◌,
}
use net_drive.Prelude.Map
use net_drive.Prelude.Map.{Map}
use net_drive.Prelude.Text.{Text, codes, slash, is_empty, has_prefix, trim_prefix, trim}
use net_drive.Prelude.Text.Paths.{dir, base}
use net_drive.Prelude.Words.{next_u64}
use net_drive.Protocol.{WatchEvent, PollEventsResp}
use net_drive.Backend.Defs.{BackendError}

pub record Watch : Type 0 where
  pub id : ℕ
  pub node_id : ℕ
  pub rel_path : Text
  pub recursive : Bool
  pub acked_seq : ℕ

pub record Journal : Type 0 where
  pub retention : ℕ
  pub next_seq : ℕ
  pub next_watch_id : ℕ
  pub events : List WatchEvent
  pub watches : Map ℕ Watch

-- A retention that is not positive counts as 0 here.
unfoldable pub new_journal_broker : ℕ → Journal
new_journal_broker retention = record {
  retention = if eqb retention 0 then 256 else retention;
  next_seq = 0;
  next_watch_id = 5000;
  events = [];
  watches = Map.empty;
}

-- latestSeqFromSlice; `latestSeq` is this of the journal's events.
unfoldable pub latest_seq : List WatchEvent → ℕ
latest_seq [] = 0
latest_seq (e ∷ []) = e.event_seq
latest_seq (e ∷ f ∷ events) = latest_seq (f ∷ events)

-- `watch not found`, or the error of the backend.
pub data JournalError : Type 0 where
  watch_not_found : JournalError
  backend : BackendError → JournalError

unfoldable pub clean_event_path : Text → Text
unfolding trim_prefix trim
clean_event_path path =
    let path' = trim_prefix path (codes "./") in if path' == codes "." then [] else trim path'

unfoldable pub path_matches_watch : Text → Bool → Text → Bool
unfolding clean_event_path dir has_prefix text_beq
path_matches_watch root recursive [] = false
path_matches_watch root recursive (c ∷ s) =
    let root' = clean_event_path root in
    let path = clean_event_path (c ∷ s) in
    let parent = clean_event_path (dir path) in
    if is_empty root'
    then (if recursive then true else parent == codes "." || is_empty parent)
    else if recursive
    then path == root' || has_prefix path (root' ++ (slash ∷ []))
    else if path == root'
    then true
    else parent == root'

unfoldable pub watch_matches : Watch → WatchEvent → Bool
watch_matches w e =
    path_matches_watch w.rel_path w.recursive e.path
    || path_matches_watch w.rel_path w.recursive e.old_path

-- Append in two halves: the number is taken before the lock, the event is put under it.
unfoldable pub reserve : Journal → Text → WatchEvent → Journal × WatchEvent
unfolding base
reserve j event_time event =
    let seq = next_u64 j.next_seq in
    (
      record j { next_seq = seq },
      record event {
        event_seq = seq;
        event_time = event_time;
        name =
            if is_empty event.name && not (is_empty event.path)
            then base event.path
            else event.name;
        old_name =
            if is_empty event.old_name && not (is_empty event.old_path)
            then base event.old_path
            else event.old_name;
      },
    )

unfoldable pub commit : Journal → WatchEvent → Journal
commit j event =
    let events = j.events ++ (event ∷ []) in
    record j {
      events =
          if ltb j.retention (length events)
          then drop (length events - j.retention) events
          else events;
    }

unfoldable pub append : Journal → Text → WatchEvent → Journal
unfolding reserve commit
append j event_time event = let (j', stamped) = reserve j event_time event in commit j' stamped

unfoldable pub watch_by_id : Journal → ℕ → Result JournalError Watch
watch_by_id j watch_id = elim (Map.get j.watches watch_id) [
  | none ↦ err watch_not_found
  | some w ↦ ok w
]

-- The loop of Poll: `out` is resp.Events so far.
unfoldable pub poll_loop : Watch → ℕ → ℕ → List WatchEvent → List WatchEvent → List WatchEvent
poll_loop w after max_events out [] = out
poll_loop w after max_events out (e ∷ events) =
    let out' = out ++ (e ∷ []) in
    let skip = poll_loop w after max_events out events in
    let more = poll_loop w after max_events out' events in
    if leb e.event_seq after
    then skip
    else if not (watch_matches w e)
    then skip
    else if leb max_events (length out' % 2 ^ 32)
    then out'
    else more

unfoldable pub poll_events : Journal → Watch → ℕ → ℕ → PollEventsResp
poll_events j w after max_events =
    let resp : PollEventsResp = record {
      events = [];
      latest_seq = latest_seq j.events;
      overflow = false;
      needs_resync = false;
      acked_seq = w.acked_seq;
    } in
    elim j.events [
      | [] ↦ resp
      | oldest ∷ rest ↦
          if ltb (next_u64 after) oldest.event_seq
          then record resp { overflow = true; needs_resync = true }
          else record resp { events = poll_loop w after max_events [] (oldest ∷ rest) }
    ]

unfoldable pub poll : Journal → ℕ → ℕ → ℕ → Result JournalError PollEventsResp
unfolding watch_by_id poll_events
poll j watch_id after max_events = do
  w ← watch_by_id j watch_id
  ok (poll_events j w after (if eqb max_events 0 then 128 else max_events))

unfoldable pub ack : Journal → ℕ → ℕ → Result JournalError (Journal × ℕ)
ack j watch_id event_seq = elim (Map.get j.watches watch_id) [
  | none ↦ err watch_not_found
  | some w ↦
      let acked = if ltb w.acked_seq event_seq then event_seq else w.acked_seq in
      ok (
        record j { watches = Map.insert j.watches watch_id (record w { acked_seq = acked }) },
        acked,
      )
]
