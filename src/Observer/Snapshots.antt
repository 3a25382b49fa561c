-- ===== src/Observer/Snapshots.antt =====
-- internal/server/runtime_snapshot.go: the sizes that a snapshot of a running server reports. The
-- counters of locks and the diagnostics, which it only copies, are left out.
use net_drive.Prelude.{
  ℕ, zero, suc, ◌+◌, ◌*◌, ◌^◌, ◌≤◌, ◌<◌, ◌≡◌, refl, ap, ◌∙◌, sym, Bool, List, [], ◌∷◌, ltb, leb,
  ◌&&◌, not, if◌then◌else◌, arith, length, take, select, text_eq, nat_eq,
}
use net_drive.Prelude.Map.{Map, empty, binding}
use net_drive.Protocol.{WatchEvent}
use net_drive.Backend.Defs.{MetadataBackend}
use net_drive.Backend.Cache.{prune_expired_caches}
use net_drive.Session.{Session, SessionManager, is_active}
use net_drive.Journal.{Journal, Watch, watch_matches, latest_seq, poll_loop}
use net_drive.Journal.Poll.{visible, poll_loop_lem}

-- len(m)
unfoldable pub map_size {ℓ κ} : {K : Type ℓ} {V : Type κ} → Map K V → ℕ
map_size empty = 0
map_size (binding k v rest) = suc (map_size rest)

pub record MetadataRuntimeSnapshot : Type 0 where
  pub nodes : ℕ
  pub node_paths : ℕ
  pub dir_cursors : ℕ
  pub handles : ℕ
  pub attr_cache : ℕ
  pub negative_cache : ℕ
  pub dir_snapshots : ℕ
  pub small_file_cache : ℕ

-- A snapshot of the backend drops what has run out.
unfoldable pub backend_snapshot : MetadataBackend → ℕ → MetadataRuntimeSnapshot × MetadataBackend
unfolding map_size prune_expired_caches
backend_snapshot b now =
    let b' = prune_expired_caches b now in
    (
      record {
        nodes = map_size b'.nodes_by_id;
        node_paths = map_size b'.nodes_by_path;
        dir_cursors = map_size b'.cursors;
        handles = map_size b'.handles;
        attr_cache = map_size b'.attr_cache;
        negative_cache = map_size b'.negative_cache;
        dir_snapshots = map_size b'.dir_snapshots;
        small_file_cache = map_size b'.small_file_cache;
      },
      b',
    )

pub record SessionRuntimeSnapshot : Type 0 where
  pub total : ℕ
  pub active : ℕ
  pub expired : ℕ

-- The loop over the sessions: (active, expired).
unfoldable pub count_sessions : ℕ → Map ℕ Session → ℕ × ℕ
unfolding is_active
count_sessions now empty = (0, 0)
count_sessions now (binding id s rest) =
    let (live, dead) = count_sessions now rest in
    if is_active s.state && not (ltb s.expires_at now) then (suc live, dead) else (live, suc dead)

unfoldable pub session_snapshot : SessionManager → ℕ → SessionRuntimeSnapshot
unfolding map_size count_sessions
session_snapshot m now =
    let (live, dead) = count_sessions now m.sessions in
    record { total = map_size m.sessions; active = live; expired = dead }

count_sessions-sum :
    (now : ℕ) (sessions : Map ℕ Session)
    → map_size sessions ≡ (count_sessions now sessions).0 + (count_sessions now sessions).1
unfolding map_size count_sessions
count_sessions-sum now empty = omega arith
count_sessions-sum now (binding id s rest) = ground (arith, count_sessions-sum now rest)

-- Every session is counted once, as active or as expired.
pub session_snapshot-sum :
    (m : SessionManager) (now : ℕ)
    → (session_snapshot m now).total
      ≡ (session_snapshot m now).active + (session_snapshot m now).expired
unfolding session_snapshot
session_snapshot-sum m now = count_sessions-sum now m.sessions

pub record JournalRuntimeSnapshot : Type 0 where
  pub events : ℕ
  pub watches : ℕ
  pub latest_seq : ℕ
  pub oldest_seq : ℕ
  pub max_watch_backlog : ℕ
  pub total_backlog : ℕ

unfoldable pub oldest_seq : List WatchEvent → ℕ
oldest_seq [] = 0
oldest_seq (e ∷ events) = e.event_seq

-- The loop over the events for one watch.
unfoldable pub backlog : Watch → List WatchEvent → ℕ
backlog w [] = 0
backlog w (e ∷ events) =
    let rest = backlog w events in
    if leb e.event_seq w.acked_seq then rest else if not (watch_matches w e) then rest else suc rest

-- The loop over the watches: (total, maximum).
unfoldable pub backlogs : List WatchEvent → Map ℕ Watch → ℕ × ℕ
unfolding backlog
backlogs events empty = (0, 0)
backlogs events (binding id w rest) =
    let (total, top) = backlogs events rest in
    let n = backlog w events in (total + n, if ltb top n then n else top)

unfoldable pub journal_snapshot : Journal → JournalRuntimeSnapshot
unfolding map_size oldest_seq backlogs latest_seq
journal_snapshot j =
    let (total, top) = backlogs j.events j.watches in
    record {
      events = length j.events;
      watches = map_size j.watches;
      latest_seq = latest_seq j.events;
      oldest_seq = oldest_seq j.events;
      max_watch_backlog = top;
      total_backlog = total;
    }

backlog-select :
    (w : Watch) (events : List WatchEvent)
    → backlog w events ≡ length (select (visible w w.acked_seq) events)
unfolding backlog
backlog-select w [] = refl
backlog-select w (e ∷ events) = ground (arith, backlog-select w events)

take_all {ℓ} : {A : Type ℓ} (n : ℕ) (xs : List A) → length xs ≤ n → take n xs ≡ xs
take_all zero [] h = refl
take_all zero (x ∷ xs) h = absurd (omega arith)
take_all (suc n) [] h = refl
take_all (suc n) (x ∷ xs) h = ap (λ l. x ∷ l) (take_all n xs (omega arith))

length-select :
    (p : WatchEvent → Bool) (events : List WatchEvent) → length (select p events) ≤ length events
length-select p [] = omega arith
length-select p (e ∷ events) = ground (arith, length-select p events)

-- The backlog of a watch is the number of events that a Poll after the number it has acknowledged
-- delivers to it, if its limit is not below the number of events that the journal holds.
pub backlog-poll_loop :
    (w : Watch) (events : List WatchEvent) (m : ℕ)
    → length events ≤ suc m
    → suc m < 2 ^ 32
    → backlog w events ≡ length (poll_loop w w.acked_seq (suc m) [] events)
backlog-poll_loop w events m fits small =
    backlog-select w events
    ∙ sym (
        ap length (
          poll_loop_lem w w.acked_seq (suc m) m [] events (omega arith) small
          ∙ take_all (suc m) _ (omega (arith, length-select (visible w w.acked_seq) events))))

backlog-le : (w : Watch) (events : List WatchEvent) → backlog w events ≤ length events
unfolding backlog
backlog-le w [] = omega arith
backlog-le w (e ∷ events) = ground (arith, backlog-le w events)

backlogs-bounds :
    (events : List WatchEvent) (watches : Map ℕ Watch)
    → ((backlogs events watches).1 ≤ (backlogs events watches).0)
      × ((backlogs events watches).1 ≤ length events)
      × ((backlogs events watches).0 ≤ map_size watches * length events)
unfolding backlogs map_size
backlogs-bounds events empty = (omega arith, omega arith, omega arith)
backlogs-bounds events (binding id w rest) =
    let (below, short, few) = backlogs-bounds events rest in
    let le = backlog-le w events in (ground arith, ground arith, omega arith)

-- The longest backlog is no more than the sum of all of them and than the number of events, and
-- the sum no more than each watch missing each event.
pub journal_snapshot_bounds :
    (j : Journal)
    → ((journal_snapshot j).max_watch_backlog ≤ (journal_snapshot j).total_backlog)
      × ((journal_snapshot j).max_watch_backlog ≤ (journal_snapshot j).events)
      × ((journal_snapshot j).total_backlog
          ≤ (journal_snapshot j).watches * (journal_snapshot j).events)
unfolding journal_snapshot
journal_snapshot_bounds j = backlogs-bounds j.events j.watches
