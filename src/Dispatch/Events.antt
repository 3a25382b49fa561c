-- ===== src/Dispatch/Events.antt =====
-- dispatchEvents of internal/server/server.go, of requests that were decoded.
use net_drive.Prelude.{ℕ, Bool, List, [], map, Result, ok, err, nat_eq}
use net_drive.Prelude.Text.{Text}
use net_drive.Protocol.{WatchEvent, SnapshotEntry}
use net_drive.Backend.Defs.{BackendError, other}
use net_drive.Backend.Recovery
use net_drive.Journal
use net_drive.Journal.Subscription
use net_drive.Journal.Subscription.{Backend}
use net_drive.Dispatch.Defs.{
  Handler, ◌>>=◌, ◌>>◌, return, try_backend, get_journal, put_watches, Services, Response,
  subscribe_resp, poll_events_resp, ack_events_resp, resync_resp,
}
use net_drive.Dispatch.Errors.{or_watch_error}

module _ {W : Type 0} (v : Services W) where
  -- The backend as the journal sees it: the path of a node now, and the answer of the walk that
  -- the call makes.
  unfoldable pub journal_backend :
      (ℕ → Result BackendError Text) → Result BackendError (List SnapshotEntry) → Backend
  journal_backend paths walked = record {
    rel_path_by_node_id = paths;
    snapshot_subtree = λ node_id recursive. walked;
    message = v.message;
  }

  unfoldable pub paths_now : Handler W (ℕ → Result BackendError Text)
  paths_now s = (ok (λ node_id. (Recovery.rel_path_by_node_id v.os node_id s.server).0), s)

  unfoldable pub serve_subscribe : ℕ → Bool → Handler W Response
  unfolding journal_backend paths_now
  serve_subscribe node_id recursive = do
    j ← get_journal
    paths ← paths_now
    made ←
        or_watch_error
          (Subscription.subscribe j (journal_backend paths (err (other []))) node_id recursive)
    put_watches made.0
    return (subscribe_resp made.1 made.2)

  -- resp.Events[i].WatchID = req.WatchID
  unfoldable pub set_watch_id : ℕ → WatchEvent → WatchEvent
  set_watch_id watch_id e = record e { watch_id = watch_id }

  unfoldable pub serve_poll : ℕ → ℕ → ℕ → Handler W Response
  unfolding set_watch_id
  serve_poll watch_id after_seq max_events = do
    j ← get_journal
    resp ← or_watch_error (Journal.poll j watch_id after_seq max_events)
    return (poll_events_resp (record resp { events = map (set_watch_id watch_id) resp.events }))

  unfoldable pub serve_ack : ℕ → ℕ → Handler W Response
  serve_ack watch_id event_seq = do
    j ← get_journal
    acked ← or_watch_error (Journal.ack j watch_id event_seq)
    put_watches acked.0
    return (ack_events_resp watch_id acked.1)

  -- How deep the walk may go.
  unfoldable pub depth_now : Handler W ℕ
  depth_now s = (ok (v.depth s.server.world), s)

  -- The watch is found before the backend is asked.
  unfoldable pub serve_resync : ℕ → Handler W Response
  unfolding journal_backend paths_now depth_now
  serve_resync watch_id = do
    j ← get_journal
    w ← or_watch_error (Journal.watch_by_id j watch_id)
    depth ← depth_now
    walked ← try_backend (Recovery.snapshot_subtree v.os depth w.node_id w.recursive)
    paths ← paths_now
    resp ← or_watch_error (Subscription.resync j (journal_backend paths walked) watch_id)
    return (resync_resp resp)
