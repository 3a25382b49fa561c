-- ===== src/Client/Calls/Watches.antt =====
-- internal/clientcore/watch.go and recovery.go: the calls on watches, and those of a client that
-- has reconnected.
use net_drive.Prelude.{ℕ, Bool, none, some, Option, List, [], ◌∷◌, if◌then◌else◌}
use net_drive.Protocol.{
  NodeInfo, SnapshotEntry, PollEventsResp, ResyncResp, RecoverHandleSpec, RecoverHandleResult,
  RevalidateEntry, ResubscribeSpec, ResubscribeResult,
}
use net_drive.Protocol.Channel
use net_drive.Protocol.Opcode
use net_drive.Dispatch.Defs.{Request}
use net_drive.Client.Tracking.{track_node_ids, update_watch, mark_watch_seen, mark_watch_acked}
use net_drive.Client.Recovering.{apply_recovered_handles, apply_resubscribed_watches}
use net_drive.Client.Seen.{take_poll}
use net_drive.Client.Calls.Defs.{Services, Call, ◌>>=◌, ◌>>◌, return, remember, request_decode}

unfoldable pub snapshot_nodes : List SnapshotEntry → List ℕ
snapshot_nodes [] = []
snapshot_nodes (e ∷ entries) = e.entry.node_id ∷ e.entry.parent_node_id ∷ snapshot_nodes entries

-- entry.Entry.ParentNodeID, which is 0 where there is no entry
unfoldable pub parent_of : Option NodeInfo → ℕ
parent_of none = 0
parent_of (some info) = info.parent_node_id

unfoldable pub found_nodes : List RevalidateEntry → List ℕ
unfolding parent_of
found_nodes [] = []
found_nodes (e ∷ entries) =
    let rest = found_nodes entries in if e.found then e.node_id ∷ parent_of e.entry ∷ rest else rest

module _ {N : Type 0} (v : Services N) where
  -- (watch, first number)
  unfoldable pub subscribe : ℕ → Bool → Call N (ℕ × ℕ)
  subscribe node_id recursive = do
    resp ←
        request_decode v Channel.events Opcode.subscribe_req
          (v.encode (Request.subscribe node_id recursive)) v.subscribe_resp
    remember (λ st. update_watch st (record {
      watch_id = resp.0;
      node_id = node_id;
      recursive = recursive;
      last_acked_seq = resp.1;
      last_seen_seq = resp.1;
    }))
    return resp

  unfoldable pub poll_events : ℕ → ℕ → ℕ → Call N PollEventsResp
  poll_events watch_id after_seq max_events = do
    resp ←
        request_decode v Channel.events Opcode.poll_events_req
          (v.encode (Request.poll_events watch_id after_seq max_events)) v.poll_resp
    remember (λ st. take_poll st watch_id resp)
    return resp

  unfoldable pub ack_events : ℕ → ℕ → Call N (ℕ × ℕ)
  ack_events watch_id event_seq = do
    resp ←
        request_decode v Channel.events Opcode.ack_events_req
          (v.encode (Request.ack_events watch_id event_seq)) v.ack_resp
    remember (λ st. mark_watch_acked st watch_id resp.1)
    return resp

  unfoldable pub resync : ℕ → Call N ResyncResp
  unfolding snapshot_nodes
  resync watch_id = do
    resp ←
        request_decode v Channel.events Opcode.resync_req (v.encode (Request.resync watch_id))
          v.resync_resp
    remember (λ st. track_node_ids st (snapshot_nodes resp.entries))
    remember (λ st. mark_watch_seen st watch_id resp.snapshot_seq)
    return resp

  unfoldable pub recover_handles : List RecoverHandleSpec → Call N (List RecoverHandleResult)
  recover_handles specs = do
    results ←
        request_decode v Channel.recovery Opcode.recover_handles_req
          (v.encode (Request.recover_handles specs)) v.recover_resp
    remember (λ st. apply_recovered_handles st results)
    return results

  unfoldable pub revalidate_nodes : List ℕ → Call N (List RevalidateEntry)
  unfolding found_nodes
  revalidate_nodes node_ids = do
    entries ←
        request_decode v Channel.recovery Opcode.revalidate_req
          (v.encode (Request.revalidate node_ids)) v.revalidate_resp
    remember (λ st. track_node_ids st (found_nodes entries))
    return entries

  unfoldable pub resubscribe_watches : List ResubscribeSpec → Call N (List ResubscribeResult)
  resubscribe_watches specs = do
    results ←
        request_decode v Channel.recovery Opcode.resubscribe_req
          (v.encode (Request.resubscribe specs)) v.resubscribe_resp
    remember (λ st. apply_resubscribed_watches st results)
    return results
