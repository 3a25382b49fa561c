-- ===== src/Dispatch/Recovery.antt =====
-- dispatchRecovery of internal/server/server.go, of requests that were decoded.
use net_drive.Prelude.{ℕ, List, [], ◌∷◌, Result, ok, err, none, false}
use net_drive.Protocol.{RecoverHandleSpec, RecoverHandleResult, RevalidateEntry, ResubscribeSpec}
use net_drive.Backend.Defs.{BackendError, other}
use net_drive.Backend.Recovery
use net_drive.Journal.Subscription
use net_drive.Dispatch.Defs.{
  Handler, ◌>>=◌, ◌>>◌, return, try_backend, get_journal, put_watches, Services, Response,
  recover_handles_resp, revalidate_resp, resubscribe_resp,
}
use net_drive.Dispatch.Events.{journal_backend, paths_now}

module _ {W : Type 0} (v : Services W) where
  -- A handle that was not recovered has number and size 0.
  unfoldable pub recover_result :
      RecoverHandleSpec → Result BackendError (ℕ × ℕ) → RecoverHandleResult
  recover_result spec (ok (handle_id, size)) = record {
    previous_handle_id = spec.previous_handle_id;
    handle_id = handle_id;
    node_id = spec.node_id;
    size = size;
    delete_on_close = spec.delete_on_close;
    error = [];
  }
  recover_result spec (err e) = record {
    previous_handle_id = spec.previous_handle_id;
    handle_id = 0;
    node_id = spec.node_id;
    size = 0;
    delete_on_close = spec.delete_on_close;
    error = v.message e;
  }

  unfoldable pub recover_all : List RecoverHandleSpec → Handler W (List RecoverHandleResult)
  unfolding recover_result
  recover_all [] = return []
  recover_all (spec ∷ specs) = do
    opened ←
        try_backend
          (Recovery.recover_file_handle v.os spec.node_id spec.writable spec.delete_on_close)
    results ← recover_all specs
    return (recover_result spec opened ∷ results)

  unfoldable pub serve_recover_handles : List RecoverHandleSpec → Handler W Response
  unfolding recover_all
  serve_recover_handles specs = do
    results ← recover_all specs
    return (recover_handles_resp results)

  unfoldable pub revalidate_result : ℕ → Result BackendError RevalidateEntry → RevalidateEntry
  revalidate_result node_id (ok entry) = entry
  revalidate_result node_id (err e) = record {
    node_id = node_id;
    found = false;
    entry = none;
    error = v.message e;
  }

  unfoldable pub revalidate_all : List ℕ → Handler W (List RevalidateEntry)
  unfolding revalidate_result
  revalidate_all [] = return []
  revalidate_all (node_id ∷ node_ids) = do
    answer ← try_backend (Recovery.revalidate_node v.os node_id)
    entries ← revalidate_all node_ids
    return (revalidate_result node_id answer ∷ entries)

  unfoldable pub serve_revalidate : List ℕ → Handler W Response
  unfolding revalidate_all
  serve_revalidate node_ids = do entries ← revalidate_all node_ids; return (revalidate_resp entries)

  unfoldable pub serve_resubscribe : List ResubscribeSpec → Handler W Response
  unfolding journal_backend paths_now
  serve_resubscribe specs = do
    j ← get_journal
    paths ← paths_now v
    let made = Subscription.resubscribe j (journal_backend v paths (err (other []))) specs
    put_watches made.0
    return (resubscribe_resp made.1)
