-- ===== src/Client/Recovering.antt =====
-- internal/clientcore/state.go: what a client asks to recover, and how it takes the answers.
use net_drive.Prelude.{
  ℕ, Bool, false, none, some, List, [], ◌∷◌, eqb, if◌then◌else◌, nat_eq, max, ◌||◌, not,
}
use net_drive.Prelude.Map
use net_drive.Prelude.Map.{Map, keys, sort_keys, empty, binding}
use net_drive.Prelude.Text.{Text, is_empty}
use net_drive.Protocol.{RecoverHandleSpec, RecoverHandleResult, ResubscribeSpec, ResubscribeResult}
use net_drive.Client.Tracking.{TrackedHandle, TrackedWatch, RuntimeState, track_node}

pub record RecoverySnapshot : Type 0 where
  pub session_id : ℕ
  pub client_instance_id : Text
  pub handles : List RecoverHandleSpec
  pub node_ids : List ℕ
  pub watches : List ResubscribeSpec

unfoldable pub handle_spec : TrackedHandle → RecoverHandleSpec
handle_spec h = record {
  previous_handle_id = h.handle_id;
  node_id = h.node_id;
  writable = h.writable;
  delete_on_close = h.delete_on_close;
}

unfoldable pub watch_spec : TrackedWatch → ResubscribeSpec
watch_spec w = record {
  previous_watch_id = w.watch_id;
  node_id = w.node_id;
  recursive = w.recursive;
  after_seq = max w.last_acked_seq w.last_seen_seq;
}

-- The value at each key, in order.
unfoldable pub values_at {ℓ} : {V : Type ℓ} → Map ℕ V → List ℕ → List V
values_at m [] = []
values_at m (k ∷ ks) =
    let rest = values_at m ks in elim (Map.get m k) [ none ↦ rest | some v ↦ v ∷ rest ]

unfoldable pub specs_of {ℓ κ} : {V : Type ℓ} {S : Type κ} → (V → S) → List V → List S
specs_of f [] = []
specs_of f (v ∷ vs) = f v ∷ specs_of f vs

unfoldable pub recovery_snapshot : RuntimeState → ℕ → RecoverySnapshot
unfolding handle_spec watch_spec
recovery_snapshot c session_id = record {
  session_id = session_id;
  client_instance_id = c.client_instance_id;
  handles = specs_of handle_spec (values_at c.tracked_handles (sort_keys (keys c.tracked_handles)));
  node_ids = sort_keys (keys c.tracked_nodes);
  watches = specs_of watch_spec (values_at c.tracked_watches (sort_keys (keys c.tracked_watches)));
}

-- Go looks in any order; this takes the first of the representation.
unfoldable pub lookup_recovered_writable : ℕ → Map ℕ TrackedHandle → Bool
lookup_recovered_writable node_id empty = false
lookup_recovered_writable node_id (binding k h rest) =
    let found = lookup_recovered_writable node_id rest in
    if eqb h.node_id node_id then h.writable else found

unfoldable pub apply_recovered_handle : RuntimeState → RecoverHandleResult → RuntimeState
unfolding track_node
apply_recovered_handle c result =
    let previous = Map.get c.tracked_handles result.previous_handle_id in
    let handles =
      if eqb result.previous_handle_id 0
      then c.tracked_handles
      else Map.delete c.tracked_handles result.previous_handle_id in
    let dropped : RuntimeState = record c { tracked_handles = handles } in
    if not (is_empty result.error) || eqb result.handle_id 0
    then dropped
    else (let writable : Bool = elim previous [
      | none ↦ lookup_recovered_writable result.node_id handles
      | some h ↦ h.writable
    ] in
        let delete_on_close : Bool = elim previous [
          | none ↦ result.delete_on_close
          | some h ↦ result.delete_on_close || h.delete_on_close
        ] in
        let h : TrackedHandle = record {
          handle_id = result.handle_id;
          node_id = result.node_id;
          writable = writable;
          delete_on_close = delete_on_close;
          last_known_size = result.size;
          last_write_at = 0;
          last_flush_at = 0;
          last_truncate_at = 0;
        } in
        track_node (record c { tracked_handles = Map.insert handles result.handle_id h })
          result.node_id)

unfoldable pub apply_recovered_handles : RuntimeState → List RecoverHandleResult → RuntimeState
unfolding apply_recovered_handle
apply_recovered_handles c [] = c
apply_recovered_handles c (result ∷ results) =
    apply_recovered_handles (apply_recovered_handle c result) results

-- TrackedWatch{}
abbrev pub no_watch : TrackedWatch
no_watch = record {
  watch_id = 0;
  node_id = 0;
  recursive = false;
  last_acked_seq = 0;
  last_seen_seq = 0;
}

unfoldable pub apply_resubscribed_watch : RuntimeState → ResubscribeResult → RuntimeState
unfolding track_node
apply_resubscribed_watch c result =
    let old : TrackedWatch = elim (Map.get c.tracked_watches result.previous_watch_id) [
      | none ↦ no_watch
      | some w ↦ w
    ] in
    let watches = Map.delete c.tracked_watches result.previous_watch_id in
    if not (is_empty result.error) || eqb result.watch_id 0
    then record c { tracked_watches = watches }
    else track_node
        (record c {
          tracked_watches = Map.insert watches result.watch_id (record {
            watch_id = result.watch_id;
            node_id = old.node_id;
            recursive = old.recursive;
            last_acked_seq = max old.last_acked_seq result.acked_seq;
            last_seen_seq = max old.last_seen_seq result.start_seq;
          });
        })
        old.node_id

unfoldable pub apply_resubscribed_watches : RuntimeState → List ResubscribeResult → RuntimeState
unfolding apply_resubscribed_watch
apply_resubscribed_watches c [] = c
apply_resubscribed_watches c (result ∷ results) =
    apply_resubscribed_watches (apply_resubscribed_watch c result) results
