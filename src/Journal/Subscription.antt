-- ===== src/Journal/Subscription.antt =====
-- internal/server/journal.go: the calls that make watches and that read the backend.
use net_drive.Prelude.{
  ℕ, Bool, none, some, List, [], ◌∷◌, ltb, eqb, if◌then◌else◌, nat_eq, Result, ok, err, ◌>>=◌,
}
use net_drive.Prelude.Map
use net_drive.Prelude.Text.{Text}
use net_drive.Prelude.Words.{next_u64}
use net_drive.Protocol.{ResubscribeSpec, ResubscribeResult, ResyncResp, SnapshotEntry}
use net_drive.Backend.Defs.{BackendError}
use net_drive.Journal.{Journal, JournalError, backend, watch_by_id, latest_seq}

-- What the journal asks of the backend: RelPathByNodeID and SnapshotSubtree.
pub record Backend : Type 0 where
  pub rel_path_by_node_id : ℕ → Result BackendError Text
  pub snapshot_subtree : ℕ → Bool → Result BackendError (List SnapshotEntry)
  -- err.Error()
  pub message : BackendError → Text

abbrev from_backend : {A : Type 0} → Result BackendError A → Result JournalError A
from_backend (ok a) = ok a
from_backend (err e) = err (backend e)

unfoldable pub subscribe : Journal → Backend → ℕ → Bool → Result JournalError (Journal × ℕ × ℕ)
subscribe j b node_id recursive = do
  rel_path ← from_backend (b.rel_path_by_node_id node_id)
  let watch_id = next_u64 j.next_watch_id
  let start_seq = latest_seq j.events
  ok (
    record j {
      next_watch_id = watch_id;
      watches = Map.insert j.watches watch_id (record {
        id = watch_id;
        node_id = node_id;
        rel_path = rel_path;
        recursive = recursive;
        acked_seq = start_seq;
      });
    },
    watch_id,
    start_seq,
  )

unfoldable pub resync : Journal → Backend → ℕ → Result JournalError ResyncResp
unfolding watch_by_id
resync j b watch_id = do
  w ← watch_by_id j watch_id
  entries ← from_backend (b.snapshot_subtree w.node_id w.recursive)
  ok (record { watch_id = watch_id; snapshot_seq = latest_seq j.events; entries = entries })

-- The node and the start of a new watch, with what the previous watch knows.
unfoldable pub resume_point : Journal → ResubscribeSpec → ℕ × ℕ
resume_point j spec = elim (Map.get j.watches spec.previous_watch_id) [
  | none ↦ (spec.node_id, spec.after_seq)
  | some old ↦ (
    if eqb spec.node_id 0 then old.node_id else spec.node_id,
    if ltb spec.after_seq old.acked_seq then old.acked_seq else spec.after_seq,
  )
]

unfoldable pub resubscribe_one : Journal → Backend → ResubscribeSpec → Journal × ResubscribeResult
unfolding resume_point
resubscribe_one j b spec =
    let (node_id, start_seq) = resume_point j spec in
    elim (b.rel_path_by_node_id node_id) [
      | err e ↦ (
        j,
        record {
          previous_watch_id = spec.previous_watch_id;
          watch_id = 0;
          start_seq = 0;
          acked_seq = 0;
          error = b.message e;
        },
      )
      | ok rel_path ↦
          let watch_id = next_u64 j.next_watch_id in
          (
            record j {
              next_watch_id = watch_id;
              watches = Map.insert j.watches watch_id (record {
                id = watch_id;
                node_id = node_id;
                rel_path = rel_path;
                recursive = spec.recursive;
                acked_seq = start_seq;
              });
            },
            record {
              previous_watch_id = spec.previous_watch_id;
              watch_id = watch_id;
              start_seq = start_seq;
              acked_seq = start_seq;
              error = [];
            },
          )
    ]

unfoldable pub resubscribe :
    Journal → Backend → List ResubscribeSpec → Journal × List ResubscribeResult
unfolding resubscribe_one
resubscribe j b [] = (j, [])
resubscribe j b (spec ∷ specs) =
    let (j', result) = resubscribe_one j b spec in
    let (j'', results) = resubscribe j' b specs in (j'', result ∷ results)
