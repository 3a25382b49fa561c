-- ===== src/Backend/FileCalls.antt =====
-- Sequences of the calls on one open file of metadata_backend.go.
use net_drive.Prelude.{List, [], ◌∷◌, ℕ, ◌≡◌, refl, Bool, false, ◌==◌, nat_eq, text_eq}
use net_drive.Prelude.Map
use net_drive.Prelude.Map.{Map, get-insert, get-delete}
use net_drive.Prelude.Text.{Text}
use net_drive.Backend.Defs.{FileHandle, Server, Os}
use net_drive.Backend.Handles.{
  Offset, read_file, write_file, flush_handle, truncate_handle, set_delete_on_close, close_handle,
}
use net_drive.Backend.Isolation.{
  HoldsOthers, Keeps-read_file, Keeps-write_file, Keeps-flush_handle, Keeps-truncate_handle,
  Keeps-set_delete_on_close, Keeps-close_handle,
}

-- The calls that name one open file.
pub data FileCall : Type 0 where
  reads : Offset → ℕ → FileCall
  writes : Offset → Text → FileCall
  truncates : ℕ → FileCall
  marks : Bool → FileCall
  flushes closes : FileCall

module _ {W : Type 0} (os : Os W) where
  -- The state after a call, whatever it returns.
  unfoldable pub run_call : FileCall → ℕ → Server W → Server W
  run_call (reads offset size) id s = (read_file os id offset size s).1
  run_call (writes offset bytes) id s = (write_file os id offset bytes s).1
  run_call (truncates size) id s = (truncate_handle os id size s).1
  run_call (marks enabled) id s = (set_delete_on_close os id enabled s).1
  run_call flushes id s = (flush_handle os id s).1
  run_call closes id s = (close_handle os id s).1

  unfoldable pub run_calls : List FileCall → ℕ → Server W → Server W
  unfolding run_call
  run_calls [] id s = s
  run_calls (c ∷ calls) id s = run_calls calls id (run_call c id s)

  run_call-HoldsOthers :
      (m : Map ℕ FileHandle) (c : FileCall) (id : ℕ) (s : Server W)
      → HoldsOthers m id s
      → HoldsOthers m id (run_call c id s)
  unfolding run_call
  run_call-HoldsOthers m (reads offset size) id s = (Keeps-read_file os m id offset size).at s
  run_call-HoldsOthers m (writes offset bytes) id s = (Keeps-write_file os m id offset bytes).at s
  run_call-HoldsOthers m (truncates size) id s = (Keeps-truncate_handle os m id size).at s
  run_call-HoldsOthers m (marks enabled) id s = (Keeps-set_delete_on_close os m id enabled).at s
  run_call-HoldsOthers m flushes id s = (Keeps-flush_handle os m id).at s
  run_call-HoldsOthers m closes id s = (Keeps-close_handle os m id).at s

  run_calls-HoldsOthers :
      (m : Map ℕ FileHandle) (calls : List FileCall) (id : ℕ) (s : Server W)
      → HoldsOthers m id s
      → HoldsOthers m id (run_calls calls id s)
  unfolding run_calls
  run_calls-HoldsOthers m [] id s h = h
  run_calls-HoldsOthers m (c ∷ calls) id s h =
      run_calls-HoldsOthers m calls id (run_call c id s) (run_call-HoldsOthers m c id s h)

  -- Any sequence of reads, writes, flushes, truncations, marks for deletion and closes of one
  -- handle, whether they succeed or fail, leaves every other handle of the table as it was.
  pub run_calls-other :
      (calls : List FileCall) (s : Server W) (id j : ℕ)
      → (id == j) ≡ false
      → Map.get (run_calls calls id s).backend.handles j ≡ Map.get s.backend.handles j
  run_calls-other calls s id j ne =
      (run_calls-HoldsOthers s.backend.handles calls id s
          (record { at_other = λ i e. refl })).at_other
        j ne
