-- ===== src/Tests/Winfsp.antt =====
-- Callbacks on a mount with one open file, of a server that fails to close it.
use net_drive.Prelude.{ℕ, ◌≡◌, refl, true, false, Result, ok, err, some, List, [], ◌∷◌, nat_eq, ◌⊎◌}
use net_drive.Prelude.Map
use net_drive.Prelude.Steps.{◌>>=◌, ◌>>◌, get_state, modify, on_option}
use net_drive.Prelude.Text.{Text, codes}
use net_drive.Backend.Profile.{contains}
use net_drive.Mount.Defs.{MountError, new_mount}
use net_drive.Mount.Volume
use net_drive.Mount.Volume.{add_file, ask, wrap_error}
use net_drive.Winfsp.Status.{NtStatus}
use net_drive.Winfsp.Callbacks.{Callbacks, close, get_file_info_by_handle}
use net_drive.Winfsp.Denied.{
  Change, wants_delete_on_close, run_change, remembered, each, run_change-err,
}
use net_drive.Tests.Mount.{mounted, remote, handle}

abbrev callbacks : Callbacks ℕ
callbacks = record {
  mount = mounted;
  handles =
      Map.insert Map.empty 1
        (record { info = handle.info; delete_on_close = false; cleaned = false; flushed = false });
}

abbrev message : MountError Text → Text
message e = codes "connection lost"

abbrev wish : Change
wish = wants_delete_on_close 1 true

run_change-err_example :
    (((status : NtStatus) × ((run_change remote message wish callbacks).0 ≡ err status))
      ⊎ ((id : ℕ) × (wish ≡ wants_delete_on_close id false)))
    × ((j : ℕ)
        → Map.get (run_change remote message wish callbacks).1.handles j
          ≡ each (remembered wish j) (Map.get callbacks.handles j))
run_change-err_example = run_change-err remote message wish callbacks

-- The mount has forgotten the handle, and the callbacks have not.
failed_close_test :
    ((close remote message 1 callbacks).0 ≡ err NtStatus.internal_error)
    × ((get_file_info_by_handle 1 (close remote message 1 callbacks).1).0 ≡ ok handle.info)
    × ((close remote message 1 (close remote message 1 callbacks).1).0
        ≡ err NtStatus.invalid_handle)
unfolding close Volume.close ◌>>=◌ get_state on_option Map.get add_file Map.insert new_mount ◌>>◌
    modify contains get_file_info_by_handle net_drive.Prelude.Steps.fail
failed_close_test = (refl, refl, refl)
