-- ===== src/Tests/Winclient.antt =====
-- Configurations that Validate accepts and refuses, and a Start with the one accepted.
use net_drive.Prelude.{◌≡◌, refl, none, some, [], ◌∷◌}
use net_drive.Prelude.Text.{codes}
use net_drive.Winclient.{
  Config, mount, bad_mount_point, normalized, validate, validate_mount_point, normalize_mount_point,
}
use net_drive.Winclient.Checks.{check_choice, validate_lem}
use net_drive.Runtime.Defs.{Runtime, no_config, connecting}
use net_drive.Runtime.Calls.{
  run_events, step, begin_start, connect, is_busy, new_runtime, start_event,
}

accepted_test : validate (codes "M:") no_config mount ≡ none
unfolding validate
accepted_test = refl

relative_test :
    validate (codes "M:") (record no_config { mount_point = codes "mnt" }) mount
    ≡ some bad_mount_point
unfolding validate
relative_test = refl

drive_test : normalize_mount_point (codes " z:/ ") ≡ codes "Z:"
unfolding normalize_mount_point
drive_test = refl

validate_lem_example :
    validate (codes "M:") no_config mount
    ≡ elim (validate_mount_point (normalized (codes "M:") no_config).mount_point) [
      | some e ↦ some e
      | none ↦ check_choice mount (normalized (codes "M:") no_config).host_backend
    ]
validate_lem_example = validate_lem (codes "M:") no_config mount

abbrev started : Runtime
started =
    run_events (new_runtime 0) (start_event (codes "M:") (λ e. []) (codes "work") no_config 1 ∷ [])

start_test : started.state.phase ≡ connecting
unfolding run_events step begin_start connect is_busy new_runtime start_event
start_test = refl

-- a drive, a host backend and a path as a user may write them
abbrev as_written : Config
as_written = record no_config {
  mount_point = codes " z:/ ";
  host_backend = codes " Auto";
  path = codes "docs";
  length = 16;
}

as_written_test : (normalized (codes "M:") as_written).mount_point ≡ codes "Z:"
unfolding normalized
as_written_test = refl
