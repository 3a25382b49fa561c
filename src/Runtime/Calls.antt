-- ===== src/Runtime/Calls.antt =====
-- The calls of internal/winclientruntime/runtime.go, and their sequences.
use net_drive.Prelude.{
  ℕ, suc, ◌-◌, Bool, true, false, Option, none, some, List, [], ◌∷◌, ◌++◌, eqb, if◌then◌else◌, ◌||◌,
}
use net_drive.Prelude.Text.{Text, codes}
use net_drive.Winclient.{Config, ConfigError, mount, normalized, validate}
use net_drive.Runtime.Defs.{
  Phase, idle, connecting, mounted, stopping, failed, SessionInfo, Runtime, config_info, no_config,
}

-- the bytes of a dash
abbrev dash : Text
dash = 226 ∷ 128 ∷ 148 ∷ []

-- NewWithClock
unfoldable pub new_runtime : ℕ → Runtime
unfolding config_info
new_runtime now = record {
  cancel = false;
  building = 0;
  running = 0;
  state = record {
    phase = idle;
    status_text = codes "Idle " ++ (dash ++ codes " no active mount session");
    last_error = [];
    active_profile = [];
    info = config_info no_config;
    started_at = now;
    updated_at = now;
  };
}

unfoldable pub is_busy : Phase → Bool
is_busy idle = false
is_busy failed = false
is_busy connecting = true
is_busy mounted = true
is_busy stopping = true

unfoldable pub transition_to_error : Runtime → Text → Config → Text → ℕ → Runtime
unfolding config_info
transition_to_error r profile config error now =
    let old = r.state in
    record r {
      state = record {
        phase = failed;
        status_text = codes "Mount runtime failed for " ++ config.mount_point;
        last_error = error;
        active_profile = profile;
        info = config_info config;
        started_at = if eqb old.started_at 0 then now else old.started_at;
        updated_at = now;
      };
    }

-- The part of Start under its first lock, for a configuration that is valid.
unfoldable pub connect : Runtime → Text → Config → ℕ → Runtime
unfolding is_busy config_info
connect r profile config now =
    let old = r.state in
    if r.cancel || is_busy old.phase then r else record r {
      building = suc r.building;
      state = record {
        phase = connecting;
        status_text =
            codes "Connecting to "
            ++ (config.addr ++ (codes " and preparing mount at " ++ config.mount_point));
        last_error = [];
        active_profile = profile;
        info = config_info config;
        started_at = now;
        updated_at = now;
      };
    }

unfoldable pub begin_start : Runtime → Text → Config → Option Text → ℕ → Runtime
unfolding transition_to_error connect
begin_start r profile config none now = connect r profile config now
begin_start r profile config (some error) now = transition_to_error r profile config error now

-- The rest of Start, after Build has returned.
unfoldable pub build_failed : Runtime → Text → Config → Text → ℕ → Runtime
unfolding transition_to_error
build_failed r profile config error now =
    transition_to_error (record r { building = r.building - 1 }) profile config error now

unfoldable pub build_done : Runtime → Text → SessionInfo → ℕ → Runtime
build_done r profile info now =
    let old = r.state in
    record {
      cancel = true;
      building = r.building - 1;
      running = suc r.running;
      state = record {
        phase = mounted;
        status_text = codes "Mounted " ++ (info.server_addr ++ (codes " at " ++ info.mount_point));
        last_error = [];
        active_profile = profile;
        info = info;
        started_at = old.started_at;
        updated_at = now;
      };
    }

unfoldable pub stop : Runtime → ℕ → Runtime
stop r now =
    let old = r.state in
    let info = old.info in
    if r.cancel
    then record r {
      state = record old {
        phase = stopping;
        status_text = codes "Stopping mount at " ++ info.mount_point;
        updated_at = now;
      };
    }
    else r

-- waitForSession after Run; `none` is an end without error or by cancellation.
unfoldable pub session_ended : Runtime → Option Text → ℕ → Runtime
session_ended r none now =
    let old = r.state in
    let info = old.info in
    record r {
      cancel = false;
      running = r.running - 1;
      state = record old {
        phase = idle;
        status_text =
            codes "Idle "
            ++ (dash ++ (codes " last mount " ++ (info.mount_point ++ codes " stopped")));
        last_error = [];
        updated_at = now;
      };
    }
session_ended r (some error) now =
    let old = r.state in
    let info = old.info in
    record r {
      cancel = false;
      running = r.running - 1;
      state = record old {
        phase = failed;
        status_text = codes "Mount runtime failed at " ++ info.mount_point;
        last_error = error;
        updated_at = now;
      };
    }

-- What can happen next, with the profile, the configuration and the time.
pub data Event : Type 0 where
  -- with the error of Validate
  starts : Text → Config → Option Text → ℕ → Event
  fails_to_build : Text → Config → Text → ℕ → Event
  builds : Text → SessionInfo → ℕ → Event
  stops : ℕ → Event
  ends : Option Text → ℕ → Event

-- A call of Start, with the text of an error of Validate.
unfoldable pub start_event : Text → (ConfigError → Text) → Text → Config → ℕ → Event
unfolding normalized validate
start_event default_mount_point message profile config now =
    let config' = normalized default_mount_point config in
    let checked = validate default_mount_point config' mount in
    starts profile config' (elim checked [ none ↦ none | some e ↦ some (message e) ]) now

-- A build or a session ends only if there is one.
unfoldable pub step : Runtime → Event → Runtime
unfolding begin_start build_failed build_done stop session_ended
step r (starts profile config error now) = begin_start r profile config error now
step r (fails_to_build profile config error now) =
    if eqb r.building 0 then r else build_failed r profile config error now
step r (builds profile info now) = if eqb r.building 0 then r else build_done r profile info now
step r (stops now) = stop r now
step r (ends error now) = if eqb r.running 0 then r else session_ended r error now

unfoldable pub run_events : Runtime → List Event → Runtime
unfolding step
run_events r [] = r
run_events r (e ∷ events) = run_events (step r e) events
