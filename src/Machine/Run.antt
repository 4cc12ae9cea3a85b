-- ===== src/Machine/Run.antt =====
-- `internet_check_timed` of util/internet_check.c, the events of a capture, and the run of the
-- program from the set-up on.
use minieap.Prelude.{◌+◌, Bool, List, [], ◌∷◌, none, ◌==◌, ltb, if◌then◌else◌}
use minieap.Frame.{EthEapFrame}
use minieap.Machine.World.{preparing, success, code, Env, M, ok, ◌>>◌, pure}
use minieap.Machine.Timers.{internet_check_reschedule}
use minieap.Machine.Switch.{switch_to_state}
use minieap.Machine.Handler.{
  eap_state_machine_recv_handler, state_watchdog, restart_auth,
  eap_state_machine_restart_from_offline,
}

-- What `internet_check_probe` returns.
pub data IcOutcome : Type 0 where
  ic_ok ic_fail ic_skip : IcOutcome

module _ {P : Type 0} (env : Env P) where
  -- The timer's callback behind the probe.
  unfoldable pub internet_check_probed : IcOutcome → M P (Unit {0})
  internet_check_probed ic_skip w = ok tt (internet_check_reschedule env.cfg w)
  internet_check_probed ic_ok w =
      ok tt (internet_check_reschedule env.cfg (record w { check_fail_count = 0 }))
  internet_check_probed ic_fail w =
      let failed = record w { check_fail_count = w.check_fail_count + 1 } in
      if ltb failed.check_fail_count env.cfg.internet_check_max_fail
      then ok tt (internet_check_reschedule env.cfg failed)
      else if env.cfg.restart_on_logoff
      then eap_state_machine_restart_from_offline env failed
      else ok tt failed

  -- The probe is made where the machine is in SUCCESS, and the state is the same behind it.
  unfoldable pub internet_check_timed : IcOutcome → M P (Unit {0})
  unfolding internet_check_probed
  internet_check_timed outcome w =
      let rung = record w { check_alarm_id = none } in
      if env.cfg.internet_check
      then (if code rung.state == code success
          then internet_check_probed outcome rung
          else ok tt rung)
      else ok tt rung

-- What happens while the interface captures.
pub data Event : Type 0 where
  received : EthEapFrame → Event
  watchdog_rings restart_rings : Event
  check_rings : (probe : IcOutcome) → Event

module _ {P : Type 0} (env : Env P) where
  unfoldable pub handle : Event → M P (Unit {0})
  unfolding eap_state_machine_recv_handler state_watchdog restart_auth internet_check_timed
  handle (received frame) = eap_state_machine_recv_handler env frame
  handle watchdog_rings = state_watchdog env
  handle restart_rings = restart_auth env
  handle (check_rings probe) = internet_check_timed env probe

  unfoldable pub handle_all : List Event → M P (Unit {0})
  unfolding handle
  handle_all [] = pure tt
  handle_all (event ∷ events) = do handle event; handle_all events

  -- `main` behind the set-up: the state is set to EAP_STATE_PREPARING, and the capture, which
  -- ends with the last of the events, returns `result`.
  unfoldable pub run : List Event → (result : Bool) → M P Bool
  unfolding handle_all switch_to_state
  run events result = switch_to_state env (do handle_all events; pure result) preparing none
