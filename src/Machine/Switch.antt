-- ===== src/Machine/Switch.antt =====
-- `switch_to_state` of eap_state_machine.c, the transition functions and what they process.
use minieap.Prelude.{ℕ, ◌+◌, Bool, true, false, Option, none, ◌==◌, if◌then◌else◌}
use minieap.Prelude.Int.{pos}
use minieap.Frame.{EthEapFrame, eapol_start}
use minieap.Alarm.{schedule_alarm}
use minieap.Plugins.{packet_plugin_set_auth_round}
use minieap.Machine.World.{
  EapState, unknown, preparing, waiting_for_client_start, start_sent, waiting_for_client_identity,
  identity_sent, waiting_for_client_challenge, challenge_sent, success, failure, code, restart_auth,
  World, Env, M, ok, exited, ◌>>=◌, ◌>>◌, pure, modify, exit, need,
}
use minieap.Machine.Timers.{
  disable_state_watchdog, reset_state_watchdog, internet_check_stop, internet_check_start,
  eap_state_machine_reset,
}
use minieap.Machine.Send.{
  state_mach_send_identity_response, state_mach_send_challenge_response,
  state_mach_send_eapol_simple,
}

module _ {P : Type 0} (env : Env P) where
  -- The first part of `switch_to_state`: the count of tries in a state, or a new watchdog.
  unfoldable pub enter : EapState → M P (Unit {0})
  enter state w =
      if code w.state == code state
      then (if w.state_last_count + 1 == env.cfg.max_retries
          then exited (record w { state_last_count = w.state_last_count + 1 })
          else ok tt (record w { state_last_count = w.state_last_count + 1 }))
      else ok tt (reset_state_watchdog env.cfg (record w { state_last_count = 0 }))

  -- The table's loop for an entry with the transition `trans`: a failure ends the program.
  unfoldable pub switch_by : M P Bool → EapState → M P Bool
  unfolding enter
  switch_by trans state = do
    enter state
    done ← trans
    if done then modify (λ w. record w { state = state }) >> pure true else exit

  unfoldable pub trans_to_start_sent : M P Bool
  trans_to_start_sent = state_mach_send_eapol_simple env eapol_start

  unfoldable pub trans_to_identity_sent : Option EthEapFrame → M P Bool
  trans_to_identity_sent frame = state_mach_send_identity_response env frame

  unfoldable pub trans_to_challenge_sent : Option EthEapFrame → M P Bool
  trans_to_challenge_sent frame = state_mach_send_challenge_response env frame

  abbrev pub next_round : World P → World P
  next_round w = record w {
    fail_count = 0;
    auth_round = w.auth_round + 1;
    plugins = packet_plugin_set_auth_round (w.auth_round + 1) env.active_plugins w.plugins;
  }

  -- The result of the switch to EAP_STATE_START_SENT is not looked at.
  unfoldable pub state_mach_process_success : M P Bool
  unfolding switch_by trans_to_start_sent
  state_mach_process_success w =
      if w.auth_round == env.cfg.auth_round
      then ok true (internet_check_start env.cfg (eap_state_machine_reset w))
      else (do modify next_round; switch_by trans_to_start_sent start_sent; pure true) w

  abbrev pub schedule_restart : ℕ → World P → World P
  schedule_restart secs w = record w { sched = (schedule_alarm (pos secs) restart_auth w.sched).0 }

  unfoldable pub state_mach_process_failure : M P Bool
  state_mach_process_failure w =
      if code w.state == code success
      then (if env.cfg.restart_on_logoff then ok true (schedule_restart 1 w) else exited w)
      else (let failed = record w { fail_count = w.fail_count + 1 } in
          if failed.fail_count == env.cfg.max_failures
          then exited failed
          else ok true (schedule_restart env.cfg.wait_after_fail_secs failed))

  unfoldable pub trans_to_success : M P Bool
  unfolding state_mach_process_success
  trans_to_success = do modify disable_state_watchdog; state_mach_process_success

  unfoldable pub trans_to_failure : M P Bool
  unfolding state_mach_process_failure
  trans_to_failure = do
    modify (λ w. internet_check_stop (disable_state_watchdog w))
    state_mach_process_failure

  -- `capture` is `start_capture` of the network interface, which blocks while frames arrive.
  module _ (capture : M P Bool) where
    unfoldable pub trans_to_preparing : M P Bool
    unfolding switch_by trans_to_start_sent
    trans_to_preparing = do
      done ← switch_by trans_to_start_sent start_sent
      if done then capture else pure false

    -- `g_transition_table`. A state whose entry has no function ends in a call through NULL.
    unfoldable pub transition : EapState → Option EthEapFrame → M P Bool
    unfolding trans_to_preparing trans_to_start_sent trans_to_identity_sent trans_to_challenge_sent
        trans_to_success trans_to_failure
    transition preparing frame = trans_to_preparing
    transition start_sent frame = trans_to_start_sent
    transition identity_sent frame = trans_to_identity_sent frame
    transition challenge_sent frame = trans_to_challenge_sent frame
    transition success frame = trans_to_success
    transition failure frame = trans_to_failure
    transition unknown frame = need none
    transition waiting_for_client_start frame = need none
    transition waiting_for_client_identity frame = need none
    transition waiting_for_client_challenge frame = need none

    unfoldable pub switch_to_state : EapState → Option EthEapFrame → M P Bool
    unfolding switch_by transition
    switch_to_state state frame = switch_by (transition state frame) state
