-- ===== src/Machine/Switching.antt =====
-- The transitions of the machine and the handlers of its alarms neither fault nor break its
-- invariant.
use minieap.Prelude.{
  ◌+◌, ◌≡◌, refl, Bool, true, false, Bool-cases, inl, inr, Option, none, some, if◌then◌else◌, ◌==◌,
}
use minieap.Frame.{EthEapFrame}
use minieap.Machine.World.{
  EapState, unknown, preparing, waiting_for_client_start, start_sent, waiting_for_client_identity,
  identity_sent, waiting_for_client_challenge, challenge_sent, success, failure, code, World, Env,
  M, modify, pure, exit, need, ◌>>◌,
}
use minieap.Machine.Timers.{
  disable_state_watchdog, reset_state_watchdog, internet_check_stop, internet_check_start,
  eap_state_machine_reset,
}
use minieap.Machine.Switch.{
  enter, switch_by, trans_to_start_sent, trans_to_identity_sent, trans_to_challenge_sent,
  trans_to_success, trans_to_failure, transition, switch_to_state, next_round,
  state_mach_process_success, state_mach_process_failure,
}
use minieap.Machine.Handler.{switch, state_watchdog, restart_auth}
use minieap.Machine.Safe.{Safe, returns, ends, bind, mono, IsEnv, Ready, CanRepeat, IsWorld}
use minieap.Machine.Responses.{identity_response-Safe, challenge_response-Safe, eapol_start-Safe}

-- What the entry of a state leaves as it was.
pub record Entered {P : Type 0} (w w' : World P) : Type 0 where
  pub state : w'.state ≡ w.state
  pub last_recv_frame : w'.last_recv_frame ≡ w.last_recv_frame
  pub auth_round : w'.auth_round ≡ w.auth_round
  pub fail_count : w'.fail_count ≡ w.fail_count
  pub ready : Ready w'

-- What a transition to a state leaves.
pub record Left {P : Type 0} (state : EapState) (w : World P) : Type 0 where
  pub ready : Ready w
  pub can_repeat : CanRepeat state w.last_recv_frame

module _ {P : Type 0} (env : Env P) (e : IsEnv env) where
  pub enter-Safe :
      (state : EapState) (w : World P) → Ready w → Safe (λ _ w'. Entered w w') (enter env state w)
  unfolding enter reset_state_watchdog
  enter-Safe state w v = elim (Bool-cases (code w.state == code state)) [
    | inl same ↦ rw same (elim (Bool-cases (w.state_last_count + 1 == env.cfg.max_retries)) [
      | inl last ↦ rw last ends
      | inr more ↦ rw more (
          returns (record {
            state = refl;
            last_recv_frame = refl;
            auth_round = refl;
            fail_count = refl;
            ready = v;
          }))
    ])
    | inr other ↦ rw other (
        returns (record {
          state = refl;
          last_recv_frame = refl;
          auth_round = refl;
          fail_count = refl;
          ready = v;
        }))
  ]

  pub switch_by_rule :
      {Q : World P → Type 0} (R : World P → Type 0) (trans : M P Bool) (state : EapState)
      (w : World P)
      → Ready w
      → ((w1 : World P) → Entered w w1 → Safe (λ _ w'. R w') (trans w1))
      → ((w' : World P) → R w' → Q (record w' { state = state }))
      → Safe (λ _ w'. Q w') (switch_by env trans state w)
  unfolding switch_by
  switch_by_rule {Q = Q} R trans state w v safe put =
      bind (enter-Safe state w v) λ _ w1 k. bind (safe w1 k) λ done w2 left. finish done w2 left
    where
      finish :
          (done : Bool) (w2 : World P)
          → R w2
          → Safe
              (λ _ w'. Q w')
              ((if done then modify (λ w. record w { state = state }) >> pure true else exit) w2)
      finish true w2 left = returns (put w2 left)
      finish false w2 left = ends

  switch_by-Safe :
      (trans : M P Bool) (state : EapState) (w : World P)
      → Ready w
      → ((w1 : World P) → Entered w w1 → Safe (λ _ w'. Left state w') (trans w1))
      → Safe (λ _ w'. IsWorld w') (switch_by env trans state w)
  switch_by-Safe trans state w v safe =
      switch_by_rule (Left state) trans state w v safe
        λ w' left. record { ready = left.ready; can_repeat = left.can_repeat }

  start_sent-Safe :
      (w : World P) → Ready w → Safe (λ _ w'. Left start_sent w') (trans_to_start_sent env w)
  unfolding trans_to_start_sent
  start_sent-Safe w v =
      mono (eapol_start-Safe env e w v) λ _ w' k. record { ready = k.ready; can_repeat = tt }

  pub switch_start-Safe :
      (w : World P)
      → Ready w
      → Safe (λ _ w'. IsWorld w') (switch_by env (trans_to_start_sent env) start_sent w)
  switch_start-Safe w v =
      switch_by-Safe (trans_to_start_sent env) start_sent w v λ w1 k. start_sent-Safe w1 k.ready

  pub reset-Ready : (w : World P) → Ready w → Ready (eap_state_machine_reset w)
  unfolding eap_state_machine_reset internet_check_stop disable_state_watchdog
  reset-Ready w v = record {
    builder = v.builder;
    built = v.built;
    header = v.header;
    local = v.local;
    server = refl;
  }

  check_start-Ready : (w : World P) → Ready w → Ready (internet_check_start env.cfg w)
  unfolding internet_check_start internet_check_stop
  check_start-Ready w v = elim (Bool-cases env.cfg.internet_check) [
    | inl on ↦ rw on v
    | inr off ↦ rw off v
  ]

  success-Safe : (w : World P) → Ready w → Safe (λ _ w'. Left success w') (trans_to_success env w)
  unfolding trans_to_success state_mach_process_success disable_state_watchdog
  success-Safe w v = elim (Bool-cases (w.auth_round == env.cfg.auth_round)) [
    | inl last ↦ rw last (
        returns (record {
          ready = check_start-Ready _ (reset-Ready (disable_state_watchdog w) v);
          can_repeat = tt;
        }))
    | inr more ↦ rw more (
        bind (switch_start-Safe (next_round env (disable_state_watchdog w)) v)
          λ _ w' i. returns (record { ready = i.ready; can_repeat = tt }))
  ]

  failure-Safe : (w : World P) → Ready w → Safe (λ _ w'. Left failure w') (trans_to_failure env w)
  unfolding trans_to_failure state_mach_process_failure disable_state_watchdog internet_check_stop
  failure-Safe w v = elim (Bool-cases (code w.state == code success)) [
    | inl online ↦ rw online (elim (Bool-cases env.cfg.restart_on_logoff) [
      | inl on ↦ rw on (returns (record { ready = v; can_repeat = tt }))
      | inr off ↦ rw off ends
    ])
    | inr trying ↦ rw trying (elim (Bool-cases (w.fail_count + 1 == env.cfg.max_failures)) [
      | inl last ↦ rw last ends
      | inr more ↦ rw more (returns (record { ready = v; can_repeat = tt }))
    ])
  ]

  pub transition-Safe :
      (state : EapState) (frame : Option EthEapFrame) (w : World P)
      → Ready w
      → CanRepeat state frame
      → (CanRepeat state frame → CanRepeat state w.last_recv_frame)
      → Safe (λ _ w'. Left state w') (transition env (need none) state frame w)
  unfolding transition trans_to_identity_sent trans_to_challenge_sent
  transition-Safe start_sent frame w v c keep = start_sent-Safe w v
  transition-Safe success frame w v c keep = success-Safe w v
  transition-Safe failure frame w v c keep = failure-Safe w v
  transition-Safe identity_sent (some frame) w v c keep =
      mono (identity_response-Safe env e frame w v c)
        λ _ w' k. record { ready = k.ready; can_repeat = rw (k.last_recv_frame) (keep c) }
  transition-Safe challenge_sent (some frame) w v c keep =
      mono (challenge_response-Safe env e frame w v c)
        λ _ w' k. record { ready = k.ready; can_repeat = rw (k.last_recv_frame) (keep c) }
  transition-Safe identity_sent none w v c keep = elim c [ ]
  transition-Safe challenge_sent none w v c keep = elim c [ ]
  transition-Safe unknown frame w v c keep = elim c [ ]
  transition-Safe preparing frame w v c keep = elim c [ ]
  transition-Safe waiting_for_client_start frame w v c keep = elim c [ ]
  transition-Safe waiting_for_client_identity frame w v c keep = elim c [ ]
  transition-Safe waiting_for_client_challenge frame w v c keep = elim c [ ]

  pub switch-Safe :
      (state : EapState) (frame : Option EthEapFrame) (w : World P)
      → Ready w
      → CanRepeat state frame
      → (CanRepeat state frame → CanRepeat state w.last_recv_frame)
      → Safe (λ _ w'. IsWorld w') (switch env state frame w)
  unfolding switch_to_state
  switch-Safe state frame w v c keep =
      switch_by-Safe (transition env (need none) state frame) state w v
        λ w1 k. transition-Safe state frame w1 k.ready c (λ x. rw (k.last_recv_frame) (keep x))

  pub restart_auth-Safe : (w : World P) → Ready w → Safe (λ _ w'. IsWorld w') (restart_auth env w)
  unfolding restart_auth
  restart_auth-Safe w v =
      bind (switch-Safe start_sent none (eap_state_machine_reset w) (reset-Ready w v) tt (λ x. tt))
        λ _ w' i. returns i

  pub state_watchdog-Safe :
      (w : World P) → IsWorld w → Safe (λ _ w'. IsWorld w') (state_watchdog env w)
  unfolding state_watchdog reset_state_watchdog
  state_watchdog-Safe w i =
      bind (switch-Safe w.state w.last_recv_frame w i.ready i.can_repeat (λ x. x))
        λ _ w' i'. returns (record { ready = i'.ready; can_repeat = i'.can_repeat })
