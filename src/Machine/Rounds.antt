-- ===== src/Machine/Rounds.antt =====
-- What the counts of rounds and failures of eap_state_machine.c come to.
use minieap.Prelude.{
  ℕ, ◌+◌, ◌≡◌, ◌≢◌, refl, sym, ap, ◌∙◌, ≡→==, ≢→==, true, Bool-cases, inl, inr, Option, none, ◌==◌,
  arith,
}
use minieap.Frame.{EthEapFrame, free_frame}
use minieap.Machine.World.{start_sent, success, failure, code, World, Env, ok, then_do}
use minieap.Machine.Timers.{
  bcast_addr, disable_state_watchdog, reset_state_watchdog, internet_check_stop,
  internet_check_start, eap_state_machine_reset,
}
use minieap.Machine.Switch.{
  enter, switch_by, transition, switch_to_state, trans_to_start_sent, trans_to_success,
  trans_to_failure, state_mach_process_success, state_mach_process_failure, next_round,
}
use minieap.Machine.Handler.{switch, restart_auth}
use minieap.Machine.Safe.{Safe, returns, ends, bind, mono, IsEnv, Ready}
use minieap.Machine.Responses.{eapol_start-Safe}
use minieap.Machine.Switching.{switch_by_rule, Entered, reset-Ready}

-- The program reports success: the counts start anew, the watchdog is forgotten, and the next
-- packet goes to the group address.
pub record Online {P : Type 0} (w : World P) : Type 0 where
  pub state : w.state ≡ success
  pub auth_round : w.auth_round ≡ 1
  pub fail_count : w.fail_count ≡ 0
  pub state_last_count : w.state_last_count ≡ 0
  pub state_alarm_id : w.state_alarm_id ≡ 0
  pub server_mac : w.server_mac ≡ bcast_addr
  pub last_recv_frame : w.last_recv_frame ≡ none

-- The counts that a packet leaves.
record Counted {P : Type 0} (rounds fails : ℕ) (w : World P) : Type 0 where
  auth_round : w.auth_round ≡ rounds
  fail_count : w.fail_count ≡ fails

module _ {P : Type 0} (env : Env P) where
  check_start-Online :
      (w : World P)
      → let w' = internet_check_start env.cfg (eap_state_machine_reset w) in
        Online (record w' { state = success }) × (w'.sent ≡ w.sent)
  unfolding internet_check_start internet_check_stop eap_state_machine_reset disable_state_watchdog
      free_frame
  check_start-Online w = elim (Bool-cases env.cfg.internet_check) [
    | inl on ↦ rw on (
      record {
        state = refl;
        auth_round = refl;
        fail_count = refl;
        state_last_count = refl;
        state_alarm_id = refl;
        server_mac = refl;
        last_recv_frame = refl;
      },
      refl,
    )
    | inr off ↦ rw off (
      record {
        state = refl;
        auth_round = refl;
        fail_count = refl;
        state_last_count = refl;
        state_alarm_id = refl;
        server_mac = refl;
        last_recv_frame = refl;
      },
      refl,
    )
  ]

  -- EAP-Success in the last round, in any other state than SUCCESS, ends in SUCCESS with the
  -- counts and the addresses reset, and sends nothing.
  pub success-Online :
      (frame : Option EthEapFrame) (w : World P)
      → code w.state ≢ code success
      → w.auth_round ≡ env.cfg.auth_round
      → (w' : World P) × (switch env success frame w ≡ ok true w') × Online w' × (w'.sent ≡ w.sent)
  unfolding switch_to_state switch_by enter transition trans_to_success state_mach_process_success
      reset_state_watchdog disable_state_watchdog
  success-Online frame w other last =
      rw (≢→== _ _ other, ≡→== _ _ last)
        (_, refl, (check_start-Online _).0, (check_start-Online _).1)

  module _ (e : IsEnv env) where
    start-Counted :
        (w : World P)
        → Ready w
        → Safe
            (λ _ w'. Counted w.auth_round w.fail_count w' × (w'.state ≡ start_sent) × Ready w')
            (switch_by env (trans_to_start_sent env) start_sent w)
    unfolding trans_to_start_sent
    start-Counted w v =
        switch_by_rule env e (λ w'. Counted w.auth_round w.fail_count w' × Ready w')
          (trans_to_start_sent env) start_sent w v
          (λ w1 k. mono (eapol_start-Safe env e w1 k.ready) λ _ w' k'. (
            record {
              auth_round = k'.auth_round ∙ k.auth_round;
              fail_count = k'.fail_count ∙ k.fail_count;
            },
            k'.ready,
          ))
          λ w' c. (record { auth_round = c.0.auth_round; fail_count = c.0.fail_count }, refl, c.1)

    -- A new start forgets the failures and the rounds that were counted before.
    pub restart_auth-fail_count :
        (w : World P)
        → Ready w
        → Safe
            (λ _ w'. (w'.fail_count ≡ 0) × (w'.auth_round ≡ 1) × (w'.state ≡ start_sent) × Ready w')
            (restart_auth env w)
    unfolding restart_auth eap_state_machine_reset switch_to_state transition
    restart_auth-fail_count w v =
        bind (start-Counted (eap_state_machine_reset w) (reset-Ready env e w v))
          λ _ w' c. returns (c.0.fail_count, c.0.auth_round, c.1, c.2)

    failed :
        (w : World P)
        → code w.state ≢ code success
        → Safe
            (λ _ w'. (w'.fail_count ≡ w.fail_count + 1) × (w.fail_count + 1 ≢ env.cfg.max_failures))
            (trans_to_failure env w)
    unfolding trans_to_failure state_mach_process_failure internet_check_stop disable_state_watchdog
    failed w other =
        rw (≢→== _ _ other) (elim (Bool-cases (w.fail_count + 1 == env.cfg.max_failures)) [
          | inl last ↦ rw last ends
          | inr more ↦ rw more (returns (refl, λ h. absurd (cc (≡→== _ _ h, more))))
        ])

    failure-Counted :
        (frame : Option EthEapFrame) (w : World P)
        → Ready w
        → code w.state ≢ code success
        → Safe
            (λ _ w'.
              (w'.fail_count ≡ w.fail_count + 1)
              × (w.fail_count + 1 ≢ env.cfg.max_failures)
              × (w'.state ≡ failure))
            (switch env failure frame w)
    unfolding switch_to_state transition
    failure-Counted frame w v other =
        switch_by_rule env e
          (λ w'. (w'.fail_count ≡ w.fail_count + 1) × (w.fail_count + 1 ≢ env.cfg.max_failures))
          (trans_to_failure env) failure w v
          (λ w1 k. mono (failed w1 (λ h. other (ap code (sym k.state) ∙ h))) λ _ w' c.
            (c.0 ∙ ap (λ n. n + 1) k.fail_count, λ h. c.1 (ap (λ n. n + 1) k.fail_count ∙ h)))
          λ w' c. (c.0, c.1, refl)

    -- A failure behind `restart_auth` in a machine that is set up is counted as the first one,
    -- however many were counted before, unless a call ends the program.
    pub restart-failure-fail_count :
        (frame : Option EthEapFrame) (w : World P)
        → Ready w
        → Safe
            (λ _ w'. w'.fail_count ≡ 1)
            (then_do (restart_auth env w) λ _. switch env failure frame)
    restart-failure-fail_count frame w v = bind (restart_auth-fail_count w v) λ _ w1 c.
        mono (failure-Counted frame w1 c.3 (λ h. absurd (cc))) λ _ w' d. omega (arith, d.0, c.0)

    next_round-Counted :
        (w : World P)
        → Ready w
        → w.auth_round ≢ env.cfg.auth_round
        → Safe (λ _ w'. Counted (w.auth_round + 1) 0 w') (trans_to_success env w)
    unfolding trans_to_success state_mach_process_success disable_state_watchdog
    next_round-Counted w v more =
        rw (≢→== _ _ more)
          (bind (start-Counted (next_round env (disable_state_watchdog w)) v) λ _ w' c. returns c.0)

    -- EAP-Success in a round that is not the last one, in a machine that is set up, counts the round
    -- and forgets the failures, but leaves the machine in SUCCESS and not in START_SENT, unless a
    -- call ends the program.
    pub success-auth_round :
        (frame : Option EthEapFrame) (w : World P)
        → Ready w
        → w.auth_round ≢ env.cfg.auth_round
        → Safe
            (λ _ w'.
              (w'.state ≡ success) × (w'.auth_round ≡ w.auth_round + 1) × (w'.fail_count ≡ 0))
            (switch env success frame w)
    unfolding switch_to_state transition
    success-auth_round frame w v more =
        switch_by_rule env e (λ w'. Counted (w.auth_round + 1) 0 w') (trans_to_success env) success
          w v (λ w1 k. another w1 k) λ w' c. (refl, c.auth_round, c.fail_count)
      where
        another :
            (w1 : World P)
            → Entered w w1
            → Safe (λ _ w'. Counted (w.auth_round + 1) 0 w') (trans_to_success env w1)
        another w1 k =
            mono (next_round-Counted w1 k.ready (λ h. more (sym k.auth_round ∙ h))) λ _ w' c.
              record {
                auth_round = c.auth_round ∙ ap (λ n. n + 1) k.auth_round;
                fail_count = c.fail_count;
              }
