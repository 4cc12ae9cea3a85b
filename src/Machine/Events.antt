-- ===== src/Machine/Events.antt =====
-- No event of the capture faults, from the first frame to the last.
use minieap.Prelude.{
  ltb, ℕ, ◌+◌, ◌≤◌, ◌≡◌, refl, ap, Bool, true, false, Bool-cases, inl, inr, List, [], ◌∷◌, All,
  Option, none, some, if◌then◌else◌, ◌==◌, length, take, drop, Bytes, arith, get_or, get_elem?-some,
  length-take, length-drop, le→leb,
}
use minieap.Frame.{
  EthEapFrame, read_bytes, frame_duplicate, eap_packet, eap_request, eap_success, eap_failure,
  identity, md5_challenge,
}
use minieap.Builder.{packet_builder_get, packet_builder_new}
use minieap.Machine.World.{
  EapState, unknown, preparing, waiting_for_client_start, start_sent, waiting_for_client_identity,
  identity_sent, waiting_for_client_challenge, challenge_sent, success, failure, code, World, Env,
  then_do, pure, ◌>>◌,
}
use minieap.Machine.Timers.{
  disable_state_watchdog, internet_check_stop, internet_check_reschedule, eap_state_machine_reset,
}
use minieap.Machine.Switch.{trans_to_preparing, transition, switch_to_state}
use minieap.Machine.Handler.{
  on_request, on_code, eap_state_machine_recv_handler, eap_state_machine_restart_from_offline,
  eap_state_machine_init,
}
use minieap.Machine.Run.{
  IcOutcome, ic_ok, ic_fail, ic_skip, internet_check_probed, internet_check_timed, Event, received,
  watchdog_rings, restart_rings, check_rings, handle, handle_all, run,
}
use minieap.Machine.Safe.{
  Safe, returns, either, bind, IsEnv, Ready, IsRequest, IsReceived, CanRepeat, IsWorld,
}
use minieap.Machine.Switching.{
  switch-Safe, restart_auth-Safe, state_watchdog-Safe, switch_by_rule, switch_start-Safe,
}

module _ {P : Type 0} (env : Env P) (e : IsEnv env) where
  request-Safe :
      (frame : EthEapFrame) (eap_type : ℕ) (w : World P)
      → IsWorld w
      → 60 ≤ length frame.content
      → IsRequest w.last_recv_frame
      → Safe (λ _ w'. IsWorld w') (on_request env frame eap_type w)
  unfolding on_request read_bytes
  request-Safe frame eap_type w i long last =
      let mac = take 6 (drop 6 frame.content) in
      let size : length mac ≡ 6 =
        omega (arith, length-take 6 (drop 6 frame.content), length-drop 6 frame.content) in
      let w1 : World P = record w { server_mac = mac } in
      let v : Ready w1 = record {
        builder = i.ready.builder;
        built = i.ready.built;
        header = i.ready.header;
        local = i.ready.local;
        server = size;
      } in
      rw (le→leb 12 (length frame.content) (omega arith))
        (elim (Bool-cases (eap_type == identity)) [
          | inl one ↦ rw one (
              bind (switch-Safe env e identity_sent (some frame) w1 v long (λ _. last))
                λ _ w' i'. returns i')
          | inr other ↦ rw other (elim (Bool-cases (eap_type == md5_challenge)) [
            | inl four ↦ rw four (
                bind (switch-Safe env e challenge_sent (some frame) w1 v long (λ _. last))
                  λ _ w' i'. returns i')
            | inr none_of ↦ rw none_of (returns (record { ready = v; can_repeat = i.can_repeat }))
          ])
        ])

  code-Safe :
      (frame : EthEapFrame) (eap_code eap_type : ℕ) (w : World P)
      → IsWorld w
      → 60 ≤ length frame.content
      → IsRequest w.last_recv_frame
      → Safe (λ _ w'. IsWorld w') (on_code env frame eap_code eap_type w)
  unfolding on_code
  code-Safe frame eap_code eap_type w i long last = elim (Bool-cases (eap_code == eap_request)) [
    | inl one ↦ rw one (request-Safe frame eap_type w i long last)
    | inr o1 ↦ rw o1 (elim (Bool-cases (eap_code == eap_success)) [
      | inl three ↦ rw three (
          bind (switch-Safe env e success (some frame) w i.ready tt (λ x. x)) λ _ w' i'. returns i')
      | inr o2 ↦ rw o2 (elim (Bool-cases (eap_code == eap_failure)) [
        | inl four ↦ rw four (
            bind (switch-Safe env e failure (some frame) w i.ready tt (λ x. x))
              λ _ w' i'. returns i')
        | inr o3 ↦ rw o3 (returns i)
      ])
    ])
  ]

  -- A request in place of the last frame can be answered as well.
  CanRepeat-request :
      (state : EapState) (last : Option EthEapFrame) (f : EthEapFrame)
      → CanRepeat state last
      → IsRequest (some f)
      → CanRepeat state (some f)
  CanRepeat-request start_sent last f c r = tt
  CanRepeat-request success last f c r = tt
  CanRepeat-request failure last f c r = tt
  CanRepeat-request identity_sent last f c r = r
  CanRepeat-request challenge_sent last f c r = r
  CanRepeat-request unknown last f c r = c
  CanRepeat-request preparing last f c r = c
  CanRepeat-request waiting_for_client_start last f c r = c
  CanRepeat-request waiting_for_client_identity last f c r = c
  CanRepeat-request waiting_for_client_challenge last f c r = c

  recv_handler-Safe :
      (frame : EthEapFrame) (w : World P)
      → IsWorld w
      → IsReceived frame
      → Safe (λ _ w'. IsWorld w') (eap_state_machine_recv_handler env frame w)
  unfolding eap_state_machine_recv_handler frame_duplicate
  recv_handler-Safe frame w i r =
      let copy = frame_duplicate frame in
      let size : length copy.content ≡ frame.actual_len =
        omega (arith, length-take frame.actual_len frame.content, r.held) in
      let again : IsReceived copy = record { padded = r.padded; held = omega (arith) } in
      let long : 60 ≤ length frame.content = omega (arith, r.padded, r.held) in
      let last : IsRequest (some copy) = omega (arith, r.padded) in
      let (got, accepted) = e.receives copy w.plugins again in
      let w1 : World P = record w { last_recv_frame = some copy; plugins = got.priv } in
      let i1 : IsWorld w1 = record {
        ready = i.ready;
        can_repeat = CanRepeat-request w.state w.last_recv_frame copy i.can_repeat last;
      } in
      rw (accepted, get_elem?-some frame.content 15 0 (omega arith))
        (elim (Bool-cases (get_or frame.content 15 0 == eap_packet)) [
          | inl packet ↦
              rw
                (
                  packet,
                  get_elem?-some frame.content 22 0 (omega arith),
                  get_elem?-some frame.content 18 0 (omega arith),
                )
                (code-Safe frame (get_or frame.content 18 0) (get_or frame.content 22 0) w1 i1 long
                  last)
          | inr other ↦ rw other (returns i1)
        ])

  offline-Safe :
      (w : World P)
      → Ready w
      → Safe (λ _ w'. IsWorld w') (eap_state_machine_restart_from_offline env w)
  unfolding eap_state_machine_restart_from_offline
  offline-Safe w v = restart_auth-Safe env e _ v

  probed-Safe :
      (probe : IcOutcome) (w : World P)
      → IsWorld w
      → Safe (λ _ w'. IsWorld w') (internet_check_probed env probe w)
  unfolding internet_check_probed internet_check_reschedule
  probed-Safe ic_skip w i = returns (record { ready = i.ready; can_repeat = i.can_repeat })
  probed-Safe ic_ok w i = returns (record { ready = i.ready; can_repeat = i.can_repeat })
  probed-Safe ic_fail w i =
      either (ltb (w.check_fail_count + 1) env.cfg.internet_check_max_fail)
        (returns (record { ready = i.ready; can_repeat = i.can_repeat }))
        (either env.cfg.restart_on_logoff (offline-Safe _ i.ready)
          (returns (record { ready = i.ready; can_repeat = i.can_repeat })))

  internet_check-Safe :
      (probe : IcOutcome) (w : World P)
      → IsWorld w
      → Safe (λ _ w'. IsWorld w') (internet_check_timed env probe w)
  unfolding internet_check_timed
  internet_check-Safe probe w i =
      let i1 : IsWorld (record w { check_alarm_id = none }) = record {
        ready = i.ready;
        can_repeat = i.can_repeat;
      } in
      either env.cfg.internet_check
        (either (code w.state == code success) (probed-Safe probe _ i1) (returns i1)) (returns i1)

  -- The frames among the events are frames of the network.
  abbrev pub Possible : Event → Type 0
  Possible (received frame) = IsReceived frame
  Possible _ = Unit

  pub handle-Safe :
      (event : Event) (w : World P)
      → IsWorld w
      → Possible event
      → Safe (λ _ w'. IsWorld w') (handle env event w)
  unfolding handle
  handle-Safe (received frame) w i r = recv_handler-Safe frame w i r
  handle-Safe watchdog_rings w i r = state_watchdog-Safe env e w i
  handle-Safe restart_rings w i r = restart_auth-Safe env e w i.ready
  handle-Safe (check_rings probe) w i r = internet_check-Safe probe w i

  pub handle_all-Safe :
      (events : List Event) (w : World P)
      → IsWorld w
      → All Possible events
      → Safe (λ _ w'. IsWorld w') (handle_all env events w)
  unfolding handle_all
  handle_all-Safe [] w i r = returns i
  handle_all-Safe (event ∷ events) w i r =
      bind (handle-Safe event w i r.0) λ _ w' i'. handle_all-Safe events w' i' r.1

  pub run-Safe :
      (events : List Event) (result : Bool) (w : World P)
      → Ready w
      → All Possible events
      → Safe (λ done w'. Ready w') (run env events result w)
  unfolding run switch_to_state trans_to_preparing transition
  run-Safe events result w v r =
      switch_by_rule env e Ready (trans_to_preparing env (do handle_all env events; pure result))
        preparing w v
        (λ w1 k. bind (switch_start-Safe env e w1 k.ready) λ done w2 i. captured done w2 i)
        λ w' ready. ready
    where
      captured :
          (done : Bool) (w2 : World P)
          → IsWorld w2
          → Safe
              (λ _ w'. Ready w')
              ((if done then (do handle_all env events; pure result) else pure false) w2)
      captured true w2 i = bind (handle_all-Safe events w2 i r) λ _ w' i'. returns i'.ready
      captured false w2 i = returns i.ready

  -- The program that starts with an address of 6 bytes, whatever the network sends, whenever the
  -- alarms ring and whether the network takes its frames, never reads or writes outside a buffer
  -- and never calls through NULL: it comes back with the builder and the addresses in place, or
  -- ends by `exit`. The digest has 16 bytes, the user name at most 64 and the password at most 63;
  -- the plugins stay inside the frames that they get, and a frame has the 60 bytes of Ethernet.
  pub start-Safe :
      (mac : Bytes) (events : List Event) (result : Bool) (w : World P)
      → length mac ≡ 6
      → w.packet_builder ≡ none
      → All Possible events
      → Safe
          (λ _ w'. Ready w')
          (then_do (eap_state_machine_init env (some mac) w) λ _. run env events result)
  unfolding eap_state_machine_init packet_builder_get eap_state_machine_reset internet_check_stop
      disable_state_watchdog
  start-Safe mac events result w n fresh r =
      run-Safe events result _
        (record {
          builder = packet_builder_new;
          built = ap (λ b. some (packet_builder_get b)) fresh;
          header = record {
            dest_mac = refl;
            src_mac = refl;
            protocol = refl;
            eapol_len = refl;
            eap_len = refl;
          };
          local = n;
          server = refl;
        })
        r
