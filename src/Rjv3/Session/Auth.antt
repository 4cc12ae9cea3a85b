-- ===== src/Rjv3/Session/Auth.antt =====
-- packet_plugin_rjv3.c and packet_plugin_rjv3_priv.c: received frames and the second authentication.
use minieap.Prelude.{
  ℕ, ◌+◌, Bool, true, false, ◌&&◌, [], ◌∷◌, ◌++◌, Option, none, some, ltb, ◌==◌, if◌then◌else◌,
  get_elem?,
}
use minieap.Prelude.Int.{pos, is_pos, ltb_ℤ}
use minieap.Prelude.Maybe.{◌>>=◌}
use minieap.Frame.{
  EthEapFrame, frame_duplicate, free_frame, eapol_type_offset, eap_code_offset, eap_type_offset,
  eap_packet, eap_request, eap_success, eap_failure, md5_challenge,
}
use minieap.Alarm.{schedule_alarm}
use minieap.Rjv3.Keepalive.{Link, rjv3_keepalive_reset, rjv3_start_keepalive}
use minieap.Rjv3.Session.{
  DhcpLease, Done, Net, RjCallback, RjPriv, cancel_secondary, is_dhcp_type, rjv3_get_dhcp_lease,
  rjv3_process_result_prop, rjv3_reset_session, send_keepalive, start_secondary_auth,
}

-- `link` holds what the heartbeat uses of the interface and the builder.
module _ (link : Link RjCallback) where
  abbrev pub link_of : RjPriv → Link RjCallback
  link_of s = record link {
    heartbeat_interval = s.options.heartbeat_interval;
    timed = send_keepalive;
  }

  unfoldable pub start_keepalive : RjPriv → RjPriv
  unfolding rjv3_start_keepalive
  start_keepalive s = record s { keepalive = rjv3_start_keepalive (link_of s) s.keepalive }

  -- The branch that gives the lease up; the result of the call is not looked at.
  unfoldable pub give_up : Net → RjPriv → Option RjPriv
  unfolding rjv3_process_result_prop start_keepalive free_frame
  give_up net s = do
    frame ← s.duplicated_packet
    r ← rjv3_process_result_prop frame net.rand s.keepalive
    some (
        start_keepalive
          (record s { keepalive = r.after; duplicated_packet = free_frame s.duplicated_packet }))

  unfoldable pub wait_more : RjPriv → RjPriv
  unfolding schedule_alarm
  wait_more s =
      let (sched, id) = schedule_alarm (pos 5) start_secondary_auth s.keepalive.sched in
      record s {
        keepalive = record s.keepalive { sched = sched };
        secondary_auth_alarm_id = some id;
      }

  -- Whether the lease is there.
  unfoldable pub with_lease : Option DhcpLease → Net → RjPriv → Option RjPriv
  unfolding give_up wait_more free_frame
  with_lease (some lease) net s =
      some
        (record s { duplicated_packet = free_frame s.duplicated_packet; restarts = s.restarts + 1 })
  with_lease none net s =
      let s = record s { dhcp_count = s.dhcp_count + 1 } in
      if ltb_ℤ s.options.max_dhcp_count (pos s.dhcp_count)
      then give_up net s
      else some (wait_more s)

  unfoldable pub rjv3_start_secondary_auth : Net → RjPriv → Option RjPriv
  unfolding rjv3_get_dhcp_lease with_lease
  rjv3_start_secondary_auth net s = do
    lease ← rjv3_get_dhcp_lease s.options.fake_dns1 net
    with_lease lease net (record s { secondary_auth_alarm_id = none })

  abbrev pub run_script : RjPriv → RjPriv
  run_script s = record s { scripts = s.scripts ++ s.options.dhcp_script ∷ [] }

  -- From `rjv3_process_result_prop(frame)` on.
  unfoldable pub online : EthEapFrame → Net → RjPriv → Option Done
  unfolding rjv3_process_result_prop start_keepalive
  online frame net s = do
    r ← rjv3_process_result_prop frame net.rand s.keepalive
    let s = record s { keepalive = r.after }
    if r.ok
        then some (record {
          ok = true;
          after = if is_pos s.options.heartbeat_interval then start_keepalive s else s;
        })
        else some (record { ok = false; after = s })

  -- The first of two authentications.
  unfoldable pub first_success : EthEapFrame → Net → RjPriv → Option Done
  unfolding rjv3_start_secondary_auth frame_duplicate
  first_success frame net s = do
    s ←
        rjv3_start_secondary_auth net
          (run_script (record s { duplicated_packet = some (frame_duplicate frame) }))
    some (record { ok = true; after = s })

  -- From the test of the DHCP type on.
  unfoldable pub by_dhcp_type : EthEapFrame → Net → RjPriv → Option Done
  unfolding first_success rjv3_reset_session online
  by_dhcp_type frame net s =
      if is_dhcp_type 1 s.options.dhcp_type
      then (if ltb s.succ_count 2
          then first_success frame net s
          else online frame net (rjv3_reset_session s))
      else if is_dhcp_type 2 s.options.dhcp_type
      then online frame net (run_script s)
      else online frame net s

  -- What is done at each success.
  unfoldable pub count_success : RjPriv → RjPriv
  unfolding rjv3_keepalive_reset cancel_secondary
  count_success s =
      let s = cancel_secondary (record s { keepalive = rjv3_keepalive_reset s.keepalive }) in
      record s { succ_count = s.succ_count + 1 }

  unfoldable pub rjv3_process_success : EthEapFrame → Net → RjPriv → Option Done
  unfolding by_dhcp_type count_success
  rjv3_process_success frame net s = by_dhcp_type frame net (count_success s)

  unfoldable pub rjv3_process_failure : EthEapFrame → Net → RjPriv → Option Done
  unfolding rjv3_process_result_prop rjv3_reset_session
  rjv3_process_failure frame net s = do
    r ← rjv3_process_result_prop frame net.rand s.keepalive
    some (record { ok = true; after = rjv3_reset_session (record s { keepalive = r.after }) })

  abbrev pub keep_request : (wanted : Bool) → EthEapFrame → RjPriv → RjPriv
  keep_request wanted frame s = record s {
    md5_request = if wanted then some (frame_duplicate frame) else none;
  }

  -- From the second test of `eapol_hdr.type` on.
  unfoldable pub by_code : (packet : Bool) → (code : ℕ) → EthEapFrame → Net → RjPriv → Option Done
  unfolding rjv3_process_success rjv3_process_failure
  by_code packet code frame net s =
      if packet && code == eap_success
      then rjv3_process_success frame net s
      else if packet && code == eap_failure
      then rjv3_process_failure frame net s
      else some (record { ok = true; after = s })

  -- All three bytes of the header are read here, which the frames of the network have.
  unfoldable pub rjv3_on_frame_received : EthEapFrame → Net → RjPriv → Option Done
  unfolding frame_duplicate by_code
  rjv3_on_frame_received frame net s = do
    eapol_type ← get_elem? frame.content eapol_type_offset
    code ← get_elem? frame.content eap_code_offset
    type ← get_elem? frame.content eap_type_offset
    let packet = eapol_type == eap_packet
    by_code packet code frame net
        (keep_request (packet && (code == eap_request && type == md5_challenge)) frame s)
