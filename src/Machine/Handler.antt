-- ===== src/Machine/Handler.antt =====
-- The entry points of eap_state_machine.c: set-up, arriving frames, alarms, and the run of the
-- program while the interface captures.
use minieap.Prelude.{
  ℕ, Bool, true, false, Option, none, some, ◌==◌, if◌then◌else◌, get_elem?, Bytes,
}
use minieap.Frame.{
  EthEapFrame, read_bytes, frame_duplicate, eap_packet, eap_request, eap_success, eap_failure,
  identity, md5_challenge, eapol_type_offset, eap_code_offset, eap_type_offset, src_mac_offset,
}
use minieap.Builder.{packet_builder_get, packet_builder_destroy}
use minieap.Plugins.{packet_plugin_on_frame_received, packet_plugin_reset_session}
use minieap.Machine.World.{
  EapState, start_sent, identity_sent, challenge_sent, success, failure, Env, M, ok, ◌>>=◌, ◌>>◌,
  pure, get, modify, need,
}
use minieap.Machine.Timers.{reset_state_watchdog, eap_state_machine_reset}
use minieap.Machine.Switch.{switch_to_state}

module _ {P : Type 0} (env : Env P) where
  -- `iface_mac` is what the interface and `obtain_iface_mac` give, `none` for a failure.
  unfoldable pub eap_state_machine_init : (iface_mac : Option Bytes) → M P Bool
  unfolding eap_state_machine_reset packet_builder_get
  eap_state_machine_init none w = ok false w
  eap_state_machine_init (some mac) w =
      let reset = eap_state_machine_reset (record w { local_mac = mac }) in
      ok true (record reset { packet_builder = some (packet_builder_get reset.packet_builder) })

  unfoldable pub eap_state_machine_destroy : M P (Unit {0})
  unfolding eap_state_machine_reset packet_builder_destroy
  eap_state_machine_destroy w =
      let reset = eap_state_machine_reset w in
      ok tt (record reset { packet_builder = packet_builder_destroy reset.packet_builder })

  -- No call in this file leads to EAP_STATE_PREPARING, so its capture is never started here.
  abbrev pub switch : EapState → Option EthEapFrame → M P Bool
  switch = switch_to_state env (need none)

  -- The result of a switch is not looked at.
  abbrev pub go_to : EapState → EthEapFrame → M P (Unit {0})
  go_to state frame = do switch state (some frame); pure tt

  unfoldable pub on_request : EthEapFrame → (eap_type : ℕ) → M P (Unit {0})
  on_request frame eap_type = do
    mac ← need (read_bytes frame.content src_mac_offset 6)
    modify (λ w. record w { server_mac = mac })
    if eap_type == identity
        then go_to identity_sent frame
        else if eap_type == md5_challenge
        then go_to challenge_sent frame
        else pure tt

  -- The `switch` on the code of an EAP packet.
  unfoldable pub on_code : EthEapFrame → (eap_code eap_type : ℕ) → M P (Unit {0})
  unfolding on_request
  on_code frame eap_code eap_type =
      if eap_code == eap_request
      then on_request frame eap_type
      else if eap_code == eap_success
      then go_to success frame
      else if eap_code == eap_failure
      then go_to failure frame
      else pure tt

  unfoldable pub eap_state_machine_recv_handler : EthEapFrame → M P (Unit {0})
  unfolding on_code
  eap_state_machine_recv_handler frame = do
    let copy = frame_duplicate frame
    modify (λ w. record w { last_recv_frame = some copy })
    w ← get
    r ← need (packet_plugin_on_frame_received env.active_plugins copy w.plugins)
    modify (λ w'. record w' { plugins = r.priv })
    eapol_type ← need (get_elem? frame.content eapol_type_offset)
    if eapol_type == eap_packet
        then (do
          eap_type ← need (get_elem? frame.content eap_type_offset)
          eap_code ← need (get_elem? frame.content eap_code_offset)
          on_code frame eap_code eap_type)
        else pure tt

  unfoldable pub state_watchdog : M P (Unit {0})
  state_watchdog = do
    w ← get
    switch w.state w.last_recv_frame
    modify (reset_state_watchdog env.cfg)

  unfoldable pub restart_auth : M P (Unit {0})
  restart_auth = do modify eap_state_machine_reset; switch start_sent none; pure tt

  unfoldable pub eap_state_machine_restart_from_offline : M P (Unit {0})
  unfolding restart_auth
  eap_state_machine_restart_from_offline = do
    modify (λ w. record w { plugins = packet_plugin_reset_session env.active_plugins w.plugins })
    restart_auth
