-- ===== src/Machine/Send.antt =====
-- The packet senders of eap_state_machine.c: build the response, let the plugins change it, send it.
use minieap.Prelude.{
  ℕ, ◌+◌, ◌-◌, ◌^◌, Bool, true, false, [], ◌∷◌, ◌++◌, Option, none, some, if◌then◌else◌, take,
  replicate, get_elem?, Bytes,
}
use minieap.Frame.{
  EthEapFrame, read_bytes, eap_packet, eap_response, identity, md5_challenge, frame_header_size,
  eap_id_offset,
}
use minieap.Builder.{
  PacketBuilder, Built, field_dst_mac, field_src_mac, field_eth_proto, builder_set_eth_field,
  builder_set_eap_fields, builder_set_eap_md5_seed, builder_build_packet, md5_challenge_digest_size,
}
use minieap.Plugins.{packet_plugin_prepare_frame}
use minieap.Machine.World.{World, Env, M, ok, ◌>>=◌, ◌>>◌, pure, get, modify, need}

abbrev pub frame_buf_size : ℕ
frame_buf_size = 1512

abbrev pub eth_p_pae_bytes : Bytes
eth_p_pae_bytes = 0x88 ∷ 0x8e ∷ []

module _ {P : Type 0} where
  unfoldable pub set_outgoing_eth_fields : World P → PacketBuilder → PacketBuilder
  set_outgoing_eth_fields w b = builder_set_eth_field field_eth_proto eth_p_pae_bytes (
      builder_set_eth_field field_src_mac w.local_mac
        (builder_set_eth_field field_dst_mac w.server_mac b))

  abbrev pub set_builder : PacketBuilder → World P → World P
  set_builder b w = record w { packet_builder = some b }

module _ {P : Type 0} (env : Env P) where
  -- The frame on the stack; -1 becomes the largest `size_t`.
  abbrev pub response_of : Built → EthEapFrame
  response_of r = record {
    actual_len = elim r.len [ none ↦ 2 ^ 64 - 1 | some n ↦ n ];
    buffer_len = frame_buf_size;
    content = r.buffer;
  }

  -- `if_impl->send_frame`; a frame that is refused is not recorded.
  abbrev pub send : EthEapFrame → M P Bool
  send frame w =
      let bytes = take frame.actual_len frame.content in
      if env.send_frame w.sent bytes
      then ok true (record w { sent = w.sent ++ bytes ∷ [] })
      else ok false w

  -- The end that the three senders share: `true` is SUCCESS.
  unfoldable pub prepare_and_send : Built → M P Bool
  prepare_and_send built = do
    w ← get
    r ← need (packet_plugin_prepare_frame env.active_plugins (response_of built) w.plugins)
    modify (λ w'. record w' { plugins = r.priv })
    if r.ok then send r.frame else pure false

  unfoldable pub build_and_send : PacketBuilder → M P Bool
  unfolding prepare_and_send
  build_and_send b = do
    modify (set_builder b)
    built ← need (builder_build_packet env.compute_hash b (replicate frame_buf_size 0))
    prepare_and_send built

  -- `request` is a pointer, and `none` is NULL.
  unfoldable pub state_mach_send_identity_response : Option EthEapFrame → M P Bool
  unfolding set_outgoing_eth_fields build_and_send
  state_mach_send_identity_response request = do
    w ← get
    b ← need w.packet_builder
    req ← need request
    id ← need (get_elem? req.content eap_id_offset)
    b ← need (
        builder_set_eap_fields eap_packet eap_response identity id (some env.eap_config)
          (set_outgoing_eth_fields w b))
    build_and_send b

  unfoldable pub state_mach_send_challenge_response : Option EthEapFrame → M P Bool
  unfolding set_outgoing_eth_fields build_and_send
  state_mach_send_challenge_response request = do
    w ← get
    b ← need w.packet_builder
    req ← need request
    id ← need (get_elem? req.content eap_id_offset)
    b ← need (
        builder_set_eap_fields eap_packet eap_response md5_challenge id (some env.eap_config)
          (set_outgoing_eth_fields w b))
    seed ← need (read_bytes req.content (frame_header_size + 1) md5_challenge_digest_size)
    build_and_send (builder_set_eap_md5_seed seed md5_challenge_digest_size b)

  unfoldable pub state_mach_send_eapol_simple : (eapol_type : ℕ) → M P Bool
  unfolding set_outgoing_eth_fields build_and_send
  state_mach_send_eapol_simple eapol_type = do
    w ← get
    b ← need w.packet_builder
    b ← need (builder_set_eap_fields eapol_type 0 0 0 none (set_outgoing_eth_fields w b))
    build_and_send b
