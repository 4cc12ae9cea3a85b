-- ===== src/Machine/Responses.antt =====
-- The three senders of the machine stay inside their buffers and leave its state alone.
use minieap.Prelude.{
  ℕ, ◌+◌, ◌≡◌, refl, ap, ◌∙◌, [], ◌∷◌, ◌++◌, some, length, take, drop, Bytes, arith, length-append,
  length-drop, get_or, get_elem?-some, length-take, take_all, le→leb,
}
use minieap.Frame.{
  EthEapFrame, read_bytes, eap_response, identity, eapol_start, md5_challenge, header_bytes,
}
use minieap.Builder.{
  PacketBuilder, Built, builder_set_eap_fields, builder_set_eap_md5_seed, builder_build_packet,
  field_dst_mac, field_src_mac, field_eth_proto,
}
use minieap.Builder.Header.{
  IsHeader, length-header_bytes, builder_set_eth_field-IsHeader, with_eap_fields,
  builder_set_eap_fields-packet, hash_md5_pwd-some,
}
use minieap.Builder.Packet.{
  built, build_packet-username, build_packet-challenge, build_packet-simple,
}
use minieap.Machine.World.{World, Env}
use minieap.Machine.Safe.{Safe, IsEnv, Ready, IsRequest}
use minieap.Machine.Send.{
  eth_p_pae_bytes, set_outgoing_eth_fields, set_builder, state_mach_send_identity_response,
  state_mach_send_challenge_response, state_mach_send_eapol_simple,
}
use minieap.Machine.Sending.{Kept, IsBuilt, zeros, length-zeros, build_and_send-Safe}

module _ {P : Type 0} (env : Env P) (e : IsEnv env) where
  pub set_outgoing-IsHeader :
      (b : PacketBuilder) (w : World P)
      → Ready w
      → IsHeader b.frame_header
      → IsHeader (set_outgoing_eth_fields w b).frame_header
  unfolding set_outgoing_eth_fields
  set_outgoing-IsHeader b w v h =
      builder_set_eth_field-IsHeader field_eth_proto eth_p_pae_bytes _ (omega arith) (
        builder_set_eth_field-IsHeader field_src_mac w.local_mac _ (omega (arith, v.local))
          (builder_set_eth_field-IsHeader field_dst_mac w.server_mac b (omega (arith, v.server)) h))

  -- The builder for a response to the request with an identifier, and its header.
  unfoldable pub respond : (eap_type id : ℕ) → World P → PacketBuilder → PacketBuilder
  respond eap_type id w b =
      with_eap_fields eap_response eap_type id env.eap_config (set_outgoing_eth_fields w b)

  pub respond-IsHeader :
      (eap_type id : ℕ) (b : PacketBuilder) (w : World P)
      → Ready w
      → IsHeader b.frame_header
      → IsHeader (respond eap_type id w b).frame_header
  unfolding respond with_eap_fields
  respond-IsHeader eap_type id b w v h =
      let o = set_outgoing-IsHeader b w v h in
      record {
        dest_mac = o.dest_mac;
        src_mac = o.src_mac;
        protocol = o.protocol;
        eapol_len = refl;
        eap_len = refl;
      }

  -- The rewritten world is as ready.
  pub again : (w : World P) (v : Ready w) → Ready (set_builder v.builder w)
  again w v = record {
    builder = v.builder;
    built = refl;
    header = v.header;
    local = v.local;
    server = v.server;
  }

  -- The builder of a response that has no type data builds.
  respond-identity-built :
      (id : ℕ) (b : PacketBuilder) (w : World P)
      → Ready w
      → IsHeader b.frame_header
      → (out : Built) × (builder_build_packet env.compute_hash (respond identity id w b) zeros
          ≡ some out)
        × IsBuilt out
  unfolding respond with_eap_fields
  respond-identity-built id b w v h =
      let r = respond identity id w b in
      let hv : IsHeader r.frame_header = respond-IsHeader identity id b w v h in
      let (rest, eq, size) =
        build_packet-username env.compute_hash r env.eap_config zeros hv refl (λ e. absurd (cc))
          refl (omega (arith, length-zeros, e.username)) in
      (
        built (header_bytes r.frame_header ++ env.eap_config.username) rest,
        eq,
        record {
          size = size ∙ length-zeros;
          used = length (header_bytes r.frame_header ++ env.eap_config.username);
          len = refl;
          inside = omega (
            arith,
            length-append (header_bytes r.frame_header) env.eap_config.username,
            length-header_bytes r.frame_header hv,
            e.username,
          );
        },
      )

  pub identity_response-Safe :
      (frame : EthEapFrame) (w : World P)
      → Ready w
      → IsRequest (some frame)
      → Safe (λ _ w'. Kept w w') (state_mach_send_identity_response env (some frame) w)
  unfolding state_mach_send_identity_response respond
  identity_response-Safe frame w v long =
      let id = get_or frame.content 19 0 in
      let w1 = set_builder v.builder w in
      let (out, eq, valid) = respond-identity-built id v.builder w1 (again w v) v.header in
      rw
        (
          v.built,
          get_elem?-some frame.content 19 0 (omega arith),
          builder_set_eap_fields-packet eap_response identity id env.eap_config
              (set_outgoing_eth_fields w1 v.builder),
        )
        (build_and_send-Safe env e (respond identity id w1 v.builder) out w1 eq valid
          (respond-IsHeader identity id v.builder w1 (again w v) v.header) (again w v))

  -- The builder of a challenge response with a seed builds.
  respond-challenge-built :
      (id : ℕ) (seed : Bytes) (b : PacketBuilder) (w : World P)
      → length seed ≡ 16
      → Ready w
      → IsHeader b.frame_header
      → (out : Built) × (builder_build_packet env.compute_hash
            (builder_set_eap_md5_seed seed 16 (respond md5_challenge id w b))
            zeros
          ≡ some out)
        × IsBuilt out
  unfolding respond with_eap_fields builder_set_eap_md5_seed
  respond-challenge-built id seed b w n v h =
      let r = builder_set_eap_md5_seed seed 16 (respond md5_challenge id w b) in
      let hv : IsHeader r.frame_header = respond-IsHeader md5_challenge id b w v h in
      let digest =
        env.compute_hash (r.frame_header.eap_hdr.id ∷ (env.eap_config.password ++ seed)) in
      let pre = ((header_bytes r.frame_header ++ 16 ∷ []) ++ digest) ++ env.eap_config.username in
      let (rest, eq, size) =
        build_packet-challenge env.compute_hash r env.eap_config seed digest zeros hv refl refl refl
          (ap some (take_all 16 seed (omega arith))) (λ e. absurd (cc))
          (hash_md5_pwd-some env.compute_hash r.frame_header.eap_hdr.id seed env.eap_config.password
            n e.password)
          (e.digest _) (omega (arith, length-zeros, e.username)) in
      let used : length pre ≡ 40 + length env.eap_config.username =
        rw (length-append, length-append, length-append)
          (omega (
            arith,
            length-header_bytes r.frame_header hv,
            e.digest (r.frame_header.eap_hdr.id ∷ (env.eap_config.password ++ seed)),
          )) in
      (
        built pre rest,
        eq,
        record {
          size = size ∙ length-zeros;
          used = length pre;
          len = refl;
          inside = omega (arith, used, e.username);
        },
      )

  pub challenge_response-Safe :
      (frame : EthEapFrame) (w : World P)
      → Ready w
      → IsRequest (some frame)
      → Safe (λ _ w'. Kept w w') (state_mach_send_challenge_response env (some frame) w)
  unfolding state_mach_send_challenge_response respond builder_set_eap_md5_seed with_eap_fields
      read_bytes
  challenge_response-Safe frame w v long =
      let id = get_or frame.content 19 0 in
      let seed = take 16 (drop 24 frame.content) in
      let size : length seed ≡ 16 =
        omega (arith, length-take 16 (drop 24 frame.content), length-drop 24 frame.content) in
      let w1 = set_builder v.builder w in
      let (out, eq, valid) =
        respond-challenge-built id seed v.builder w1 size (again w v) v.header in
      rw
        (
          v.built,
          get_elem?-some frame.content 19 0 (omega arith),
          builder_set_eap_fields-packet eap_response md5_challenge id env.eap_config
              (set_outgoing_eth_fields w1 v.builder),
          le→leb 40 (length frame.content) (omega arith),
        )
        (build_and_send-Safe env e
          (builder_set_eap_md5_seed seed 16 (respond md5_challenge id w1 v.builder)) out w1 eq valid
          (respond-IsHeader md5_challenge id v.builder w1 (again w v) v.header) (again w v))

  -- EAPOL-Start needs no frame.
  pub eapol_start-Safe :
      (w : World P)
      → Ready w
      → Safe (λ _ w'. Kept w w') (state_mach_send_eapol_simple env eapol_start w)
  unfolding state_mach_send_eapol_simple builder_set_eap_fields
  eapol_start-Safe w v =
      let w1 = set_builder v.builder w in
      let o = set_outgoing_eth_fields w1 v.builder in
      let oh : IsHeader o.frame_header = set_outgoing-IsHeader v.builder w1 (again w v) v.header in
      let h = o.frame_header in
      let b = record o {
        frame_header = record h { eapol_hdr = record { ver = 1; type = 1; len = 0 ∷ 0 ∷ [] } };
      } in
      let bh : IsHeader b.frame_header = record {
        dest_mac = oh.dest_mac;
        src_mac = oh.src_mac;
        protocol = oh.protocol;
        eapol_len = refl;
        eap_len = oh.eap_len;
      } in
      let out : Built = record {
        len = some 18;
        buffer = header_bytes b.frame_header ++ drop 23 zeros;
      } in
      rw (v.built) (
        build_and_send-Safe env e b out w1
          (build_packet-simple env.compute_hash b zeros bh (λ e. absurd (cc))
            (omega (arith, length-zeros)))
          (record {
            size = omega (
              arith,
              length-append (header_bytes b.frame_header) (drop 23 zeros),
              length-header_bytes b.frame_header bh,
              length-drop 23 zeros,
              length-zeros,
            );
            used = 18;
            len = refl;
            inside = omega arith;
          })
          bh (again w v))
