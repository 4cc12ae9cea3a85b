-- ===== src/Machine/Wire.antt =====
-- The packets that eap_state_machine.c puts on the network when no plugin is selected.
use minieap.Prelude.{
  ℕ, ◌+◌, ◌≡◌, refl, ap, ◌∙◌, Bool, true, [], ◌∷◌, ◌++◌, some, length, take, drop, Bytes, arith,
  append_assoc, length-append, length-drop, length-take, get_or, get_elem?-some, take_all,
  take-append, le→leb, u8,
}
use minieap.Frame.{EthEapFrame, read_bytes, eap_response, identity, md5_challenge, header_bytes}
use minieap.Builder.{
  PacketBuilder, htons, eap_packet_len, builder_set_eap_md5_seed, builder_build_packet,
  builder_set_eth_field,
}
use minieap.Builder.Header.{with_eap_fields, builder_set_eap_fields-packet, hash_md5_pwd-some}
use minieap.Builder.Packet.{built, build_packet-username, build_packet-challenge}
use minieap.Plugins.{packet_plugin_prepare_frame}
use minieap.Machine.World.{World, Env, Outcome, ok}
use minieap.Machine.Safe.{IsEnv, Ready, IsRequest}
use minieap.Machine.Send.{
  set_outgoing_eth_fields, set_builder, prepare_and_send, build_and_send,
  state_mach_send_identity_response, state_mach_send_challenge_response,
}
use minieap.Machine.Sending.{zeros, length-zeros}
use minieap.Machine.Responses.{respond, respond-IsHeader, again}

-- An EAP response in its Ethernet frame: version 1 of EAPOL, and the length of the EAP packet in
-- both headers.
abbrev pub response_packet : (dst src : Bytes) (id eap_type : ℕ) (payload : Bytes) → Bytes
response_packet dst src id eap_type payload =
    dst
    ++ (src
        ++ (0x88
            ∷ 0x8e
            ∷ 1
            ∷ 0
            ∷ (htons (5 + length payload)
                ++ (2 ∷ id ∷ (htons (5 + length payload) ++ (eap_type ∷ payload))))))

-- The frame that a sender puts behind those that were sent before.
abbrev pub Sends : {P : Type 0} → Outcome P Bool → World P → Bytes → Type 0
Sends {P} o w packet = (w' : World P) × (o ≡ ok true w') × (w'.sent ≡ w.sent ++ packet ∷ [])

module _ {P : Type 0} (env : Env P) (e : IsEnv env) where
  build_and_send-Sends :
      (b : PacketBuilder) (pre rest : Bytes) (w : World P)
      → builder_build_packet env.compute_hash b zeros ≡ some (built pre rest)
      → env.active_plugins ≡ []
      → env.send_frame w.sent pre ≡ true
      → Sends (build_and_send env b w) w pre
  unfolding build_and_send prepare_and_send packet_plugin_prepare_frame
  build_and_send-Sends b pre rest w eq plain taken =
      rw (eq, plain, take-append pre rest, taken) (_, refl, refl)

  respond-bytes :
      (eap_type id : ℕ) (b : PacketBuilder) (w : World P) (payload : Bytes)
      → Ready w
      → eap_packet_len eap_type env.eap_config ≡ 5 + length payload
      → u8 eap_type ≡ eap_type
      → header_bytes (respond env e eap_type id w b).frame_header ++ payload
        ≡ response_packet w.server_mac w.local_mac (u8 id) eap_type payload
  unfolding respond with_eap_fields header_bytes set_outgoing_eth_fields builder_set_eth_field
  respond-bytes eap_type id b w payload v len small =
      rw
        (
          take_all 6 w.server_mac (omega (arith, v.server)),
          take_all 6 w.local_mac (omega (arith, v.local)),
          len,
          small,
          append_assoc,
          append_assoc,
        )
        refl

  -- A request for the identity is answered to its server with the identifier of the request and
  -- the user name, in one frame, when the machine is set up, the request has 60 bytes, no plugin is
  -- selected and the network takes the frame.
  pub identity_response-Sends :
      (frame : EthEapFrame) (w : World P)
      → Ready w
      → IsRequest (some frame)
      → env.active_plugins ≡ []
      → let packet =
          response_packet w.server_mac w.local_mac
            (u8 (get_or frame.content 19 0))
            identity
            env.eap_config.username in
        env.send_frame w.sent packet ≡ true
        → Sends (state_mach_send_identity_response env (some frame) w) w packet
  unfolding state_mach_send_identity_response respond with_eap_fields
  identity_response-Sends frame w v long plain taken =
      let id = get_or frame.content 19 0 in
      let w1 = set_builder v.builder w in
      let v1 : Ready w1 = again env e w v in
      let b = respond env e identity id w1 v.builder in
      let bytes =
        respond-bytes identity id v.builder w1 env.eap_config.username v1
          (omega (arith, e.username)) refl in
      let (rest, eq, size) =
        build_packet-username env.compute_hash b env.eap_config zeros
          (respond-IsHeader env e identity id v.builder w1 v1 v.header) refl (λ h. absurd (cc)) refl
          (omega (arith, length-zeros, e.username)) in
      rw
        (
          v.built,
          get_elem?-some frame.content 19 0 (omega arith),
          builder_set_eap_fields-packet eap_response identity id env.eap_config
              (set_outgoing_eth_fields w1 v.builder),
        )
        (build_and_send-Sends b _ rest w1 (eq ∙ ap (λ t. some (built t rest)) bytes) plain taken)

  -- An MD5 challenge is answered to its server with the digest of the identifier, the password
  -- and the 16 bytes of the challenge, followed by the user name, when the machine is set up, the
  -- frame has 60 bytes, no plugin is selected and the network takes the response.
  pub challenge_response-Sends :
      (frame : EthEapFrame) (w : World P)
      → Ready w
      → IsRequest (some frame)
      → env.active_plugins ≡ []
      → let id = u8 (get_or frame.content 19 0) in
        let digest =
          env.compute_hash (id ∷ (env.eap_config.password ++ take 16 (drop 24 frame.content))) in
        let packet =
          response_packet w.server_mac w.local_mac id md5_challenge
            (16 ∷ (digest ++ env.eap_config.username)) in
        env.send_frame w.sent packet ≡ true
        → Sends (state_mach_send_challenge_response env (some frame) w) w packet
  unfolding state_mach_send_challenge_response respond builder_set_eap_md5_seed with_eap_fields
      read_bytes
  challenge_response-Sends frame w v long plain taken =
      let id = get_or frame.content 19 0 in
      let seed = take 16 (drop 24 frame.content) in
      let n : length seed ≡ 16 =
        omega (arith, length-take 16 (drop 24 frame.content), length-drop 24 frame.content) in
      let w1 = set_builder v.builder w in
      let v1 : Ready w1 = again env e w v in
      let b = builder_set_eap_md5_seed seed 16 (respond env e md5_challenge id w1 v.builder) in
      let digest = env.compute_hash (u8 id ∷ (env.eap_config.password ++ seed)) in
      let size : length digest ≡ 16 = e.digest _ in
      let len : length (digest ++ env.eap_config.username) ≡ 16 + length env.eap_config.username =
        omega (arith, size, length-append digest env.eap_config.username) in
      let header = respond-IsHeader env e md5_challenge id v.builder w1 v1 v.header in
      let bytes =
        respond-bytes md5_challenge id v.builder w1 (16 ∷ (digest ++ env.eap_config.username)) v1
          (omega (arith, e.username)) refl in
      let (rest, eq, whole) =
        build_packet-challenge env.compute_hash b env.eap_config seed digest zeros header refl refl
          refl (ap some (take_all 16 seed (omega arith))) (λ h. absurd (cc))
          (hash_md5_pwd-some env.compute_hash (u8 id) seed env.eap_config.password n e.password)
          size (omega (arith, length-zeros, e.username)) in
      rw
        (
          v.built,
          get_elem?-some frame.content 19 0 (omega arith),
          builder_set_eap_fields-packet eap_response md5_challenge id env.eap_config
              (set_outgoing_eth_fields w1 v.builder),
          le→leb 40 (length frame.content) (omega arith),
        )
        (build_and_send-Sends b _ rest w1
          (eq
            ∙ ap (λ t. some (built t rest))
                (append_assoc (header_bytes b.frame_header ++ 16 ∷ []) digest
                    env.eap_config.username
                  ∙ append_assoc (header_bytes b.frame_header) (16 ∷ [])
                      (digest ++ env.eap_config.username)
                  ∙ bytes))
          plain taken)
