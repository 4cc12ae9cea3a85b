-- ===== src/Builder/Packet.antt =====
-- The packets that packet_builder.c builds, byte for byte.
use minieap.Prelude.{
  ℕ, ◌+◌, ◌-◌, ◌≤◌, ◌≡◌, ◌≢◌, refl, sym, ap, ap₂, le→leb, ≢→==, ≡→==, ◌∙◌, [], ◌∷◌, ◌++◌, some,
  arith, length, take, drop, Bytes, length-append, length-drop, take-append, take_all,
  drop-append_add, append_assoc,
}
use minieap.Frame.{FrameHeader, header_bytes, write_bytes, eap_packet, md5_challenge}
use minieap.Builder.{
  EapConfig, PacketBuilder, Built, hash_md5_pwd, append_username, append_challenge,
  builder_build_packet,
}
use minieap.Builder.Header.{IsHeader, length-header_bytes}

-- A write behind a prefix of known length.
pub write_bytes-append :
    (pre rest src : Bytes) (n : ℕ)
    → n ≡ length pre
    → length src ≤ length rest
    → write_bytes (pre ++ rest) n src ≡ some ((pre ++ src) ++ drop (length src) rest)
unfolding write_bytes
write_bytes-append pre rest src n e h =
    let room : n + length src ≤ length (pre ++ rest) = omega (arith, length-append pre rest) in
    rw (le→leb _ _ room) (
      ap some (
        ap₂ (λ xs ys. xs ++ (src ++ ys)) (ap (λ k. take k (pre ++ rest)) e ∙ take-append pre rest)
          (drop-append_add pre rest (n + length src) (length src) (omega arith))
        ∙ sym (append_assoc pre src (drop (length src) rest))))

abbrev pub built : (pre rest : Bytes) → Built
built pre rest = record { len = some (length pre); buffer = pre ++ rest }

append_username-built :
    (cfg : EapConfig) (pre rest : Bytes) (n : ℕ)
    → n ≡ length pre
    → length cfg.username ≤ length rest
    → append_username cfg (pre ++ rest) n
      ≡ some (built (pre ++ cfg.username) (drop (length cfg.username) rest))
unfolding append_username
append_username-built cfg pre rest n e h =
    let whole : n + length cfg.username ≡ length (pre ++ cfg.username) =
      omega (arith, length-append pre cfg.username) in
    rw (write_bytes-append pre rest cfg.username n e h, whole)

-- The bytes in front of the EAP type data.
header_written :
    (h : FrameHeader) (buffer : Bytes)
    → IsHeader h
    → 23 ≤ length buffer
    → write_bytes buffer 0 (header_bytes h) ≡ some (header_bytes h ++ drop 23 buffer)
header_written h buffer v room =
    write_bytes-append [] buffer (header_bytes h) 0 refl (omega (arith, length-header_bytes h v))
    ∙ ap (λ n. some (header_bytes h ++ drop n buffer)) (length-header_bytes h v)

module _ (compute_hash : Bytes → Bytes) where
  -- A response without type data, such as Response-Identity, is the header and the user name.
  pub build_packet-username :
      (b : PacketBuilder) (cfg : EapConfig) (buffer : Bytes)
      → IsHeader b.frame_header
      → b.frame_header.eapol_hdr.type ≡ eap_packet
      → b.frame_header.eap_hdr.type ≢ md5_challenge
      → b.eap_config ≡ some cfg
      → 23 + length cfg.username ≤ length buffer
      → (rest : Bytes) × (builder_build_packet compute_hash b buffer
          ≡ some (built (header_bytes b.frame_header ++ cfg.username) rest))
        × (length ((header_bytes b.frame_header ++ cfg.username) ++ rest) ≡ length buffer)
  unfolding builder_build_packet
  build_packet-username b cfg buffer v packet other c room = (
    drop (length cfg.username) (drop 23 buffer),
    rw (header_written b.frame_header buffer v (omega arith), ≡→== _ _ packet, c, ≢→== _ _ other)
        (append_username-built cfg (header_bytes b.frame_header) (drop 23 buffer) 23
          (sym (length-header_bytes b.frame_header v)) (omega (arith, length-drop 23 buffer))),
    rw (length-append, length-append, length-drop, length-drop)
        (omega (arith, length-header_bytes b.frame_header v)),
  )

  append_challenge-built :
      (b : PacketBuilder) (cfg : EapConfig) (seed digest pre rest : Bytes)
      → hash_md5_pwd compute_hash b.frame_header.eap_hdr.id seed cfg.password ≡ some digest
      → length digest ≡ 16
      → length pre ≡ 23
      → 17 + length cfg.username ≤ length rest
      → append_challenge compute_hash cfg b (pre ++ rest) 23 seed
        ≡ some (
            built
              (((pre ++ 16 ∷ []) ++ digest) ++ cfg.username)
              (drop (length cfg.username) (drop (length digest) (drop 1 rest))))
  unfolding append_challenge
  append_challenge-built b cfg seed digest pre rest hash size n room =
      let one : length (drop 1 rest) ≡ length rest - 1 = length-drop 1 rest in
      let two : length (drop (length digest) (drop 1 rest)) ≡ length (drop 1 rest) - length digest =
        length-drop (length digest) (drop 1 rest) in
      let pre1 : length (pre ++ 16 ∷ []) ≡ 24 = omega (arith, length-append pre (16 ∷ [])) in
      rw
        (
          hash,
          write_bytes-append pre rest (16 ∷ []) 23 (sym n) (omega arith),
          take_all 16 digest (omega arith),
          write_bytes-append (pre ++ 16 ∷ []) (drop 1 rest) digest 24 (sym pre1) (omega arith),
        )
        (append_username-built cfg ((pre ++ 16 ∷ []) ++ digest) (drop (length digest) (drop 1 rest))
          40 (omega (arith, length-append (pre ++ 16 ∷ []) digest)) (omega arith))

  -- A challenge response is the header, the size of the digest, the digest and the user name.
  pub build_packet-challenge :
      (b : PacketBuilder) (cfg : EapConfig) (seed digest buffer : Bytes)
      → IsHeader b.frame_header
      → b.frame_header.eapol_hdr.type ≡ eap_packet
      → b.frame_header.eap_hdr.type ≡ md5_challenge
      → b.eap_config ≡ some cfg
      → b.md5_seed ≡ some seed
      → b.seed_len ≢ 0
      → hash_md5_pwd compute_hash b.frame_header.eap_hdr.id seed cfg.password ≡ some digest
      → length digest ≡ 16
      → 40 + length cfg.username ≤ length buffer
      → (rest : Bytes) × (builder_build_packet compute_hash b buffer
          ≡ some
              (built (((header_bytes b.frame_header ++ 16 ∷ []) ++ digest) ++ cfg.username) rest))
        × (length ((((header_bytes b.frame_header ++ 16 ∷ []) ++ digest) ++ cfg.username) ++ rest)
            ≡ length buffer)
  unfolding builder_build_packet
  build_packet-challenge b cfg seed digest buffer v packet md5 c sd sl hash size room = (
    drop (length cfg.username) (drop (length digest) (drop 1 (drop 23 buffer))),
    rw
        (
          header_written b.frame_header buffer v (omega arith),
          ≡→== _ _ packet,
          c,
          ≡→== _ _ md5,
          sd,
          ≢→== _ _ sl,
        )
        (append_challenge-built b cfg seed digest (header_bytes b.frame_header) (drop 23 buffer)
          hash size (length-header_bytes b.frame_header v) (omega (arith, length-drop 23 buffer))),
    rw
        (
          length-append, length-append, length-append, length-append, length-drop, length-drop,
          length-drop, length-drop,
        )
        (omega (arith, length-header_bytes b.frame_header v)),
  )

  -- EAPOL-Start and the other packets that have no EAP header are 18 bytes of the header.
  pub build_packet-simple :
      (b : PacketBuilder) (buffer : Bytes)
      → IsHeader b.frame_header
      → b.frame_header.eapol_hdr.type ≢ eap_packet
      → 23 ≤ length buffer
      → builder_build_packet compute_hash b buffer
        ≡ some (record { len = some 18; buffer = header_bytes b.frame_header ++ drop 23 buffer })
  unfolding builder_build_packet
  build_packet-simple b buffer v other room =
      rw (header_written b.frame_header buffer v room, ≢→== _ _ other)
