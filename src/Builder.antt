-- ===== src/Builder.antt =====
-- packet_builder.c: the builder of the standard EAP responses. The MD5 digest of md5.c, a copy of
-- the RSA code, is the parameter `compute_hash`. Allocation succeeds.
pub mod Header
pub mod Packet
use minieap.Prelude.{
  ℕ, zero, suc, ◌+◌, ◌*◌, ◌/◌, ◌%◌, ◌^◌, Bool, true, false, ◌||◌, List, [], ◌∷◌, ◌++◌, Option, none,
  some, leb, ltb, ◌==◌, if◌then◌else◌, length, take, Bytes, u8, u16,
}
use minieap.Prelude.Maybe.{◌>>=◌}
use minieap.Frame.{
  EthernetHeader, EapolHeader, EapHeader, FrameHeader, header_bytes, write_bytes, eap_packet,
  md5_challenge, ethernet_header_size, eapol_header_size, eap_header_size,
}

-- Text ends where its list ends; the NUL is not written out.
pub record EapConfig : Type 0 where
  pub username : Bytes
  pub password : Bytes

abbrev pub md5_challenge_digest_size : ℕ
md5_challenge_digest_size = 16

-- The singleton behind `g_builder`; `none` is a NULL pointer.
pub record PacketBuilder : Type 0 where
  pub frame_header : FrameHeader
  pub eap_config : Option EapConfig
  pub md5_seed : Option Bytes
  pub seed_len : ℕ

-- `field` of `set_eth_field`
pub data EthField : Type 0 where
  field_dst_mac field_src_mac field_eth_proto : EthField

abbrev set_eth : EthField → Bytes → EthernetHeader → EthernetHeader
set_eth field_dst_mac val h = record h { dest_mac = take 6 val }
set_eth field_src_mac val h = record h { src_mac = take 6 val }
set_eth field_eth_proto val h = record h { protocol = take 2 val }

unfoldable pub builder_set_eth_field : EthField → Bytes → PacketBuilder → PacketBuilder
builder_set_eth_field field val b =
    let h = b.frame_header in
    record b { frame_header = record h { eth_hdr = set_eth field val h.eth_hdr } }

-- The two bytes of `htons(n)` in memory.
abbrev pub htons : ℕ → Bytes
htons n = u8 (n / 256) ∷ u8 n ∷ []

-- `_eap_packet_len`
abbrev pub eap_packet_len : (eap_type : ℕ) → EapConfig → ℕ
eap_packet_len eap_type config = u16 (
    eap_header_size
    + length config.username
    + (if eap_type == md5_challenge then md5_challenge_digest_size + 1 else 0))

-- A read of the configuration through a NULL pointer is `none`.
unfoldable pub builder_set_eap_fields :
    (eapol_type code eap_type id : ℕ) → Option EapConfig → PacketBuilder → Option PacketBuilder
builder_set_eap_fields eapol_type code eap_type id config b =
    let h = b.frame_header in
    if eapol_type == eap_packet
    then (do
      cfg ← config
      let len = htons (eap_packet_len eap_type cfg)
      some (record b {
        frame_header = record h {
          eapol_hdr = record { ver = 1; type = u8 eapol_type; len = len };
          eap_hdr = record { code = u8 code; id = u8 id; len = len; type = u8 eap_type };
        };
        eap_config = config;
      }))
    else some (record b {
      frame_header = record h {
        eapol_hdr = record { ver = 1; type = u8 eapol_type; len = 0 ∷ 0 ∷ [] };
      };
    })

unfoldable pub builder_set_eap_md5_seed : Bytes → (seed_len : ℕ) → PacketBuilder → PacketBuilder
builder_set_eap_md5_seed md5_seed seed_len b =
    if leb seed_len 0
    then b
    else record b { md5_seed = some (take seed_len md5_seed); seed_len = seed_len }

-- The size of `md5Src`
abbrev pub md5_src_size : ℕ
md5_src_size = 80

-- What `build_packet` returns, `none` for -1, and the buffer that it has written to.
abbrev pub Built : Type 0
Built = record { len : Option ℕ; buffer : Bytes }

-- "Common Routine: Username"
append_username : EapConfig → Bytes → (copied_bytes : ℕ) → Option Built
append_username config buffer copied_bytes = do
  buffer ← write_bytes buffer copied_bytes config.username
  some (record { len = some (copied_bytes + length config.username); buffer = buffer })

module _ (compute_hash : Bytes → Bytes) where
  -- `none` is a write behind the end of `md5Src`.
  unfoldable pub hash_md5_pwd : (id : ℕ) → (md5_seed : Bytes) → (password : Bytes) → Option Bytes
  hash_md5_pwd id md5_seed password =
      if leb (1 + length password + length md5_seed) md5_src_size
      then some (compute_hash (id ∷ (password ++ md5_seed)))
      else none

  append_challenge : EapConfig → PacketBuilder → Bytes → (copied_bytes : ℕ) → Bytes → Option Built
  unfolding append_username hash_md5_pwd
  append_challenge config b buffer copied_bytes md5_seed = do
    challenge ← hash_md5_pwd b.frame_header.eap_hdr.id md5_seed config.password
    buffer ← write_bytes buffer copied_bytes (md5_challenge_digest_size ∷ [])
    buffer ← write_bytes buffer (copied_bytes + 1) (take md5_challenge_digest_size challenge)
    append_username config buffer (copied_bytes + 1 + md5_challenge_digest_size)

  -- `none` is a fault: a write outside the buffer or a read through a NULL pointer.
  unfoldable pub builder_build_packet : PacketBuilder → (buffer : Bytes) → Option Built
  unfolding append_username append_challenge
  builder_build_packet b buffer = do
    buffer ← write_bytes buffer 0 (header_bytes b.frame_header)
    let copied_bytes = ethernet_header_size + eapol_header_size
    if b.frame_header.eapol_hdr.type == eap_packet
        then (do
          config ← b.eap_config
          let copied_bytes = copied_bytes + eap_header_size
          if b.frame_header.eap_hdr.type == md5_challenge
              then elim b.md5_seed [
                | none ↦ some (record { len = none; buffer = buffer })
                | some md5_seed ↦
                    if b.seed_len == 0
                    then some (record { len = none; buffer = buffer })
                    else append_challenge config b buffer copied_bytes md5_seed
              ]
              else append_username config buffer copied_bytes)
        else some (record { len = some copied_bytes; buffer = buffer })

-- The state behind `memset(this->priv, 0, ...)`
abbrev pub zero_header : FrameHeader
zero_header = record {
  eth_hdr = record {
    dest_mac = 0 ∷ 0 ∷ 0 ∷ 0 ∷ 0 ∷ 0 ∷ [];
    src_mac = 0 ∷ 0 ∷ 0 ∷ 0 ∷ 0 ∷ 0 ∷ [];
    protocol = 0 ∷ 0 ∷ [];
  };
  eapol_hdr = record { ver = 0; type = 0; len = 0 ∷ 0 ∷ [] };
  eap_hdr = record { code = 0; id = 0; len = 0 ∷ 0 ∷ []; type = 0 };
}

abbrev pub packet_builder_new : PacketBuilder
packet_builder_new = record {
  frame_header = zero_header;
  eap_config = none;
  md5_seed = none;
  seed_len = 0;
}

-- The instance, made at the first call.
unfoldable pub packet_builder_get : Option PacketBuilder → PacketBuilder
packet_builder_get none = packet_builder_new
packet_builder_get (some builder) = builder

unfoldable pub packet_builder_destroy : Option PacketBuilder → Option PacketBuilder
packet_builder_destroy builder = none
