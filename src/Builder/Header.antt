-- ===== src/Builder/Header.antt =====
-- The setters of packet_builder.c, the header that they keep well formed, and the size of `md5Src`.
use minieap.Prelude.{
  ℕ, ◌+◌, ◌*◌, ◌^◌, ◌≤◌, ◌<◌, ◌≡◌, refl, [], ◌∷◌, ◌++◌, some, arith, length, Bytes, length-append,
  length-take, u8,
}
use minieap.Frame.{FrameHeader, header_bytes, eap_packet, frame_header_size}
use minieap.Builder.{
  EapConfig, PacketBuilder, EthField, field_dst_mac, field_src_mac, field_eth_proto, htons,
  eap_packet_len, builder_set_eth_field, builder_set_eap_fields, hash_md5_pwd,
}

-- The arrays of a header have their sizes.
pub record IsHeader (h : FrameHeader) : Type 0 where
  pub dest_mac : length h.eth_hdr.dest_mac ≡ 6
  pub src_mac : length h.eth_hdr.src_mac ≡ 6
  pub protocol : length h.eth_hdr.protocol ≡ 2
  pub eapol_len : length h.eapol_hdr.len ≡ 2
  pub eap_len : length h.eap_hdr.len ≡ 2

pub length-header_bytes :
    (h : FrameHeader) → IsHeader h → length (header_bytes h) ≡ frame_header_size
unfolding header_bytes
length-header_bytes h v =
    rw (length-append, length-append, length-append, length-append, length-append) (omega arith)

-- The number of bytes that a field takes.
abbrev pub field_size : EthField → ℕ
field_size field_dst_mac = 6
field_size field_src_mac = 6
field_size field_eth_proto = 2

pub builder_set_eth_field-IsHeader :
    (field : EthField) (val : Bytes) (b : PacketBuilder)
    → field_size field ≤ length val
    → IsHeader b.frame_header
    → IsHeader (builder_set_eth_field field val b).frame_header
unfolding builder_set_eth_field
builder_set_eth_field-IsHeader field_dst_mac val b n v = record {
  dest_mac = omega (arith, length-take 6 val);
  src_mac = v.src_mac;
  protocol = v.protocol;
  eapol_len = v.eapol_len;
  eap_len = v.eap_len;
}
builder_set_eth_field-IsHeader field_src_mac val b n v = record {
  dest_mac = v.dest_mac;
  src_mac = omega (arith, length-take 6 val);
  protocol = v.protocol;
  eapol_len = v.eapol_len;
  eap_len = v.eap_len;
}
builder_set_eth_field-IsHeader field_eth_proto val b n v = record {
  dest_mac = v.dest_mac;
  src_mac = v.src_mac;
  protocol = omega (arith, length-take 2 val);
  eapol_len = v.eapol_len;
  eap_len = v.eap_len;
}

-- The number in two bytes, first byte first.
abbrev pub ntohs : Bytes → ℕ
ntohs [] = 0
ntohs (hi ∷ []) = hi
ntohs (hi ∷ lo ∷ rest) = hi * 256 + lo

pub ntohs-htons : (n : ℕ) → n < 2 ^ 16 → ntohs (htons n) ≡ n
ntohs-htons n h = omega arith

-- The builder with the header fields of an EAP packet.
unfoldable pub with_eap_fields : (code eap_type id : ℕ) → EapConfig → PacketBuilder → PacketBuilder
with_eap_fields code eap_type id cfg b =
    let h = b.frame_header in
    let len = htons (eap_packet_len eap_type cfg) in
    record b {
      frame_header = record h {
        eapol_hdr = record { ver = 1; type = 0; len = len };
        eap_hdr = record { code = u8 code; id = u8 id; len = len; type = u8 eap_type };
      };
      eap_config = some cfg;
    }

pub builder_set_eap_fields-packet :
    (code eap_type id : ℕ) (cfg : EapConfig) (b : PacketBuilder)
    → builder_set_eap_fields eap_packet code eap_type id (some cfg) b
      ≡ some (with_eap_fields code eap_type id cfg b)
unfolding builder_set_eap_fields with_eap_fields
builder_set_eap_fields-packet code eap_type id cfg b = refl

pub hash_md5_pwd-some :
    (compute_hash : Bytes → Bytes) (id : ℕ) (seed password : Bytes)
    → length seed ≡ 16
    → length password < 64
    → hash_md5_pwd compute_hash id seed password ≡ some (compute_hash (id ∷ (password ++ seed)))
unfolding hash_md5_pwd
hash_md5_pwd-some compute_hash id seed password h n = ground arith
