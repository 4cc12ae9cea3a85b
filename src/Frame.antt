-- ===== src/Frame.antt =====
-- include/eth_frame.h and util/packet_util.c: frames, and the helpers that copy and extend them.
pub mod Bounds
use minieap.Prelude.{
  ℕ, ◌+◌, ◌*◌, ◌%◌, ◌^◌, Bool, true, false, List, [], ◌∷◌, ◌++◌, Option, none, some, ltb, leb, ◌==◌,
  if◌then◌else◌, length, take, drop, get_elem?, Bytes,
}

-- EAP_CODE
abbrev pub eap_request : ℕ
eap_request = 1

abbrev pub eap_response : ℕ
eap_response = 2

abbrev pub eap_success : ℕ
eap_success = 3

abbrev pub eap_failure : ℕ
eap_failure = 4

-- EAPOL_TYPE
abbrev pub eap_packet : ℕ
eap_packet = 0

abbrev pub eapol_start : ℕ
eapol_start = 1

abbrev pub eapol_logoff : ℕ
eapol_logoff = 2

abbrev pub eapol_rj_proprietary_keepalive : ℕ
eapol_rj_proprietary_keepalive = 0xbf

-- EAP_TYPE
abbrev pub identity : ℕ
identity = 1

abbrev pub md5_challenge : ℕ
md5_challenge = 4

pub record EthernetHeader : Type 0 where
  pub dest_mac : Bytes
  pub src_mac : Bytes
  pub protocol : Bytes

pub record EapolHeader : Type 0 where
  pub ver : ℕ
  pub type : ℕ
  pub len : Bytes

pub record EapHeader : Type 0 where
  pub code : ℕ
  pub id : ℕ
  pub len : Bytes
  pub type : ℕ

pub record FrameHeader : Type 0 where
  pub eth_hdr : EthernetHeader
  pub eapol_hdr : EapolHeader
  pub eap_hdr : EapHeader

-- The bytes of a header in memory: the structures hold arrays of `unsigned char` only, so there is
-- no padding between them.
unfoldable pub header_bytes : FrameHeader → Bytes
header_bytes h =
    h.eth_hdr.dest_mac
    ++ (h.eth_hdr.src_mac
        ++ (h.eth_hdr.protocol
            ++ (h.eapol_hdr.ver
                ∷ h.eapol_hdr.type
                ∷ (h.eapol_hdr.len
                    ++ (h.eap_hdr.code ∷ h.eap_hdr.id ∷ (h.eap_hdr.len ++ h.eap_hdr.type ∷ []))))))

-- sizeof
abbrev pub ethernet_header_size : ℕ
ethernet_header_size = 14

abbrev pub eapol_header_size : ℕ
eapol_header_size = 4

abbrev pub eap_header_size : ℕ
eap_header_size = 5

abbrev pub frame_header_size : ℕ
frame_header_size = 23

-- `content` is the memory that the pointer leads to, up to the end of its allocation.
pub record EthEapFrame : Type 0 where
  pub actual_len : ℕ
  pub buffer_len : ℕ
  pub content : Bytes

-- The fields that are read through `header`: the byte at their offset, `none` past the allocation.
abbrev pub eapol_type_offset : ℕ
eapol_type_offset = 15

abbrev pub eap_code_offset : ℕ
eap_code_offset = 18

abbrev pub eap_id_offset : ℕ
eap_id_offset = 19

abbrev pub eap_type_offset : ℕ
eap_type_offset = 22

abbrev pub src_mac_offset : ℕ
src_mac_offset = 6

-- `n` bytes from `offset` on, `none` past the allocation.
unfoldable pub read_bytes : Bytes → (offset n : ℕ) → Option Bytes
read_bytes xs offset n =
    if leb (offset + n) (length xs) then some (take n (drop offset xs)) else none

-- `memmove(buf + offset, src, length)`, `none` past the allocation.
unfoldable pub write_bytes : Bytes → (offset : ℕ) → Bytes → Option Bytes
write_bytes buf offset src =
    if leb (offset + length src) (length buf)
    then some (take offset buf ++ (src ++ drop (offset + length src) buf))
    else none

-- size_t arithmetic
abbrev pub size_t : ℕ → ℕ
size_t n = n % 2 ^ 64

-- `none` is a write outside the allocation; else the result says whether the call succeeds.
unfoldable pub append_to_frame : EthEapFrame → Bytes → Option (Bool × EthEapFrame)
append_to_frame frame src =
    if ltb frame.buffer_len (size_t (frame.actual_len + length src))
    then some (false, frame)
    else elim (write_bytes frame.content frame.actual_len src) [
      | none ↦ none
      | some buf ↦ some (
        true,
        record frame { content = buf; actual_len = size_t (frame.actual_len + length src) },
      )
    ]

-- Allocation succeeds. The copy has room for `actual_len` bytes.
unfoldable pub frame_duplicate : EthEapFrame → EthEapFrame
frame_duplicate frame = record {
  actual_len = frame.actual_len;
  buffer_len = frame.buffer_len;
  content = take frame.actual_len frame.content;
}

-- The reference is cleared.
unfoldable pub free_frame : Option EthEapFrame → Option EthEapFrame
free_frame frame = none
