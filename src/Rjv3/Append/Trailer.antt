-- ===== src/Rjv3/Append/Trailer.antt =====
-- packet_plugin_rjv3_priv.c: the lists of properties and their header, behind the frame.
use minieap.Prelude.{
  ℕ, ◌-◌, ◌/◌, ◌%◌, Bool, true, false, ◌||◌, List, [], ◌∷◌, ◌++◌, Option, none, some, leb, ◌==◌,
  if◌then◌else◌, take, drop, replicate, get_elem?, Bytes,
}
use minieap.Prelude.Int.{ℤ, pos, negsuc, is_pos, ltb_ℤ, ◌+ℤ◌}
use minieap.Prelude.Maybe.{◌>>=◌}
use minieap.Frame.{
  EthEapFrame, write_bytes, append_to_frame, free_frame, eapol_type_offset, eapol_start,
  eapol_logoff,
}
use minieap.Rjv3.Prop.{
  RjProp, modify_rjv3_prop_list, append_rjv3_prop_list_to_buffer, append_content,
}
use minieap.Rjv3.Options.{RjOptions}
use minieap.Rjv3.Session.{RjPriv, Net, is_dhcp_type}
use minieap.Rjv3.Append.{
  Host, buf_size, is_md5_frame, rjv3_append_common_fields, rjv3_append_priv_header,
}

abbrev pub Appended : Type 0
Appended = record { ok : Bool; frame : EthEapFrame }

-- `_props_len` where it serves as an offset into the buffer.
abbrev pub offset_of : (props_len : ℤ) → Option ℕ
offset_of (pos n) = if leb n buf_size then some n else none
offset_of (negsuc n) = none

-- `logoffReason`, the magic bytes and the length.
abbrev pub outside : (props_len : ℕ) → Bytes
outside props_len = 0 ∷ 0 ∷ 0 ∷ 0x13 ∷ 0x11 ∷ (props_len / 256 % 256) ∷ (props_len % 256) ∷ []

unfoldable pub append_buffer : (props_len : ℕ) → (buf : Bytes) → EthEapFrame → Option Appended
unfolding append_content
append_buffer props_len buf frame = do
  f1 ← append_to_frame frame (outside props_len)
  frame ← append_content f1.1 buf (pos props_len)
  some (record { ok = true; frame = frame })

-- From `append_rjv3_prop_list_to_buffer` of the list from the command line on.
unfoldable pub append_cmd_props :
    (cmd_prop_list : List RjProp) → (props_len : ℤ) → (buf : Bytes) → EthEapFrame → Option Appended
unfolding append_rjv3_prop_list_to_buffer append_buffer
append_cmd_props cmd_prop_list props_len buf frame = do
  n ← offset_of props_len
  r ← append_rjv3_prop_list_to_buffer cmd_prop_list (drop n buf) (buf_size - n)
  if ltb_ℤ r.result (pos 0) then some (record { ok = false; frame = frame }) else (do
    total ← offset_of (props_len +ℤ r.result)
    append_buffer total (take n buf ++ r.buf) frame)

-- From `modify_rjv3_prop_list` on.
unfoldable pub append_props : RjOptions → (prop_list : List RjProp) → EthEapFrame → Option Appended
unfolding modify_rjv3_prop_list append_rjv3_prop_list_to_buffer append_cmd_props
append_props options prop_list frame = do
  m ← modify_rjv3_prop_list prop_list options.cmd_prop_mod_list
  r ← append_rjv3_prop_list_to_buffer m.list (replicate buf_size 0) buf_size
  if is_pos r.result
      then append_cmd_props options.cmd_prop_list (m.result +ℤ r.result) r.buf frame
      else some (record { ok = false; frame = frame })

-- The group address of the plugin, for EAPOL-Start.
unfoldable pub rjv3_apply_bcast_addr : (bcast_addr : ℤ) → EthEapFrame → Option EthEapFrame
rjv3_apply_bcast_addr bcast_addr frame =
    if is_dhcp_type 1 bcast_addr
    then (do
      type ← get_elem? frame.content eapol_type_offset
      if type == eapol_start
          then (do
            content ← write_bytes frame.content 0 (0x01 ∷ 0xd0 ∷ 0xf8 ∷ 0 ∷ 0 ∷ 0x03 ∷ [])
            some (record frame { content = content }))
          else some frame)
    else some frame

unfoldable pub rjv3_append_priv : Host → Net → RjPriv → EthEapFrame → Option Appended
unfolding rjv3_apply_bcast_addr rjv3_append_priv_header rjv3_append_common_fields append_props
rjv3_append_priv host net s frame = do
  frame ← rjv3_apply_bcast_addr s.options.bcast_addr frame
  frame ← rjv3_append_priv_header net s frame
  md5 ← is_md5_frame (some frame)
  list ← rjv3_append_common_fields host net s md5
  append_props s.options list frame

-- The frame's result, with the plugin's state.
unfoldable pub rjv3_prepare_frame :
    Host → Net → EthEapFrame → RjPriv → Option (record { result : Appended; after : RjPriv })
unfolding rjv3_append_priv free_frame
rjv3_prepare_frame host net frame s = do
  type ← get_elem? frame.content eapol_type_offset
  let s =
      if type == eapol_start || type == eapol_logoff
      then record s { md5_request = free_frame s.md5_request }
      else s
  r ← rjv3_append_priv host net s frame
  some (record { result = r; after = s })
