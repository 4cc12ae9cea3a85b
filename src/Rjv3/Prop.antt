-- ===== src/Rjv3/Prop.antt =====
-- packet_plugin_rjv3_prop.c: private properties in lists, in buffers and in frames. Allocation
-- succeeds, and `none` is a read or a write outside the memory behind a pointer.
pub mod Parse
pub mod Layout
pub mod RoundTrip
pub mod Modify
pub mod FrameEnd
pub mod Edges
use minieap.Prelude.{
  ℕ, zero, suc, ◌+◌, ◌-◌, ◌*◌, ◌%◌, ◌^◌, Bool, true, false, ◌||◌, List, [], ◌∷◌, ◌++◌, Option, none,
  some, leb, ltb, ◌==◌, if◌then◌else◌, length, take, drop, get_or, Bytes, u8,
}
use minieap.Prelude.Int.{
  ℤ, pos, negsuc, pos_part, neg_part, sub_ℕ, ◌+ℤ◌, u8_ℤ, to_int, is_pos, ltb_ℤ,
}
use minieap.Prelude.Maybe.{◌>>=◌}
use minieap.LinkedList.{insert_data, lookup_data, remove_data, list_destroy}
use minieap.Plugins.{text_eq}
use minieap.Frame.{EthEapFrame, read_bytes, write_bytes, size_t, append_to_frame}

-- RJ_PROP with its two headers. `content` is the memory behind the pointer, [] for NULL.
pub record RjProp : Type 0 where
  pub header_type : ℕ
  pub header_len : ℕ
  pub magic : Bytes
  pub type : ℕ
  pub len : ℕ
  pub content : Bytes

-- sizeof
abbrev pub rj_prop_header1_size : ℕ
rj_prop_header1_size = 2

abbrev pub rj_prop_header2_size : ℕ
rj_prop_header2_size = 6

abbrev pub header2_size_no_magic : ℕ
header2_size_no_magic = 2

abbrev pub prop_magic : Bytes
prop_magic = 0x00 ∷ 0x00 ∷ 0x13 ∷ 0x11 ∷ []

-- PROP_TO_CONTENT_SIZE as an `int`
abbrev pub prop_to_content_size : (header2_len : ℕ) → ℤ
prop_to_content_size header2_len = sub_ℕ header2_len header2_size_no_magic

-- The property that `new_rjv3_prop` and the writes behind it make. The type is one byte.
abbrev pub prop_of : (type : ℕ) → (content : Bytes) → (len : ℤ) → RjProp
prop_of type content len = record {
  header_type = 0x1a;
  header_len = u8_ℤ (len +ℤ pos (rj_prop_header1_size + rj_prop_header2_size));
  magic = prop_magic;
  type = u8 type;
  len = u8_ℤ (len +ℤ pos header2_size_no_magic);
  content = content;
}

-- `memdup` under the test of the length, the NULL of an empty content being [].
abbrev pub dup_content : Bytes → (len : ℤ) → Option Bytes
dup_content content len = if is_pos len then read_bytes content 0 (pos_part len) else some []

unfoldable pub append_rjv3_prop :
    List RjProp
    → (type : ℕ) → (content : Bytes) → (len : ℤ)
    → Option (record { list : List RjProp; result : ℕ })
append_rjv3_prop list type content len = do
  buf ← dup_content content len
  let prop = prop_of type buf len
  some (record { list = insert_data list prop; result = prop.header_len })

abbrev pub rjv3_type_prop_compare : (type : ℕ) → RjProp → Bool
rjv3_type_prop_compare type src = src.type == type

-- The first property of the type is changed in place; the result is the change of its length.
unfoldable pub modify_rjv3_prop :
    List RjProp
    → (type : ℕ) → (content : Bytes) → (len : ℤ)
    → Option (record { list : List RjProp; result : ℤ })
modify_rjv3_prop [] type content len = some (record { list = []; result = pos 0 })
modify_rjv3_prop (prop ∷ list) type content len =
    let rest = modify_rjv3_prop list type content len in
    if rjv3_type_prop_compare type prop
    then (do
      buf ← dup_content content len
      let new_len = u8_ℤ (len +ℤ pos header2_size_no_magic)
      let changed : RjProp = record prop {
        content = buf;
        len = new_len;
        header_len = u8_ℤ (len +ℤ pos (rj_prop_header1_size + rj_prop_header2_size));
      }
      some (record { list = changed ∷ list; result = sub_ℕ new_len prop.len }))
    else (do r ← rest; some (record { list = prop ∷ r.list; result = r.result }))

-- The loop of `modify_rjv3_prop_list`, with the sum so far.
unfoldable pub modify_from :
    List RjProp
    → (mods : List RjProp) → (delta : ℤ) → Option (record { list : List RjProp; result : ℤ })
modify_from org [] delta = some (record { list = org; result = delta })
modify_from org (curr ∷ mods) delta = do
  r ← modify_rjv3_prop org curr.type curr.content (prop_to_content_size curr.len)
  modify_from r.list mods (delta +ℤ r.result)

unfoldable pub modify_rjv3_prop_list :
    List RjProp → (mods : List RjProp) → Option (record { list : List RjProp; result : ℤ })
unfolding modify_from
modify_rjv3_prop_list org mods = modify_from org mods (pos 0)

unfoldable pub remove_rjv3_prop : List RjProp → (type : ℕ) → List RjProp
unfolding remove_data
remove_rjv3_prop list type = remove_data list type rjv3_type_prop_compare

unfoldable pub find_rjv3_prop : List RjProp → (type : ℕ) → Option RjProp
unfolding lookup_data
find_rjv3_prop list type = lookup_data list type rjv3_type_prop_compare

-- The bytes of the two headers in memory.
abbrev pub header1_bytes : RjProp → Bytes
header1_bytes prop = prop.header_type ∷ prop.header_len ∷ []

abbrev pub header2_bytes : RjProp → Bytes
header2_bytes prop = prop.magic ++ prop.type ∷ prop.len ∷ []

abbrev pub Written : Type 0
Written = record { result : ℤ; buf : Bytes }

-- `buf` is the whole memory, and the pointer that is passed is `offset` bytes into it.
unfoldable pub append_rjv3_prop_to_buffer :
    RjProp → (buf : Bytes) → (offset : ℕ) → (buflen : ℤ) → Option Written
append_rjv3_prop_to_buffer prop buf offset buflen =
    let content_len = prop_to_content_size prop.len in
    let full_len = content_len +ℤ pos (rj_prop_header1_size + rj_prop_header2_size) in
    if ltb_ℤ buflen full_len
    then some (record { result = negsuc 0; buf = buf })
    else if prop.header_type == 0x1a
    then (do
      buf ← write_bytes buf offset (header1_bytes prop)
      buf ← write_bytes buf (offset + rj_prop_header1_size) (header2_bytes prop)
      content ← dup_content prop.content content_len
      buf ← write_bytes buf (offset + rj_prop_header1_size + rj_prop_header2_size) content
      some (record { result = full_len; buf = buf }))
    else some (record { result = pos 0; buf = buf })

-- `(size_t) a`
abbrev pub size_t_ℤ : ℤ → ℕ
size_t_ℤ (pos n) = size_t n
size_t_ℤ (negsuc n) = 2 ^ 64 - 1 - size_t n

-- The loop of `append_rjv3_prop_list_to_buffer`; a single length of -1 is the largest `size_t`.
unfoldable pub append_list_from :
    List RjProp → (buf : Bytes) → (buflen : ℕ) → (props_len : ℕ) → Option Written
unfolding append_rjv3_prop_to_buffer
append_list_from [] buf buflen props_len = some (record { result = to_int props_len; buf = buf })
append_list_from (curr ∷ list) buf buflen props_len = do
  r ← append_rjv3_prop_to_buffer curr buf props_len (to_int (size_t (buflen + 2 ^ 64 - props_len)))
  let single_len = size_t_ℤ r.result
  if ltb 0 single_len
      then append_list_from list r.buf buflen (size_t (props_len + single_len))
      else some (record { result = negsuc 0; buf = r.buf })

unfoldable pub append_rjv3_prop_list_to_buffer :
    List RjProp → (buf : Bytes) → (buflen : ℕ) → Option Written
unfolding append_list_from
append_rjv3_prop_list_to_buffer list buf buflen = append_list_from list buf buflen 0

-- `append_to_frame` of the content, with the `int` length turned into a `size_t`. The content is
-- read only if it is taken to fit.
unfoldable pub append_content :
    EthEapFrame → (content : Bytes) → (content_len : ℤ) → Option EthEapFrame
append_content frame content content_len =
    let len = size_t_ℤ content_len in
    if ltb frame.buffer_len (size_t (frame.actual_len + len))
    then some frame
    else (do bytes ← read_bytes content 0 len; r ← append_to_frame frame bytes; some r.1)

-- The results of the three calls are not looked at.
unfoldable pub append_parts : EthEapFrame → RjProp → (content_len : ℤ) → Option EthEapFrame
unfolding append_content
append_parts frame prop content_len = do
  r1 ← append_to_frame frame (header1_bytes prop)
  r2 ← append_to_frame r1.1 (header2_bytes prop)
  append_content r2.1 prop.content content_len

-- The length of a property of type 0x1a is taken to cover its own two bytes.
unfoldable pub append_rjv3_prop_to_frame : RjProp → EthEapFrame → Option EthEapFrame
unfolding append_parts
append_rjv3_prop_to_frame prop frame =
    if prop.header_type == 0x1a
    then append_parts frame prop (prop_to_content_size prop.len)
    else if prop.header_type == 0x02
    then append_parts frame prop (pos (prop.len + prop.type * 256))
    else some frame

unfoldable pub destroy_rjv3_prop_list : List RjProp → List RjProp
unfolding list_destroy
destroy_rjv3_prop_list list = list_destroy list
