-- ===== src/Rjv3/Prop/Parse.antt =====
-- The parser of packet_plugin_rjv3_prop.c: the properties in a received buffer.
use minieap.Prelude.{
  ℕ, zero, suc, ◌+◌, ◌-◌, Bool, true, false, ◌||◌, List, Option, none, some, ltb, ◌==◌,
  if◌then◌else◌, take, drop, get_or, Bytes,
}
use minieap.Prelude.Int.{ℤ, pos, pos_part, neg_part, sub_ℕ}
use minieap.Prelude.Maybe.{◌>>=◌}
use minieap.Plugins.{text_eq}
use minieap.Frame.{read_bytes}
use minieap.Rjv3.Prop.{
  RjProp, prop_magic, rj_prop_header1_size, rj_prop_header2_size, prop_to_content_size,
  append_rjv3_prop,
}

-- The loop of `find_byte_pattern`, for `rounds` more positions; the result is an offset.
find_from :
    (rounds : ℕ) → (pattern : Bytes) → (patlen : ℕ) → (buf : Bytes) → (read_len : ℕ) → Option ℕ
find_from zero pattern patlen buf read_len = none
find_from (suc rounds) pattern patlen buf read_len =
    let later = find_from rounds pattern patlen buf (read_len + 1) in
    if text_eq pattern (take patlen (drop read_len buf)) then some read_len else later

-- As long as `_read_len + patlen < buflen`.
unfoldable pub find_byte_pattern :
    (pattern : Bytes) → (patlen : ℕ) → (buf : Bytes) → (buflen : ℕ) → Option ℕ
unfolding find_from
find_byte_pattern pattern patlen buf buflen = find_from (buflen - patlen) pattern patlen buf 0

abbrev pub rjv3_prop_length_field_ok : (type len : ℕ) → Bool
rjv3_prop_length_field_ok type len =
    if type == 0 || type == 1
    then false
    else if ltb len (rj_prop_header2_size - 4)
    then false
    else true

abbrev pub Parsed : Type 0
Parsed = record { ok : Bool; list : List RjProp }

-- The content length of a property whose headers end at `read_len`.
unfoldable pub content_len_bare : (type len : ℕ) → (buf : Bytes) → (buflen read_len : ℕ) → ℤ
unfolding find_byte_pattern
content_len_bare type len buf buflen read_len =
    if rjv3_prop_length_field_ok type len
    then sub_ℕ (len + 4) rj_prop_header2_size
    else elim (find_byte_pattern prop_magic 4 (drop read_len buf) (buflen - read_len)) [
      | some next ↦ pos next
      | none ↦ pos (buflen - read_len)
    ]

unfoldable pub content_len_full : (header_type len : ℕ) → (buf : Bytes) → (buflen read_len : ℕ) → ℤ
unfolding find_byte_pattern
content_len_full header_type len buf buflen read_len =
    if header_type == 0x1a
    then prop_to_content_size len
    else elim (find_byte_pattern prop_magic 4 (drop read_len buf) (buflen - read_len)) [
      | some next ↦ sub_ℕ next rj_prop_header1_size
      | none ↦ pos (buflen - read_len)
    ]

-- The header that is read next: its size, and where in it the magic bytes stand.
abbrev pub header_size : (bare : Bool) → ℕ
header_size true = rj_prop_header2_size
header_size false = rj_prop_header1_size + rj_prop_header2_size

abbrev pub header2_at : (bare : Bool) → ℕ
header2_at true = 0
header2_at false = rj_prop_header1_size

unfoldable pub content_len_of : (bare : Bool) → (header buf : Bytes) → (buflen read_len : ℕ) → ℤ
unfolding content_len_bare content_len_full
content_len_of true header buf buflen read_len =
    content_len_bare (get_or header 4 0) (get_or header 5 0) buf buflen read_len
content_len_of false header buf buflen read_len =
    content_len_full (get_or header 0 0) (get_or header 7 0) buf buflen read_len

-- The two loops, which differ in the header and in how the content's length is found. A round
-- reads at least 6 bytes more than it gives back, so `buflen + 1` rounds of fuel are enough.
unfoldable pub parse_from :
    (fuel : ℕ)
    → List RjProp
    → (buf : Bytes) → (buflen : ℕ) → (bare : Bool) → (read_len : ℕ) → Option Parsed
unfolding append_rjv3_prop content_len_of
parse_from zero list buf buflen bare read_len = some (record { ok = false; list = list })
parse_from (suc fuel) list buf buflen bare read_len =
    if ltb read_len buflen
    then (if ltb buflen (read_len + header_size bare)
        then some (record { ok = false; list = list })
        else (do
          header ← read_bytes buf read_len (header_size bare)
          let here = read_len + header_size bare
          let content_len = content_len_of bare header buf buflen here
          if text_eq (take 4 (drop (header2_at bare) header)) prop_magic
              then (do
                r ←
                    append_rjv3_prop list (get_or header (header2_at bare + 4) 0) (drop here buf)
                      content_len
                parse_from fuel r.list buf buflen bare
                    (here + pos_part content_len - neg_part content_len))
              else some (record { ok = false; list = list })))
    else some (record { ok = true; list = list })

unfoldable pub parse_rjv3_buf_to_prop_list :
    List RjProp → (buf : Bytes) → (buflen : ℕ) → (bare : Bool) → Option Parsed
unfolding parse_from
parse_rjv3_buf_to_prop_list list buf buflen bare = parse_from (suc buflen) list buf buflen bare 0
