-- ===== src/Rjv3/Prop/Edges.antt =====
-- The edges of packet_plugin_rjv3_prop.c: the rounds of the parser, contents that end behind the
-- buffer, and buffers that are too short.
use minieap.Prelude.{
  ℕ, ◌+◌, ◌-◌, ◌%◌, ◌^◌, ◌≤◌, ◌<◌, ◌≡◌, refl, ap, ◌∙◌, true, false, List, [], ◌∷◌, ◌++◌, none, some,
  length, drop, Bytes, u8, arith, lt→ltb, ge→ltb,
}
use minieap.Prelude.Int.{pos, negsuc, to_int, ltb_ℤ}
use minieap.Frame.{read_bytes, size_t}
use minieap.Rjv3.Prop.{
  RjProp, prop_magic, append_rjv3_prop, append_rjv3_prop_to_buffer, append_list_from,
  append_rjv3_prop_list_to_buffer,
}
use minieap.Rjv3.Prop.Parse.{parse_from, parse_rjv3_buf_to_prop_list}
use minieap.Rjv3.Prop.RoundTrip.{content_len-full}
use minieap.Rjv3.Prop.Layout.{
  content_size, full_size, prop_for-fields, read_bytes-append, Entry, IsEntry, prop_for,
  entry_bytes, append_prop-written, room_left,
}

read_bytes-none : (n : ℕ) (xs : Bytes) → length xs < n → read_bytes xs 0 n ≡ none
unfolding read_bytes
read_bytes-none n xs h = ground arith

append-none :
    (list : List RjProp) (type n : ℕ) (xs : Bytes)
    → length xs < n
    → append_rjv3_prop list type xs (pos n) ≡ none
unfolding append_rjv3_prop
append-none list type n xs h = rw (lt→ltb 0 n (omega (arith, h)), read_bytes-none n xs h) refl

-- A property whose header claims more bytes than the buffer has left makes the parser read behind
-- the end of the buffer.
pub parse-none :
    (header_len type n : ℕ) (xs : Bytes)
    → length xs < n
    → parse_rjv3_buf_to_prop_list []
        (0x1a ∷ header_len ∷ 0 ∷ 0 ∷ 0x13 ∷ 0x11 ∷ type ∷ (n + 2) ∷ xs)
        (8 + length xs)
        false
      ≡ none
unfolding parse_rjv3_buf_to_prop_list parse_from
parse-none header_len type n xs h =
    let header : Bytes = 0x1a ∷ header_len ∷ 0 ∷ 0 ∷ 0x13 ∷ 0x11 ∷ type ∷ (n + 2) ∷ [] in
    rw
      (
        lt→ltb 0 (8 + length xs) (omega arith),
        ge→ltb (8 + length xs) 8 (omega arith),
        read_bytes-append [] header xs 0 refl,
        content_len-full header (header ++ xs) (8 + length xs) 8 n refl refl,
        append-none [] type n xs h,
      )
      refl

-- A property that does not fit.
append_prop-short :
    (e : Entry) (buf : Bytes) (offset buflen : ℕ)
    → IsEntry e
    → buflen < 8 + length e.content
    → append_rjv3_prop_to_buffer (prop_for e) buf offset (pos buflen)
      ≡ some (record { result = negsuc 0; buf = buf })
unfolding append_rjv3_prop_to_buffer
append_prop-short e buf offset buflen v h =
    ap (λ p. append_rjv3_prop_to_buffer p buf offset (pos buflen)) (prop_for-fields e v)
    ∙ too_long (length e.content) e.type e.content h
  where
    too_long :
        (n type : ℕ) (content : Bytes)
        → buflen < 8 + n
        → append_rjv3_prop_to_buffer
            (record {
              header_type = 0x1a;
              header_len = u8 (n + 8);
              magic = prop_magic;
              type = type;
              len = n + 2;
              content = content;
            })
            buf
            offset
            (pos buflen)
          ≡ some (record { result = negsuc 0; buf = buf })
    too_long n type content short =
        let longer : ltb_ℤ (pos buflen) (pos (8 + n)) ≡ true =
          lt→ltb (buflen + 0) (8 + n + 0) (omega (arith, short)) in
        rw (content_size n, full_size n, longer) refl

one_less : (n : ℕ) → n ≤ 253 → to_int (size_t (8 + n + (2 ^ 64 - 1))) ≡ pos (7 + n)
one_less n h =
    let low : size_t (8 + n + (2 ^ 64 - 1)) % 2 ^ 32 ≡ 7 + n = omega arith in
    rw (low, lt→ltb (7 + n) (2 ^ 31) (omega arith)) refl

-- When the second of two properties does not fit the buffer any more, the failure is lost: the
-- result is one byte less than the length of the first, and not -1.
pub append_list-short :
    (e1 e2 : Entry) (buf : Bytes) (buflen : ℕ)
    → IsEntry e1
    → IsEntry e2
    → 8 + length e1.content ≤ buflen
    → buflen < 16 + length e1.content + length e2.content
    → buflen ≤ length buf
    → buflen < 2 ^ 31
    → append_rjv3_prop_list_to_buffer (prop_for e1 ∷ prop_for e2 ∷ []) buf buflen
      ≡ some (record {
        result = pos (7 + length e1.content);
        buf = entry_bytes e1 ++ drop (8 + length e1.content) buf;
      })
unfolding append_rjv3_prop_list_to_buffer append_list_from
append_list-short e1 e2 buf buflen v1 v2 first second inside small =
    let n = length e1.content in
    let next : size_t (0 + size_t (8 + n)) ≡ 8 + n = omega arith in
    rw
      (
        room_left buflen 0 (omega arith) small,
        append_prop-written e1 [] buf (buflen - 0) v1 (omega (arith, first))
            (omega (arith, first, inside)),
        lt→ltb 0 (size_t (8 + n)) (omega arith),
        next,
        room_left buflen (8 + n) (omega (arith, first)) small,
        append_prop-short e2 (entry_bytes e1 ++ drop (8 + n) buf) (8 + n) (buflen - (8 + n)) v2
            (omega (arith, first, second)),
      )
      (ap (λ k. some (record { result = k; buf = entry_bytes e1 ++ drop (8 + n) buf }))
        (one_less n v1.1))
