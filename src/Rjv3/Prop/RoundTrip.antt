-- ===== src/Rjv3/Prop/RoundTrip.antt =====
-- Reading lists of properties, and the round trip.
use minieap.Prelude.{
  ℕ, zero, suc, ◌+◌, ◌^◌, ◌≤◌, ◌<◌, ◌≡◌, refl, sym, ap, ap₂, ◌∙◌, true, false, List, [], ◌∷◌, ◌++◌,
  map, some, length, drop, get_or, Bytes, u8, arith, All, length-append, drop-append_add,
  append_assoc, append-nil, lt→ltb, ge→ltb,
}
use minieap.Prelude.Int.{pos, ◌+ℤ◌, u8_ℤ}
use minieap.LinkedList.Sequence.{insert_data-append}
use minieap.Rjv3.Prop.{RjProp, prop_of, append_rjv3_prop, append_rjv3_prop_list_to_buffer}
use minieap.Rjv3.Prop.Parse.{
  parse_from, content_len_of, content_len_full, parse_rjv3_buf_to_prop_list,
}
use minieap.Rjv3.Prop.Layout.{
  Entry, IsEntry, prop_for, entry_bytes, wire, read_bytes-append, dup_content-append, content_size,
  list-written,
}

pub appended :
    (list : List RjProp) (type : ℕ) (content tail : Bytes)
    → append_rjv3_prop list type (content ++ tail) (pos (length content))
      ≡ some (record {
        list = list ++ prop_of type content (pos (length content)) ∷ [];
        result = u8_ℤ (pos (length content) +ℤ pos 8);
      })
unfolding append_rjv3_prop
appended list type content tail =
    rw
      (
        dup_content-append content tail,
        insert_data-append list (prop_of type content (pos (length content))),
      )
      refl

pub content_len-full :
    (header buf : Bytes) (buflen here n : ℕ)
    → get_or header 0 0 ≡ 0x1a
    → get_or header 7 0 ≡ n + 2
    → content_len_of false header buf buflen here ≡ pos n
unfolding content_len_of content_len_full
content_len-full header buf buflen here n type len = rw (type, len) (content_size n)

-- One round of the loop reads one layout.
parse_from-step :
    (fuel : ℕ) (e : Entry) (list : List RjProp) (pre tail : Bytes) (buflen : ℕ)
    → length pre + 8 + length e.content ≤ buflen
    → parse_from (suc fuel) list (pre ++ (entry_bytes e ++ tail)) buflen false (length pre)
      ≡ parse_from fuel
          (list ++ prop_for e ∷ [])
          (pre ++ (entry_bytes e ++ tail))
          buflen
          false
          (length pre + (8 + length e.content))
unfolding parse_from
parse_from-step fuel e list pre tail buflen room =
    let n = length e.content in
    let header : Bytes = 0x1a ∷ u8 (n + 8) ∷ 0 ∷ 0 ∷ 0x13 ∷ 0x11 ∷ e.type ∷ (n + 2) ∷ [] in
    let rest : drop (length pre + 8) (pre ++ (entry_bytes e ++ tail)) ≡ e.content ++ tail =
      drop-append_add pre (entry_bytes e ++ tail) (length pre + 8) 8 refl in
    rw
      (
        lt→ltb (length pre) buflen (omega (arith, room)),
        ge→ltb buflen (length pre + 8) (omega (arith, room)),
        read_bytes-append pre header (e.content ++ tail) (length pre) refl,
        content_len-full header (pre ++ (entry_bytes e ++ tail)) buflen (length pre + 8) n refl
            refl,
        rest,
        appended list e.type e.content tail,
      )
      (ap (parse_from fuel (list ++ prop_for e ∷ []) (pre ++ (entry_bytes e ++ tail)) buflen false)
        (omega arith))

-- Reading the layouts back gives the properties.
pub list-parsed :
    (fuel : ℕ) (es : List Entry) (list : List RjProp) (pre : Bytes) (buflen : ℕ)
    → length es ≤ fuel
    → buflen ≡ length pre + length (wire es)
    → parse_from (suc fuel) list (pre ++ wire es) buflen false (length pre)
      ≡ some (record { ok = true; list = list ++ map prop_for es })
unfolding parse_from
list-parsed fuel [] list pre buflen enough total = nothing_left
  where
    nothing_left :
        parse_from (suc fuel) list (pre ++ []) buflen false (length pre)
        ≡ some (record { ok = true; list = list ++ [] })
    nothing_left = rw (ge→ltb (length pre) buflen (omega (arith, total)), append-nil list) refl
list-parsed zero (e ∷ es) list pre buflen enough total = absurd (omega arith)
list-parsed (suc fuel) (e ∷ es) list pre buflen enough total =
    let n = length e.content in
    let whole : length (wire (e ∷ es)) ≡ 8 + n + length (wire es) =
      omega (arith, length-append (entry_bytes e) (wire es)) in
    let next : length (pre ++ entry_bytes e) ≡ length pre + (8 + n) =
      omega (arith, length-append pre (entry_bytes e)) in
    parse_from-step (suc fuel) e list pre (wire es) buflen (omega (arith, total))
    ∙ ap₂ (λ bytes k. parse_from (suc fuel) (list ++ prop_for e ∷ []) bytes buflen false k)
        (sym (append_assoc pre (entry_bytes e) (wire es))) (sym next)
    ∙ list-parsed fuel es (list ++ prop_for e ∷ []) (pre ++ entry_bytes e) buflen (omega arith)
        (omega (arith, total))
    ∙ ap (λ l. some (record { ok = true; list = l }))
        (append_assoc list (prop_for e ∷ []) (map prop_for es))

count-wire : (es : List Entry) → length es ≤ length (wire es)
count-wire [] = omega arith
count-wire (e ∷ es) = omega (arith, length-append (entry_bytes e) (wire es), count-wire es)

-- A list of properties whose contents have at most 253 bytes is written to a buffer that is long
-- enough as the layouts one after another, in front of what the buffer held, and the parser gives
-- the same list for the bytes that were written.
pub write-parse :
    (es : List Entry) (buf : Bytes) (buflen : ℕ)
    → All IsEntry es
    → length (wire es) ≤ buflen
    → buflen ≤ length buf
    → buflen < 2 ^ 31
    → (append_rjv3_prop_list_to_buffer (map prop_for es) buf buflen
        ≡ some (record {
          result = pos (length (wire es));
          buf = wire es ++ drop (length (wire es)) buf;
        }))
      × (parse_rjv3_buf_to_prop_list [] (wire es) (length (wire es)) false
          ≡ some (record { ok = true; list = map prop_for es }))
unfolding append_rjv3_prop_list_to_buffer parse_rjv3_buf_to_prop_list
write-parse es buf buflen v room inside small = (
  list-written es [] buf buflen v (omega (arith, room)) (omega (arith, room, inside)) small
      ∙ ap (λ n. some (record { result = pos n; buf = wire es ++ drop (length (wire es)) buf }))
          (omega arith),
  list-parsed (length (wire es)) es [] [] (length (wire es)) (count-wire es) (omega arith),
)
