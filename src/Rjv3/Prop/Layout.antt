-- ===== src/Rjv3/Prop/Layout.antt =====
-- Writing lists of properties: the layout in a buffer.
use minieap.Prelude.{
  ℕ, suc, ◌+◌, ◌-◌, ◌%◌, ◌^◌, ◌≤◌, ◌<◌, ◌≡◌, refl, sym, ap, ap₂, ◌∙◌, false, List, [], ◌∷◌, ◌++◌,
  map, some, if◌then◌else◌, length, take, drop, Bytes, u8, arith, All, length-append, length-drop,
  drop-drop, take-append, drop-append, append_assoc, append-nil, le→leb, lt→ltb,
}
use minieap.Prelude.Int.{pos, sub_ℕ, ◌+ℤ◌, u8_ℤ, to_int, ltb_ℤ}
use minieap.Frame.{read_bytes, size_t}
use minieap.Builder.Packet.{write_bytes-append}
use minieap.Rjv3.Prop.{
  RjProp, prop_of, prop_magic, append_rjv3_prop_to_buffer, append_list_from, dup_content,
}

-- A property with a content whose length fits its header.
pub record Entry : Type 0 where
  pub type : ℕ
  pub content : Bytes

abbrev pub IsEntry : Entry → Type 0
IsEntry e = (e.type < 256) × (length e.content ≤ 253)

abbrev pub prop_for : Entry → RjProp
prop_for e = prop_of e.type e.content (pos (length e.content))

-- The layout: type 0x1a, a length byte, the magic bytes, type, length and content.
abbrev pub entry_bytes : Entry → Bytes
entry_bytes e =
    0x1a
    ∷ u8 (length e.content + 8)
    ∷ 0
    ∷ 0
    ∷ 0x13
    ∷ 0x11
    ∷ e.type
    ∷ (length e.content + 2)
    ∷ e.content

abbrev pub wire : List Entry → Bytes
wire [] = []
wire (e ∷ es) = entry_bytes e ++ wire es

pub read_bytes-start : (n : ℕ) (xs : Bytes) → n ≤ length xs → read_bytes xs 0 n ≡ some (take n xs)
unfolding read_bytes
read_bytes-start n xs h = rw (le→leb (0 + n) (length xs) (omega (arith, h)))

-- A read in the middle of a memory.
pub read_bytes-append :
    (pre mid post : Bytes) (n : ℕ)
    → n ≡ length pre
    → read_bytes (pre ++ (mid ++ post)) n (length mid) ≡ some mid
unfolding read_bytes
read_bytes-append pre mid post n e =
    rw
      (le→leb (n + length mid) (length (pre ++ (mid ++ post)))
        (omega (arith, length-append pre (mid ++ post), length-append mid post)))
      (ap some (
        ap (take (length mid))
          (ap (λ k. drop k (pre ++ (mid ++ post))) e ∙ drop-append pre (mid ++ post))
        ∙ take-append mid post))

pub dup_content-append : (xs ys : Bytes) → dup_content (xs ++ ys) (pos (length xs)) ≡ some xs
dup_content-append [] ys = refl
dup_content-append (x ∷ xs) ys =
    ap (λ t. if t then read_bytes (x ∷ (xs ++ ys)) 0 (suc (length xs)) else some [])
      (lt→ltb 0 (suc (length xs)) (omega arith))
    ∙ read_bytes-start (suc (length xs)) (x ∷ (xs ++ ys)) (omega (arith, length-append xs ys))
    ∙ ap (λ t. some (x ∷ t)) (take-append xs ys)

dup_content-all : (xs : Bytes) → dup_content xs (pos (length xs)) ≡ some xs
dup_content-all xs =
    ap (λ t. dup_content t (pos (length xs))) (sym (append-nil xs)) ∙ dup_content-append xs []

dup_content_n : (n : ℕ) (xs : Bytes) → n ≡ length xs → dup_content xs (pos n) ≡ some xs
dup_content_n n xs e = ap (λ k. dup_content xs (pos k)) e ∙ dup_content-all xs

len_byte : (n : ℕ) → n ≤ 253 → u8_ℤ (pos n +ℤ pos 2) ≡ n + 2
unfolding ◌+ℤ◌
len_byte n h = ground arith

pub content_size : (n : ℕ) → sub_ℕ (n + 2) 2 ≡ pos n
content_size n = rw (le→leb 2 (n + 2) (omega arith)) (ap pos (omega arith))

pub full_size : (n : ℕ) → pos n +ℤ pos 8 ≡ pos (8 + n)
unfolding ◌+ℤ◌
full_size n = rw (le→leb 0 (n + 8) (omega arith)) (ap pos (omega arith))

head_byte : (n : ℕ) → u8_ℤ (pos n +ℤ pos 8) ≡ u8 (n + 8)
head_byte n = rw (full_size n) (omega arith)

pub fits : (n m : ℕ) → n ≤ m → ltb_ℤ (pos m) (pos n) ≡ false
fits n m h = ground arith

pub prop_for-fields :
    (e : Entry)
    → IsEntry e
    → prop_for e ≡ record {
      header_type = 0x1a;
      header_len = u8 (length e.content + 8);
      magic = prop_magic;
      type = e.type;
      len = length e.content + 2;
      content = e.content;
    }
prop_for-fields e v =
    rw (head_byte (length e.content), len_byte (length e.content) v.1, small e.type v.0)
  where
    small : (n : ℕ) → n < 256 → u8 n ≡ n
    small n h = omega arith

fields_written :
    (type n : ℕ) (content pre rest : Bytes) (buflen : ℕ)
    → n ≡ length content
    → 8 + n ≤ buflen
    → 8 + n ≤ length rest
    → append_rjv3_prop_to_buffer
        (record {
          header_type = 0x1a;
          header_len = u8 (n + 8);
          magic = prop_magic;
          type = type;
          len = n + 2;
          content = content;
        })
        (pre ++ rest)
        (length pre)
        (pos buflen)
      ≡ some (record {
        result = pos (8 + n);
        buf =
            (pre ++ (0x1a ∷ u8 (n + 8) ∷ 0 ∷ 0 ∷ 0x13 ∷ 0x11 ∷ type ∷ (n + 2) ∷ content))
            ++ drop (8 + n) rest;
      })
unfolding append_rjv3_prop_to_buffer
fields_written type n content pre rest buflen e room inside =
    let h1 : Bytes = 0x1a ∷ u8 (n + 8) ∷ [] in
    let h2 : Bytes = 0 ∷ 0 ∷ 0x13 ∷ 0x11 ∷ type ∷ (n + 2) ∷ [] in
    let at1 : length pre + 2 ≡ length (pre ++ h1) = omega (arith, length-append pre h1) in
    let at2 : length pre + 2 + 6 ≡ length ((pre ++ h1) ++ h2) =
      omega (arith, length-append pre h1, length-append (pre ++ h1) h2) in
    rw
      (
        content_size n,
        full_size n,
        fits (8 + n) buflen room,
        write_bytes-append pre rest h1 (length pre) refl (omega (arith, inside)),
        write_bytes-append (pre ++ h1) (drop 2 rest) h2 (length pre + 2) at1
            (omega (arith, inside, length-drop 2 rest)),
        dup_content_n n content e,
        write_bytes-append ((pre ++ h1) ++ h2) (drop 6 (drop 2 rest)) content (length pre + 2 + 6)
            at2 (omega (arith, inside, length-drop 2 rest, length-drop 6 (drop 2 rest), e)),
        append_assoc (pre ++ h1) h2 content,
        append_assoc pre h1 (h2 ++ content),
        drop-drop 6 (length content) (drop 2 rest),
        drop-drop 2 (6 + length content) rest,
      )
      (ap
        (λ k.
          some (record {
            result = pos (8 + n);
            buf = (pre ++ (h1 ++ (h2 ++ content))) ++ drop k rest;
          }))
        (omega (arith, e)))

-- One property behind a prefix of the buffer.
pub append_prop-written :
    (e : Entry) (pre rest : Bytes) (buflen : ℕ)
    → IsEntry e
    → 8 + length e.content ≤ buflen
    → 8 + length e.content ≤ length rest
    → append_rjv3_prop_to_buffer (prop_for e) (pre ++ rest) (length pre) (pos buflen)
      ≡ some (record {
        result = pos (8 + length e.content);
        buf = (pre ++ entry_bytes e) ++ drop (8 + length e.content) rest;
      })
append_prop-written e pre rest buflen v room inside =
    ap (λ p. append_rjv3_prop_to_buffer p (pre ++ rest) (length pre) (pos buflen))
      (prop_for-fields e v)
    ∙ fields_written e.type (length e.content) e.content pre rest buflen refl room inside

length-entry_bytes : (e : Entry) → length (entry_bytes e) ≡ 8 + length e.content
length-entry_bytes e = omega arith

pub room_left :
    (buflen n : ℕ)
    → n ≤ buflen
    → buflen < 2 ^ 31
    → to_int (size_t (buflen + 2 ^ 64 - n)) ≡ pos (buflen - n)
room_left buflen n h small =
    let low : size_t (buflen + 2 ^ 64 - n) % 2 ^ 32 ≡ buflen - n = omega arith in
    rw (low, lt→ltb (buflen - n) (2 ^ 31) (omega arith)) refl

-- A list of properties is written as their layouts one after another, and the result is their length.
pub list-written :
    (es : List Entry) (pre rest : Bytes) (buflen : ℕ)
    → All IsEntry es
    → length pre + length (wire es) ≤ buflen
    → length (wire es) ≤ length rest
    → buflen < 2 ^ 31
    → append_list_from (map prop_for es) (pre ++ rest) buflen (length pre)
      ≡ some (record {
        result = pos (length pre + length (wire es));
        buf = (pre ++ wire es) ++ drop (length (wire es)) rest;
      })
unfolding append_list_from
list-written [] pre rest buflen v room inside small =
    let low : length pre % 2 ^ 32 ≡ length pre = omega arith in
    rw (low, lt→ltb (length pre) (2 ^ 31) (omega arith), append-nil pre)
      (ap (λ k. some (record { result = pos k; buf = pre ++ rest })) (omega arith))
list-written (e ∷ es) pre rest buflen v room inside small =
    let n = length e.content in
    let whole : length (wire (e ∷ es)) ≡ 8 + n + length (wire es) =
      omega (arith, length-append (entry_bytes e) (wire es)) in
    let single : size_t (8 + n) ≡ 8 + n = omega arith in
    let next : size_t (length pre + size_t (8 + n)) ≡ length (pre ++ entry_bytes e) =
      omega (arith, length-append pre (entry_bytes e)) in
    rw
      (
        room_left buflen (length pre) (omega arith) small,
        append_prop-written e pre rest (buflen - length pre) v.0 (omega arith) (omega arith),
        lt→ltb 0 (size_t (8 + n)) (omega arith),
        next,
        list-written es (pre ++ entry_bytes e) (drop (8 + n) rest) buflen v.1
            (omega (arith, length-append pre (entry_bytes e)))
            (omega (arith, length-drop (8 + n) rest)) small,
      )
      (ap₂ (λ k bytes. some (record { result = pos k; buf = bytes }))
        (omega (arith, length-append pre (entry_bytes e)))
        (ap₂ ◌++◌ (append_assoc pre (entry_bytes e) (wire es))
          (drop-drop (8 + n) (length (wire es)) rest ∙ ap (λ k. drop k rest) (sym whole))))
