-- ===== src/Rjv3/Prop/Modify.antt =====
-- modify_rjv3_prop and modify_rjv3_prop_list: the change of the length that they return.
use mathlib.Core.Option
use minieap.Prelude.{
  ℕ, zero, suc, ◌+◌, ◌≤◌, ◌≡◌, refl, ap, ap₂, ◌%◌, Bool-cases, inl, inr, List, [], ◌∷◌, some, ◌==◌,
  length, take, Bytes, arith, All, le→leb, lt→ltb, true, false, u8, length-take,
}
use minieap.Prelude.Int.{ℤ, pos, pos_part, neg_part, sub_ℕ, ◌+ℤ◌, u8_ℤ, is_pos}
use minieap.LinkedList.{lookup_data}
use minieap.Frame.{read_bytes}
use minieap.Rjv3.Prop.{
  RjProp, dup_content, modify_rjv3_prop, modify_from, modify_rjv3_prop_list, find_rjv3_prop,
  prop_to_content_size,
}

-- The length fields of a list's properties, added up.
abbrev pub lens : List RjProp → ℕ
lens [] = 0
lens (prop ∷ list) = prop.len + lens list

-- A property whose content has the bytes that its length field promises.
abbrev pub IsFilled : RjProp → Type 0
IsFilled prop = prop.len ≤ length prop.content + 2

dup_content-some :
    (content : Bytes) (len : ℤ)
    → pos_part len ≤ length content
    → (buf : Bytes) × (dup_content content len ≡ some buf)
unfolding read_bytes
dup_content-some content len h = elim (Bool-cases (is_pos len)) [
  | inl some_bytes ↦ (
    take (pos_part len) content,
    rw (some_bytes, le→leb (0 + pos_part len) (length content) (omega (arith, h))) refl,
  )
  | inr empty ↦ ([], rw empty refl)
]

sub-parts : (a b : ℕ) → a + neg_part (sub_ℕ a b) ≡ b + pos_part (sub_ℕ a b)
sub-parts a b = ground arith

add-parts :
    (a b : ℤ)
    → pos_part (a +ℤ b) + neg_part a + neg_part b ≡ neg_part (a +ℤ b) + pos_part a + pos_part b
unfolding ◌+ℤ◌
add-parts a b = omega (arith, sub-parts (pos_part a + pos_part b) (neg_part a + neg_part b))

size-parts : (len n : ℕ) → len ≤ n + 2 → pos_part (prop_to_content_size len) ≤ n
size-parts len n h = ground arith

modify_rjv3_prop-delta :
    (list : List RjProp) (type : ℕ) (content : Bytes) (len : ℤ)
    → pos_part len ≤ length content
    → (r : record { list : List RjProp; result : ℤ }) × (modify_rjv3_prop list type content len
        ≡ some r)
      × (lens r.list + neg_part r.result ≡ lens list + pos_part r.result)
unfolding modify_rjv3_prop
modify_rjv3_prop-delta [] type content len h = (record { list = []; result = pos 0 }, refl, refl)
modify_rjv3_prop-delta (prop ∷ list) type content len h =
    let (buf, copied) = dup_content-some content len h in
    let (r, done, delta) = modify_rjv3_prop-delta list type content len h in
    let new_len = u8_ℤ (len +ℤ pos 2) in
    elim (Bool-cases (prop.type == type)) [
      | inl hit ↦ (
        record {
          list =
              record prop { content = buf; len = new_len; header_len = u8_ℤ (len +ℤ pos 8) } ∷ list;
          result = sub_ℕ new_len prop.len;
        },
        rw (hit, copied) refl,
        omega (arith, sub-parts new_len prop.len),
      )
      | inr miss ↦ (
        record { list = prop ∷ r.list; result = r.result },
        rw (miss, done) refl,
        omega (arith, delta),
      )
    ]

from-delta :
    (mods org : List RjProp) (sum : ℤ)
    → All IsFilled mods
    → (r : record { list : List RjProp; result : ℤ }) × (modify_from org mods sum ≡ some r)
      × (lens r.list + neg_part r.result + pos_part sum
          ≡ lens org + pos_part r.result + neg_part sum)
unfolding modify_from
from-delta [] org sum v = (record { list = org; result = sum }, refl, omega arith)
from-delta (curr ∷ mods) org sum v =
    let (m, modified, delta) =
      modify_rjv3_prop-delta org curr.type curr.content (prop_to_content_size curr.len)
        (size-parts curr.len (length curr.content) v.0) in
    let (r, done, total) = from-delta mods m.list (sum +ℤ m.result) v.1 in
    (r, rw modified done, omega (arith, delta, total, add-parts sum m.result))

-- Modifying a list by properties that have the content that their length fields promise comes to
-- an end, and what it returns is the sum of the modified list's length fields less the sum of the
-- old ones, also where a length wraps in its byte, a type is missing or the list has it twice.
pub modify_rjv3_prop_list-delta :
    (org mods : List RjProp)
    → All IsFilled mods
    → (r : record { list : List RjProp; result : ℤ }) × (modify_rjv3_prop_list org mods ≡ some r)
      × (lens r.list + neg_part r.result ≡ lens org + pos_part r.result)
unfolding modify_rjv3_prop_list
modify_rjv3_prop_list-delta org mods v =
    let (r, done, total) = from-delta mods org (pos 0) v in (r, done, omega (arith, total))

-- What a property becomes by the new content.
abbrev pub refilled : (content : Bytes) → RjProp → RjProp
refilled content prop = record prop {
  content = content;
  len = u8 (length content + 2);
  header_len = u8 (length content + 8);
}

dup_content-take :
    (content : Bytes) (n : ℕ)
    → n ≤ length content
    → dup_content content (pos n) ≡ some (take n content)
unfolding read_bytes
dup_content-take content zero h = refl
dup_content-take content (suc n) h =
    rw (lt→ltb 0 (suc n) (omega arith), le→leb (0 + suc n) (length content) (omega (arith, h))) refl

resized :
    (content : Bytes) (n : ℕ) (prop : RjProp)
    → n ≤ length content
    → record prop {
      content = take n content;
      len = u8_ℤ (pos n +ℤ pos 2);
      header_len = u8_ℤ (pos n +ℤ pos 8);
    }
      ≡ refilled (take n content) prop
unfolding ◌+ℤ◌
resized content n prop h =
    let size : length (take n content) ≡ n = omega (arith, length-take n content) in
    rw (size, le→leb 0 (n + 2) (omega arith), le→leb 0 (n + 8) (omega arith))
      (ap₂ (λ a b. record prop { content = take n content; len = a % 256; header_len = b % 256 })
        (omega arith) (omega arith))

-- After `modify_rjv3_prop` with `len` bytes that are behind the pointer, the property that
-- `find_rjv3_prop` finds for the type is the one that it found before, with these bytes and the
-- lengths that go with them, and none where it found none; for the other types it finds the same
-- as before.
pub find_rjv3_prop-modify_rjv3_prop :
    (list : List RjProp) (type : ℕ) (content : Bytes) (len : ℕ)
    → len ≤ length content
    → (r : record { list : List RjProp; result : ℤ }) × (modify_rjv3_prop list type content
          (pos len)
        ≡ some r)
      × (find_rjv3_prop r.list type
          ≡ Option.map (refilled (take len content)) (find_rjv3_prop list type))
      × ((other : ℕ)
          → (type == other) ≡ false
          → find_rjv3_prop r.list other ≡ find_rjv3_prop list other)
unfolding modify_rjv3_prop find_rjv3_prop lookup_data
find_rjv3_prop-modify_rjv3_prop [] type content len h =
    (record { list = []; result = pos 0 }, refl, refl, λ other miss. refl)
find_rjv3_prop-modify_rjv3_prop (prop ∷ list) type content len h =
    let (r, done, found, others) = find_rjv3_prop-modify_rjv3_prop list type content len h in
    let copied = dup_content-take content len h in
    let new_len = u8_ℤ (pos len +ℤ pos 2) in
    elim (Bool-cases (prop.type == type)) [
      | inl hit ↦ (
        record {
          list =
              record prop {
                content = take len content;
                len = new_len;
                header_len = u8_ℤ (pos len +ℤ pos 8);
              }
              ∷ list;
          result = sub_ℕ new_len prop.len;
        },
        rw (hit, copied) refl,
        rw (hit) (ap some (resized content len prop h)),
        λ other miss. rw (same_type prop.type type other hit miss) refl,
      )
      | inr miss ↦ (
        record { list = prop ∷ r.list; result = r.result },
        rw (miss, done) refl,
        rw (miss) found,
        λ other other_miss. elim (Bool-cases (prop.type == other)) [
          | inl here ↦ rw here refl
          | inr past ↦ rw past (others other other_miss)
        ],
      )
    ]
  where
    same_type : (a b c : ℕ) → (a == b) ≡ true → (b == c) ≡ false → (a == c) ≡ false
    same_type a b c hit miss = ground arith
