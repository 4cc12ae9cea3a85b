-- ===== src/Rjv3/Options/RjOption.antt =====
-- --rj-option: the text that is saved for a property, and what it is read back as.
use minieap.Prelude.{
  ℕ, suc, ◌+◌, ◌*◌, ◌≤◌, ◌<◌, ◌≡◌, min, refl, sym, ap, ◌∙◌, Bool, true, false, not, ◌&&◌, List, [],
  ◌∷◌, ◌++◌, some, if◌then◌else◌, ◌==◌, length, take_all, Bytes, IsBytes, arith, holds_below,
  holds_below-true, length-append, append-nil,
}
use minieap.Prelude.Int.{pos}
use minieap.Misc.{char2hex, hex2char}
use minieap.Misc.Digits.{char2hex-hex2char}
use minieap.Rjv3.Prop.{RjProp, append_rjv3_prop}
use minieap.Rjv3.Prop.Layout.{
  Entry, IsEntry, prop_for, prop_for-fields, content_size, read_bytes-start,
}
use minieap.Rjv3.Prop.RoundTrip.{appended}
use minieap.Rjv3.Options.{
  RjOptions, token_of, skip, token, strtok, hex_bytes, pairs_of_digits, is_replacement,
  store_option, option_content, option_type, append_rj_cmdline_opt,
}
use minieap.Rjv3.Options.Saving.{hex_chars, prop_str, prop_str_len}

abbrev no_colon : ℕ → Bool
no_colon c = not (c == b':')

colon_table : holds_below 256 (λ x. no_colon (hex2char x).0 && no_colon (hex2char x).1) ≡ true
unfolding holds_below hex2char
colon_table = refl

hex-no_colon :
    (x : ℕ) → x < 256 → (((hex2char x).0 == b':') ≡ false) × (((hex2char x).1 == b':') ≡ false)
hex-no_colon x h =
    parts ((hex2char x).0 == b':') ((hex2char x).1 == b':') (holds_below-true 256 _ x colon_table h)
  where
    parts : (a b : Bool) → (not a && not b) ≡ true → (a ≡ false) × (b ≡ false)
    parts false false h = (refl, refl)
    parts false true h = absurd (cc)
    parts true b h = absurd (cc)

length-hex_chars : (xs : Bytes) → length (hex_chars xs) ≡ 2 * length xs
unfolding hex_chars
length-hex_chars [] = refl
length-hex_chars (x ∷ xs) = omega (arith, length-hex_chars xs)

hex_bytes-hex_chars : (xs : Bytes) → IsBytes xs → hex_bytes (length xs) (hex_chars xs) ≡ xs
unfolding hex_bytes hex_chars
hex_bytes-hex_chars [] v = refl
hex_bytes-hex_chars (x ∷ xs) v =
    rw (char2hex-hex2char x v.0) (ap (λ t. x ∷ t) (hex_bytes-hex_chars xs v.1))

-- The digits are one token, up to a separator or to the end.
token-hex_chars :
    (xs rest : Bytes) → IsBytes xs → token b':' (hex_chars xs ++ b':' ∷ rest) ≡ (hex_chars xs, rest)
unfolding token hex_chars
token-hex_chars [] rest v = refl
token-hex_chars (x ∷ xs) rest v =
    let (a, b) = hex-no_colon x v.0 in rw (a, b, token-hex_chars xs rest v.1) refl

token-hex_chars_end : (xs : Bytes) → IsBytes xs → token b':' (hex_chars xs) ≡ (hex_chars xs, [])
unfolding token hex_chars
token-hex_chars_end [] v = refl
token-hex_chars_end (x ∷ xs) v =
    let (a, b) = hex-no_colon x v.0 in rw (a, b, token-hex_chars_end xs v.1) refl

skip-start : (c : ℕ) (cs : Bytes) → (c == b':') ≡ false → skip b':' (c ∷ cs) ≡ c ∷ cs
unfolding skip
skip-start c cs h = rw h refl

strtok-start :
    (c : ℕ) (cs : Bytes) → (c == b':') ≡ false → strtok b':' (c ∷ cs) ≡ some (token b':' (c ∷ cs))
unfolding strtok
strtok-start c cs h = ap (token_of b':') (skip-start c cs h)

abbrev tail_of : Bool → Bytes
tail_of is_mod = if is_mod then b':' ∷ b'r' ∷ [] else []

abbrev rest_of : Bool → Bytes
rest_of is_mod = if is_mod then b'r' ∷ [] else []

strtok-content :
    (x : ℕ) (xs : Bytes) (is_mod : Bool)
    → IsBytes (x ∷ xs)
    → strtok b':' (hex_chars (x ∷ xs) ++ tail_of is_mod) ≡ some (hex_chars (x ∷ xs), rest_of is_mod)
strtok-content x xs is_mod v = first ∙ ap some (whole is_mod)
  where
    first :
        strtok b':' (hex_chars (x ∷ xs) ++ tail_of is_mod)
        ≡ some (token b':' (hex_chars (x ∷ xs) ++ tail_of is_mod))
    first =
        unfold hex_chars in
        strtok-start (hex2char x).0 ((hex2char x).1 ∷ (hex_chars xs ++ tail_of is_mod))
          (hex-no_colon x v.0).0

    whole :
        (m : Bool) → token b':' (hex_chars (x ∷ xs) ++ tail_of m) ≡ (hex_chars (x ∷ xs), rest_of m)
    whole true = token-hex_chars (x ∷ xs) (b'r' ∷ []) v
    whole false = ap (token b':') (append-nil (hex_chars (x ∷ xs))) ∙ token-hex_chars_end (x ∷ xs) v

strtok-type :
    (type : ℕ) (rest : Bytes)
    → type < 256
    → strtok b':' ((hex2char type).0 ∷ (hex2char type).1 ∷ b':' ∷ rest)
      ≡ some ((hex2char type).0 ∷ (hex2char type).1 ∷ [], rest)
unfolding token
strtok-type type rest h =
    let (a, b) = hex-no_colon type h in
    strtok-start (hex2char type).0 ((hex2char type).1 ∷ b':' ∷ rest) a ∙ rw (a, b) refl

replacement-rest : (is_mod : Bool) → is_replacement (strtok b':' (rest_of is_mod)) ≡ is_mod
unfolding strtok skip token
replacement-rest true = refl
replacement-rest false = refl

digits_count : (n : ℕ) → n ≤ 100 → pairs_of_digits (min 200 (2 * n)) ≡ n
digits_count n h = ground arith

-- The options with a property behind one of the two lists.
abbrev pub with_prop : Bool → RjProp → RjOptions → RjOptions
with_prop is_mod prop options =
    if is_mod
    then record options { cmd_prop_mod_list = options.cmd_prop_mod_list ++ prop ∷ [] }
    else record options { cmd_prop_list = options.cmd_prop_list ++ prop ∷ [] }

appended_all :
    (list : List RjProp) (e : Entry)
    → append_rjv3_prop list e.type e.content (pos (length e.content))
      ≡ some (record { list = list ++ prop_for e ∷ []; result = (prop_for e).header_len })
appended_all list e =
    ap (λ t. append_rjv3_prop list e.type t (pos (length e.content))) (sym (append-nil e.content))
    ∙ appended list e.type e.content []

-- The text of a property.
prop_str_lem :
    (e : Entry) (is_mod : Bool)
    → IsEntry e
    → prop_str (prop_for e) is_mod
      ≡ some (
          (hex2char e.type).0
          ∷ (hex2char e.type).1
          ∷ b':'
          ∷ (hex_chars e.content ++ tail_of is_mod))
unfolding prop_str
prop_str_lem e is_mod v =
    ap (λ p. prop_str p is_mod) (prop_for-fields e v)
    ∙ rw
        (
          content_size (length e.content),
          read_bytes-start (length e.content) e.content (omega arith),
          take_all (length e.content) e.content (omega arith),
        )
        refl

store_option_lem :
    (type x : ℕ) (xs : Bytes) (is_mod : Bool) (options : RjOptions)
    → IsBytes (x ∷ xs)
    → length (x ∷ xs) ≤ 100
    → store_option type (hex_chars (x ∷ xs)) is_mod options
      ≡ some (record {
        ok = true;
        options = with_prop is_mod (prop_for (record { type = type; content = x ∷ xs })) options;
      })
store_option_lem type x xs is_mod options v short = by_list is_mod
  where
    entry : Entry
    entry = record { type = type; content = x ∷ xs }

    count : pairs_of_digits (min 200 (length (hex_chars (x ∷ xs)))) ≡ suc (length xs)
    count =
        ap (λ n. pairs_of_digits (min 200 n)) (length-hex_chars (x ∷ xs))
        ∙ digits_count (suc (length xs)) short

    by_list :
        (m : Bool)
        → store_option type (hex_chars (x ∷ xs)) m options
          ≡ some (record { ok = true; options = with_prop m (prop_for entry) options })
    by_list true =
        unfold store_option in
        rw (count, hex_bytes-hex_chars (x ∷ xs) v, appended_all options.cmd_prop_mod_list entry)
          refl
    by_list false =
        unfold store_option in
        rw (count, hex_bytes-hex_chars (x ∷ xs) v, appended_all options.cmd_prop_list entry) refl

append_rj_cmdline_opt-text :
    (type x : ℕ) (xs : Bytes) (is_mod : Bool) (options : RjOptions)
    → type < 256
    → IsBytes (x ∷ xs)
    → length (x ∷ xs) ≤ 100
    → append_rj_cmdline_opt
        ((hex2char type).0 ∷ (hex2char type).1 ∷ b':' ∷ (hex_chars (x ∷ xs) ++ tail_of is_mod))
        options
      ≡ some (record {
        ok = true;
        options = with_prop is_mod (prop_for (record { type = type; content = x ∷ xs })) options;
      })
unfolding append_rj_cmdline_opt option_type option_content
append_rj_cmdline_opt-text type x xs is_mod options t v short =
    ap (λ o. option_type o options) (strtok-type type (hex_chars (x ∷ xs) ++ tail_of is_mod) t)
    ∙ ap (λ o. option_content (char2hex (hex2char type).0 (hex2char type).1) o options)
        (strtok-content x xs is_mod v)
    ∙ ap
        (λ n.
          store_option n (hex_chars (x ∷ xs)) (is_replacement (strtok b':' (rest_of is_mod)))
            options)
        (char2hex-hex2char type t)
    ∙ ap (λ m. store_option type (hex_chars (x ∷ xs)) m options) (replacement-rest is_mod)
    ∙ store_option_lem type x xs is_mod options v short

-- A property with at least 1 and at most 100 bytes of content is saved in a buffer with room for
-- its text, and the text is taken by `append_rj_cmdline_opt` as the same property, behind the list
-- it was saved from: that of the changes, for a text that ends in ":r", or that of the additions.
pub append_rj_cmdline_opt-prop_str :
    (e : Entry) (is_mod : Bool) (options : RjOptions)
    → e.type < 256
    → IsBytes e.content
    → 0 < length e.content
    → length e.content ≤ 100
    → (s : Bytes) × (prop_str (prop_for e) is_mod ≡ some s)
      × (length s + 1 ≤ prop_str_len (prop_for e) is_mod)
      × (append_rj_cmdline_opt s options
          ≡ some (record { ok = true; options = with_prop is_mod (prop_for e) options }))
append_rj_cmdline_opt-prop_str e is_mod options t v ne short = (
  text,
  prop_str_lem e is_mod (t, omega (arith, short)),
  omega (arith, room is_mod),
  read e.content v ne short,
)
  where
    text : Bytes
    text =
        (hex2char e.type).0 ∷ (hex2char e.type).1 ∷ b':' ∷ (hex_chars e.content ++ tail_of is_mod)

    sized :
        (m : Bool)
        → (prop_for e).len ≡ length e.content + 2
        → length (hex_chars e.content ++ tail_of m) + 4 ≤ prop_str_len (prop_for e) m
    sized true l = omega (
      arith,
      l,
      length-append (hex_chars e.content) (b':' ∷ b'r' ∷ []),
      length-hex_chars e.content,
    )
    sized false l =
        omega (arith, l, length-append {A = ℕ} (hex_chars e.content) [], length-hex_chars e.content)

    room : (m : Bool) → length (hex_chars e.content ++ tail_of m) + 4 ≤ prop_str_len (prop_for e) m
    room m = sized m (ap (λ (p : RjProp). p.len) (prop_for-fields e (t, omega (arith, short))))

    read :
        (content : Bytes)
        → IsBytes content
        → 0 < length content
        → length content ≤ 100
        → append_rj_cmdline_opt
            ((hex2char e.type).0
              ∷ (hex2char e.type).1
              ∷ b':'
              ∷ (hex_chars content ++ tail_of is_mod))
            options
          ≡ some (record {
            ok = true;
            options =
                with_prop is_mod (prop_for (record { type = e.type; content = content })) options;
          })
    read [] v ne short = absurd (omega arith)
    read (x ∷ xs) v ne short = append_rj_cmdline_opt-text e.type x xs is_mod options t v short
