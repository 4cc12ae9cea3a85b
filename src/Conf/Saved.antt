-- ===== src/Conf/Saved.antt =====
-- The pairs that a line of the configuration file can hold, and reading the lines back.
use minieap.Prelude.{
  ℕ, zero, suc, ◌+◌, ◌≤◌, ◌<◌, ◌≡◌, ◌⊎◌, refl, sym, ap, ◌∙◌, false, Bool-cases, inl, inr, List, [],
  ◌∷◌, ◌++◌, some, All, ◌==◌, length, Bytes, arith, length-append, append_assoc, append-nil,
}
use minieap.LinkedList.Sequence.{insert_data-append}
use minieap.Conf.{
  ConfigPair, is_space, ltrim, rtrim, until_nul, fgets, pair_of, split_pair, parse_line,
  parse_lines, file_bytes,
}
use minieap.Conf.Text.{
  IsPlain, rtrim-visible, rtrim-append_space, strchr-append, until_nul-append, fgets_line,
  fgets_full,
}

-- A line can start with this byte, or is empty.
abbrev pub Starts : Bytes → Type 0
Starts [] = Unit
Starts (c ∷ cs) = (is_space c ≡ false) × ((c == b'#') ≡ false)

-- A pair that is read back from the line that is written for it: no NUL and no newline, no '=' in
-- the key, no space and no '#' where the key starts, no space where the value ends, and no more
-- bytes than the line buffer takes.
pub record IsSaveable (pair : ConfigPair) : Type 0 where
  pub key_plain : All IsPlain pair.key
  pub key_split : All (λ c. (c == b'=') ≡ false) pair.key
  pub key_starts : Starts pair.key
  pub value_plain : All IsPlain pair.value
  pub value_trimmed : rtrim pair.value ≡ pair.value
  pub size : length pair.key + 1 + length pair.value ≤ 99

All-IsPlain_text :
    (key value : Bytes) → All IsPlain key → All IsPlain value → All IsPlain (key ++ b'=' ∷ value)
All-IsPlain_text [] value k v =
    ((λ e. absurd (omega (arith, e)), λ e. absurd (omega (arith, e))), v)
All-IsPlain_text (c ∷ key) value k v = (k.0, All-IsPlain_text key value k.1 v)

ltrim-Starts : (key rest : Bytes) → Starts key → ltrim (key ++ b'=' ∷ rest) ≡ key ++ b'=' ∷ rest
unfolding ltrim
ltrim-Starts [] rest s = refl
ltrim-Starts (c ∷ key) rest s = rw (s.0) refl

pair_of-Starts :
    (key rest : Bytes) → Starts key → pair_of (key ++ b'=' ∷ rest) ≡ split_pair (key ++ b'=' ∷ rest)
pair_of-Starts [] rest s = refl
pair_of-Starts (c ∷ key) rest s = rw (s.1) refl

-- The line of a pair, with its newline or without.
line_of : (tail : Bytes) → ConfigPair → Bytes
line_of tail pair = pair.key ++ b'=' ∷ (pair.value ++ tail)

abbrev IsTail : Bytes → Type 0
IsTail tail = (tail ≡ []) ⊎ (tail ≡ b'\n' ∷ [])

rtrim_tail :
    (value tail : Bytes) → IsTail tail → rtrim value ≡ value → rtrim (value ++ tail) ≡ value
rtrim_tail value tail (inl e) v = ap (λ t. rtrim (value ++ t)) e ∙ ap rtrim (append-nil value) ∙ v
rtrim_tail value tail (inr e) v =
    ap (λ t. rtrim (value ++ t)) e ∙ rtrim-append_space value b'\n' refl ∙ v

until_nul_tail : (tail : Bytes) → IsTail tail → until_nul tail ≡ tail
unfolding until_nul
until_nul_tail tail (inl e) = rw e refl
until_nul_tail tail (inr e) = rw e refl

split_pair-line :
    (pair : ConfigPair) (tail : Bytes)
    → IsSaveable pair
    → IsTail tail
    → split_pair (pair.key ++ b'=' ∷ (pair.value ++ tail)) ≡ some pair
unfolding split_pair
split_pair-line pair tail v t =
    rw
      (
        strchr-append b'=' pair.key (pair.value ++ tail) v.key_split,
        split_pair,
        rtrim-visible b'=' (pair.value ++ tail) refl,
        rtrim_tail pair.value tail t v.value_trimmed,
      )
      refl

parse_line-pair :
    (pair : ConfigPair) (tail : Bytes) (list : List ConfigPair)
    → IsSaveable pair
    → IsTail tail
    → parse_line (line_of tail pair) list ≡ list ++ pair ∷ []
unfolding parse_line line_of
parse_line-pair pair tail list v t =
    let text : Bytes = pair.key ++ b'=' ∷ pair.value in
    let joined : pair.key ++ b'=' ∷ (pair.value ++ tail) ≡ text ++ tail =
      sym (append_assoc pair.key (b'=' ∷ pair.value) tail) in
    let whole : until_nul (pair.key ++ b'=' ∷ (pair.value ++ tail))
        ≡ pair.key ++ b'=' ∷ (pair.value ++ tail) =
      ap until_nul joined
      ∙ until_nul-append text tail (All-IsPlain_text pair.key pair.value v.key_plain v.value_plain)
      ∙ ap (λ x. text ++ x) (until_nul_tail tail t)
      ∙ sym joined in
    rw
      (
        whole,
        ltrim-Starts pair.key (pair.value ++ tail) v.key_starts,
        pair_of-Starts pair.key (pair.value ++ tail) v.key_starts,
        split_pair-line pair tail v t,
      )
      (insert_data-append list pair)

pub parse_lines-step :
    (fuel : ℕ) (file line rest : Bytes) (list : List ConfigPair)
    → 0 < length file
    → fgets 99 file ≡ (line, rest)
    → parse_lines (suc fuel) file list ≡ parse_lines fuel rest (parse_line line list)
unfolding parse_lines
parse_lines-step fuel [] line rest list h e = absurd (omega arith)
parse_lines-step fuel (c ∷ file) line rest list h e =
    ap (λ (r : Bytes × Bytes). parse_lines fuel r.1 (parse_line r.0 list)) e

-- The newline behind a line that has filled the buffer is a line of its own, which holds nothing.
skip_newline :
    (fuel : ℕ) (rest : Bytes) (list : List ConfigPair)
    → parse_lines (suc fuel) (b'\n' ∷ rest) list ≡ parse_lines fuel rest list
unfolding parse_lines fgets parse_line
skip_newline fuel rest list = refl

file_bytes-cons :
    (pair : ConfigPair) (list : List ConfigPair)
    → file_bytes (pair ∷ list) ≡ (pair.key ++ b'=' ∷ pair.value) ++ b'\n' ∷ file_bytes list
unfolding file_bytes
file_bytes-cons pair list =
    append_assoc pair.key (b'=' ∷ (pair.value ++ b'\n' ∷ [])) (file_bytes list)
    ∙ ap (λ t. pair.key ++ b'=' ∷ t) (append_assoc pair.value (b'\n' ∷ []) (file_bytes list))
    ∙ sym (append_assoc pair.key (b'=' ∷ pair.value) (b'\n' ∷ file_bytes list))

-- One saved pair at the front of the file.
read_pair :
    (fuel : ℕ) (pair : ConfigPair) (rest : Bytes) (list : List ConfigPair)
    → IsSaveable pair
    → (n : ℕ) × (parse_lines (suc (suc fuel)) ((pair.key ++ b'=' ∷ pair.value) ++ b'\n' ∷ rest) list
        ≡ parse_lines n rest (list ++ pair ∷ []))
      × (fuel ≤ n)
unfolding line_of
read_pair fuel pair rest list v =
    let text : Bytes = pair.key ++ b'=' ∷ pair.value in
    let long : length text ≡ length pair.key + suc (length pair.value) =
      length-append pair.key (b'=' ∷ pair.value) in
    let plain : All IsPlain text = All-IsPlain_text pair.key pair.value v.key_plain v.value_plain in
    let some_bytes : 0 < length (text ++ b'\n' ∷ rest) =
      omega (arith, length-append text (b'\n' ∷ rest)) in
    elim (Bool-cases (length text == 99)) [
      | inl full ↦ (
        fuel,
        parse_lines-step (suc fuel) (text ++ b'\n' ∷ rest) text (b'\n' ∷ rest) list some_bytes
              (fgets_full text (b'\n' ∷ rest) 99 plain (ground (arith, full)))
            ∙ skip_newline fuel rest (parse_line text list)
            ∙ ap (parse_lines fuel rest) (
                ap (λ t. parse_line (pair.key ++ b'=' ∷ t) list) (sym (append-nil pair.value))
                ∙ parse_line-pair pair [] list v (inl refl)),
        omega arith,
      )
      | inr short ↦ (
        suc fuel,
        parse_lines-step (suc fuel) (text ++ b'\n' ∷ rest) (text ++ b'\n' ∷ []) rest list some_bytes
              (fgets_line text rest 99 plain (ground (arith, short, long, v.size)))
            ∙ ap (parse_lines (suc fuel) rest) (
                ap (λ t. parse_line t list) (append_assoc pair.key (b'=' ∷ pair.value) (b'\n' ∷ []))
                ∙ parse_line-pair pair (b'\n' ∷ []) list v (inr refl)),
        omega arith,
      )
    ]

parse_lines-nil : (fuel : ℕ) (list : List ConfigPair) → parse_lines fuel [] list ≡ list
unfolding parse_lines
parse_lines-nil zero list = refl
parse_lines-nil (suc fuel) list = refl

pub parse_lines-file_bytes :
    (pairs list : List ConfigPair) (fuel : ℕ)
    → All IsSaveable pairs
    → length (file_bytes pairs) ≤ fuel
    → parse_lines fuel (file_bytes pairs) list ≡ list ++ pairs
parse_lines-file_bytes [] list fuel v enough =
    unfold file_bytes in (parse_lines-nil fuel list ∙ sym (append-nil list))
parse_lines-file_bytes (pair ∷ pairs) list fuel v enough =
    let text : Bytes = pair.key ++ b'=' ∷ pair.value in
    let long : 2 + length (file_bytes pairs) ≤ fuel = omega (
      arith,
      ap length (file_bytes-cons pair pairs),
      length-append text (b'\n' ∷ file_bytes pairs),
      length-append pair.key (b'=' ∷ pair.value),
      enough,
    ) in
    with_fuel fuel long (λ m enough. parse_lines-file_bytes pairs (list ++ pair ∷ []) m v.1 enough)
  where
    with_fuel :
        (fuel : ℕ)
        → 2 + length (file_bytes pairs) ≤ fuel
        → ((m : ℕ)
            → length (file_bytes pairs) ≤ m
            → parse_lines m (file_bytes pairs) (list ++ pair ∷ []) ≡ (list ++ pair ∷ []) ++ pairs)
        → parse_lines fuel (file_bytes (pair ∷ pairs)) list ≡ list ++ pair ∷ pairs
    with_fuel zero h rest = absurd (omega (arith, h))
    with_fuel (suc zero) h rest = absurd (omega (arith, h))
    with_fuel (suc (suc n)) h rest =
        let (m, read, left) = read_pair n pair (file_bytes pairs) list v.0 in
        ap (λ t. parse_lines (suc (suc n)) t list) (file_bytes-cons pair pairs)
        ∙ read
        ∙ rest m (omega (arith, h, left))
        ∙ append_assoc list (pair ∷ []) pairs
