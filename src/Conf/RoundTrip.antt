-- ===== src/Conf/RoundTrip.antt =====
-- Reading, saving and reading again.
use minieap.Prelude.{
  ℕ, zero, suc, ◌≤◌, ◌≡◌, ◌≢◌, refl, ap, ◌∙◌, Bool, true, false, Bool-cases, inl, inr, List, [],
  ◌∷◌, ◌++◌, Option, none, some, All, All-append, ◌==◌, length, Bytes, arith, length-append, ==_iff,
}
use minieap.LinkedList.Sequence.{insert_data-append}
use minieap.Conf.{
  Conf, ConfigPair, is_space, ltrim, rtrim, until_nul, fgets, pair_of, split_pair, add_pair,
  parse_line, parse_lines, file_bytes, conf_parser_parse_now, conf_parser_save_file,
  conf_parser_free,
}
use minieap.Conf.Text.{
  IsPlain, IsLine, strchr-IsCut, rtrim-visible, rtrim_twice, length-rtrim, rtrim-IsPlain,
}
use minieap.Conf.Saved.{IsSaveable, Starts, parse_lines-file_bytes}

-- What `fgets` gives: the only newline is the last byte.
abbrev IsRead : Bytes → Type 0
IsRead [] = Unit
IsRead (c ∷ cs) = ((c == b'\n') ≡ true → cs ≡ []) × IsRead cs

fgets-IsRead :
    (room : ℕ) (file : Bytes) → IsRead (fgets room file).0 × (length (fgets room file).0 ≤ room)
unfolding fgets
fgets-IsRead zero file = (tt, omega arith)
fgets-IsRead (suc room) [] = (tt, omega arith)
fgets-IsRead (suc room) (c ∷ file) =
    let (line, short) = fgets-IsRead room file in
    elim (Bool-cases (c == b'\n')) [
      | inl newline ↦ rw newline (((λ _. refl), tt), omega arith)
      | inr other ↦ rw other (((λ e. cc), line), omega arith)
    ]

until_nul-nil : (xs : Bytes) → xs ≡ [] → until_nul xs ≡ []
unfolding until_nul
until_nul-nil xs e = rw e refl

until_nul-IsLine :
    (xs : Bytes) → IsRead xs → IsLine (until_nul xs) × (length (until_nul xs) ≤ length xs)
unfolding until_nul
until_nul-IsLine [] v = (tt, omega arith)
until_nul-IsLine (c ∷ cs) v =
    let (line, short) = until_nul-IsLine cs v.1 in
    elim (Bool-cases (c == 0)) [
      | inl nul ↦ rw nul (tt, omega arith)
      | inr other ↦
          rw other
            ((λ e. ground (arith, other, e), (λ e. until_nul-nil cs (v.0 e)), line), omega arith)
    ]

-- No space stands in front.
abbrev IsVisible : Bytes → Type 0
IsVisible [] = Unit
IsVisible (c ∷ cs) = is_space c ≡ false

ltrim-IsLine :
    (xs : Bytes)
    → IsLine xs
    → IsLine (ltrim xs) × (length (ltrim xs) ≤ length xs) × IsVisible (ltrim xs)
unfolding ltrim
ltrim-IsLine [] v = (tt, omega arith, tt)
ltrim-IsLine (c ∷ cs) v =
    let (line, short, visible) = ltrim-IsLine cs v.2 in
    elim (Bool-cases (is_space c)) [
      | inl blank ↦ rw blank (line, omega arith, visible)
      | inr seen ↦ rw seen (v, omega arith, seen)
    ]

key-IsPlain : (key value : Bytes) → IsLine (key ++ b'=' ∷ value) → All IsPlain key × IsLine value
key-IsPlain [] value v = (tt, v.2)
key-IsPlain (c ∷ key) value v =
    let (plain, line) = key-IsPlain key value v.2 in
    (
      (
        (
          v.0,
          λ e. absurd (
              omega
                (arith, ap length (v.1 ((==_iff c b'\n').1 e)), length-append key (b'=' ∷ value))),
        ),
        plain,
      ),
      line,
    )

abbrev IsPair : Bytes → Type 0
IsPair [] = Unit
IsPair (c ∷ cs) = (c == b'#') ≡ false

key-Starts :
    (key value : Bytes)
    → IsVisible (key ++ b'=' ∷ value)
    → IsPair (key ++ b'=' ∷ value)
    → Starts key
key-Starts [] value visible pair = tt
key-Starts (c ∷ key) value visible pair = (visible, pair)

cut-IsSaveable :
    (start key value : Bytes)
    → start ≡ key ++ b'=' ∷ value
    → All (λ c. (c == b'=') ≡ false) key
    → IsLine start
    → length start ≤ 99
    → IsVisible start
    → IsPair start
    → IsSaveable (record { key = key; value = rtrim value })
cut-IsSaveable start key value whole first line short visible pair =
    let (plain, rest) = key-IsPlain key value (rw whole at line) in
    record {
      key_plain = plain;
      key_split = first;
      key_starts = key-Starts key value (rw whole at visible) (rw whole at pair);
      value_plain = rtrim-IsPlain value rest;
      value_trimmed = rtrim_twice value;
      size =
          omega
            (arith, ap length whole, length-append key (b'=' ∷ value), length-rtrim value, short);
    }

split_pair-IsSaveable :
    (start : Bytes) (list : List ConfigPair)
    → IsLine start
    → length start ≤ 99
    → IsVisible start
    → IsPair start
    → All IsSaveable list
    → All IsSaveable (add_pair (split_pair start) list)
unfolding split_pair
split_pair-IsSaveable start list line short visible pair saved = elim (strchr-IsCut b'=' start) [
  | inl e ↦ rw (e, split_pair) saved
  | inr (s, e, cut) ↦
      rw
        (
          e,
          split_pair,
          cut.found,
          rtrim-visible b'=' cut.behind refl,
          insert_data-append list (record { key = s.0; value = rtrim cut.behind }),
        )
        (All-append IsSaveable list (record { key = s.0; value = rtrim cut.behind } ∷ []) saved
          (cut-IsSaveable start s.0 cut.behind cut.whole cut.first line short visible pair, tt))
]

pair_of-IsSaveable :
    (start : Bytes) (list : List ConfigPair)
    → IsLine start
    → length start ≤ 99
    → IsVisible start
    → All IsSaveable list
    → All IsSaveable (add_pair (pair_of start) list)
pair_of-IsSaveable [] list line short visible saved = saved
pair_of-IsSaveable (c ∷ cs) list line short visible saved = elim (Bool-cases (c == b'#')) [
  | inl comment ↦ rw comment saved
  | inr pair ↦ rw pair (split_pair-IsSaveable (c ∷ cs) list line short visible pair saved)
]

le_trans : {a b c d : ℕ} → c ≤ d → b ≤ c → a ≤ b → a ≤ d
le_trans h k l = omega arith

parse_lines-IsSaveable :
    (fuel : ℕ) (file : Bytes) (list : List ConfigPair)
    → All IsSaveable list
    → All IsSaveable (parse_lines fuel file list)
unfolding parse_lines parse_line
parse_lines-IsSaveable zero file list saved = saved
parse_lines-IsSaveable (suc fuel) [] list saved = saved
parse_lines-IsSaveable (suc fuel) (c ∷ file) list saved =
    let r = fgets 99 (c ∷ file) in
    let (read, room) = fgets-IsRead 99 (c ∷ file) in
    let (line, short) = until_nul-IsLine r.0 read in
    let (trimmed, shorter, visible) = ltrim-IsLine (until_nul r.0) line in
    parse_lines-IsSaveable fuel r.1 (parse_line r.0 list) (
      pair_of-IsSaveable (ltrim (until_nul r.0)) list trimmed (le_trans room short shorter) visible
        saved)

-- A path that is set is opened.
parse_now-opened :
    (file path : Bytes) (list : List ConfigPair) (at : Option Bytes)
    → at ≡ some path
    → conf_parser_parse_now (λ _. some file) (record { conf_list = list; conf_file = at })
      ≡ (record { conf_list = parse_lines (length file) file list; conf_file = at }, true)
unfolding conf_parser_parse_now
parse_now-opened file path list none e = absurd (cc)
parse_now-opened file path list (some q) e = refl

-- Pairs that fit their lines are written by `conf_parser_save_file` to a file that
-- `conf_parser_parse_now` reads back as the same pairs in the same order, behind those that the
-- dictionary holds already; there has to be one pair at least, and a path that can be opened.
pub save-parse :
    (c d : Conf) (path : Bytes) (fopen_w : Bytes → Bool)
    → All IsSaveable c.conf_list
    → c.conf_list ≢ []
    → c.conf_file ≡ some path
    → d.conf_file ≡ some path
    → fopen_w path ≡ true
    → (file : Bytes) × (conf_parser_save_file fopen_w c ≡ some file)
      × (conf_parser_parse_now (λ _. some file) d
          ≡ (record d { conf_list = d.conf_list ++ c.conf_list }, true))
unfolding conf_parser_save_file
save-parse c d path fopen_w saved some_pair at there opened = (
  file_bytes c.conf_list,
  written c.conf_list some_pair,
  parse_now-opened (file_bytes c.conf_list) path d.conf_list d.conf_file there
      ∙ ap (λ list. (record d { conf_list = list }, true))
          (parse_lines-file_bytes c.conf_list d.conf_list (length (file_bytes c.conf_list)) saved
            (omega arith)),
)
  where
    written :
        (list : List ConfigPair)
        → list ≢ []
        → conf_parser_save_file fopen_w (record c { conf_list = list }) ≡ some (file_bytes list)
    written [] ne = absurd (ne refl)
    written (pair ∷ list) ne = rw (at, opened) refl

-- Whatever file is read into an empty dictionary: what it gives can be saved, unless it is
-- nothing, and reading the saved file gives the same pairs again.
pub parse-save-parse :
    (c : Conf) (path file : Bytes) (fopen_w : Bytes → Bool)
    → c.conf_list ≡ []
    → c.conf_file ≡ some path
    → fopen_w path ≡ true
    → (first : Conf) × (conf_parser_parse_now (λ _. some file) c ≡ (first, true))
      × (first.conf_list ≢ []
          → (copy : Bytes) × (conf_parser_save_file fopen_w first ≡ some copy)
            × (conf_parser_parse_now (λ _. some copy) (conf_parser_free first) ≡ (first, true)))
unfolding conf_parser_free
parse-save-parse c path file fopen_w fresh at opened =
    let list = parse_lines (length file) file c.conf_list in
    let first : Conf = record c { conf_list = list } in
    let saved : All IsSaveable list =
      parse_lines-IsSaveable (length file) file c.conf_list (rw fresh tt) in
    (
      first,
      parse_now-opened file path c.conf_list c.conf_file at,
      λ some_pair.
          save-parse first (conf_parser_free first) path fopen_w saved some_pair at at opened,
    )
