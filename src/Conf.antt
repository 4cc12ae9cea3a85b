-- ===== src/Conf.antt =====
-- util/conf_parser.c: the dictionary of the configuration file. A C string is the list of its
-- bytes without the final NUL; the file system is a parameter, and allocation succeeds.
pub mod Text
pub mod Saved
pub mod RoundTrip
pub mod Lookup
pub mod Check
use minieap.Prelude.{
  ℕ, zero, suc, ◌+◌, ◌-◌, Bool, true, false, ◌&&◌, ◌||◌, List, [], ◌∷◌, ◌++◌, Option, none, some,
  leb, ltb, ◌==◌, if◌then◌else◌, length, drop, Bytes,
}
use minieap.LinkedList.{insert_data, lookup_data, list_destroy, list_traverse}
use minieap.Plugins.{text_eq}

-- CONFIG_PAIR
pub record ConfigPair : Type 0 where
  pub key : Bytes
  pub value : Bytes

-- `g_conf_list` and `g_conf_file`, `none` for NULL.
pub record Conf : Type 0 where
  pub conf_list : List ConfigPair
  pub conf_file : Option Bytes

abbrev pub max_line_len : ℕ
max_line_len = 100

-- The `isspace` of the C locale.
abbrev pub is_space : ℕ → Bool
is_space c = c == b' ' || (leb 9 c && leb c 13)

-- LTRIM
unfoldable pub ltrim : Bytes → Bytes
ltrim [] = []
ltrim (c ∷ cs) = let rest = ltrim cs in if is_space c then rest else c ∷ cs

abbrev pub keep_unless_blank : ℕ → Bytes → Bytes
keep_unless_blank c [] = if is_space c then [] else c ∷ []
keep_unless_blank c (d ∷ rest) = c ∷ d ∷ rest

-- RTRIM
unfoldable pub rtrim : Bytes → Bytes
rtrim [] = []
rtrim (c ∷ cs) = keep_unless_blank c (rtrim cs)

-- `strchr`: what stands in front of the first `c`, and the string that starts with it.
unfoldable pub strchr : (c : ℕ) → Bytes → Option (Bytes × Bytes)
strchr c [] = none
strchr c (x ∷ xs) =
    let rest = strchr c xs in
    if x == c
    then some ([], x ∷ xs)
    else elim rest [ none ↦ none | some split ↦ some (x ∷ split.0, split.1) ]

-- The string that starts a memory: the bytes up to the first NUL.
unfoldable pub until_nul : Bytes → Bytes
until_nul [] = []
until_nul (c ∷ cs) = let rest = until_nul cs in if c == 0 then [] else c ∷ rest

-- `fgets` with room for `room` bytes and the NUL: the bytes that are read, and those that are left.
unfoldable pub fgets : (room : ℕ) → Bytes → Bytes × Bytes
fgets zero file = ([], file)
fgets (suc room) [] = ([], [])
fgets (suc room) (c ∷ file) =
    let rest = fgets room file in if c == b'\n' then (c ∷ [], file) else (c ∷ rest.0, rest.1)

unfoldable pub conf_parser_set_file_path : Bytes → Conf → Conf
conf_parser_set_file_path path c = record c { conf_file = some path }

unfoldable pub conf_parser_add_value : (key value : Option Bytes) → Conf → Conf × Bool
unfolding insert_data
conf_parser_add_value none value c = (c, false)
conf_parser_add_value (some key) none c = (c, false)
conf_parser_add_value (some key) (some value) c =
    (record c { conf_list = insert_data c.conf_list (record { key = key; value = value }) }, true)

-- The key and the value of a line that starts with no space, `none` for a line without '='.
unfoldable pub split_pair : Bytes → Option ConfigPair
unfolding strchr rtrim
split_pair start = elim (strchr b'=' start) [
  | none ↦ none
  | some split ↦ some (record { key = split.0; value = drop 1 (rtrim split.1) })
]

-- What the loop's body takes from a line: nothing from a comment or a malformed line.
abbrev pub pair_of : (start : Bytes) → Option ConfigPair
pair_of [] = none
pair_of (c ∷ cs) = if c == b'#' then none else split_pair (c ∷ cs)

abbrev pub add_pair : Option ConfigPair → List ConfigPair → List ConfigPair
add_pair none list = list
add_pair (some pair) list = insert_data list pair

unfoldable pub parse_line : (line : Bytes) → List ConfigPair → List ConfigPair
unfolding until_nul ltrim split_pair insert_data
parse_line line list = add_pair (pair_of (ltrim (until_nul line))) list

-- The loop over the lines of the file. Each round reads at least one byte.
unfoldable pub parse_lines : (fuel : ℕ) → (file : Bytes) → List ConfigPair → List ConfigPair
unfolding fgets parse_line
parse_lines zero file list = list
parse_lines (suc fuel) [] list = list
parse_lines (suc fuel) (c ∷ file) list =
    let (line, rest) = fgets (max_line_len - 1) (c ∷ file) in
    parse_lines fuel rest (parse_line line list)

-- `fopen_r` gives the bytes of the file at a path, `none` if it cannot be opened.
unfoldable pub conf_parser_parse_now : (fopen_r : Bytes → Option Bytes) → Conf → Conf × Bool
unfolding parse_lines
conf_parser_parse_now fopen_r c = elim c.conf_file [
  | none ↦ (c, false)
  | some path ↦ elim (fopen_r path) [
    | none ↦ (c, false)
    | some file ↦ (record c { conf_list = parse_lines (length file) file c.conf_list }, true)
  ]
]

abbrev pub conf_pair_key_cmpfunc : Bytes → ConfigPair → Bool
conf_pair_key_cmpfunc to_find node = text_eq to_find node.key

-- The string that is copied to the buffer, `none` for FAILURE.
unfoldable pub conf_parser_get_value : (key : Bytes) → (buflen : ℕ) → Conf → Option Bytes
unfolding lookup_data
conf_parser_get_value key buflen c = elim (lookup_data c.conf_list key conf_pair_key_cmpfunc) [
  | none ↦ none
  | some pair ↦ if leb buflen (length pair.value) then none else some pair.value
]

-- The write to the pair that `lookup_data` finds.
unfoldable pub update_value : (key value : Bytes) → List ConfigPair → List ConfigPair
update_value key value [] = []
update_value key value (pair ∷ list) =
    let rest = update_value key value list in
    if conf_pair_key_cmpfunc key pair then record pair { value = value } ∷ list else pair ∷ rest

unfoldable pub conf_parser_set_value : (key value : Bytes) → Conf → Conf × Bool
unfolding lookup_data update_value conf_parser_add_value
conf_parser_set_value key value c = elim (lookup_data c.conf_list key conf_pair_key_cmpfunc) [
  | none ↦ conf_parser_add_value (some key) (some value) c
  | some pair ↦ (record c { conf_list = update_value key value c.conf_list }, true)
]

unfoldable pub conf_parser_traverse {κ} : {S : Type κ} → (ConfigPair → S → S) → Conf → S → S
unfolding list_traverse
conf_parser_traverse func c user =
    (list_traverse c.conf_list (λ pair s. record { content = pair; user = func pair s }) user).user

abbrev pub pair_bytes : ConfigPair → Bytes
pair_bytes pair = pair.key ++ (b'=' ∷ (pair.value ++ b'\n' ∷ []))

unfoldable pub file_bytes : List ConfigPair → Bytes
file_bytes [] = []
file_bytes (pair ∷ list) = pair_bytes pair ++ file_bytes list

-- The bytes that the file at the path is left with, `none` for FAILURE. `fopen_w` says whether the
-- path can be written; a NULL path cannot.
unfoldable pub conf_parser_save_file : (fopen_w : Bytes → Bool) → Conf → Option Bytes
unfolding file_bytes
conf_parser_save_file fopen_w c = elim c.conf_list [
  | [] ↦ none
  | pair ∷ list ↦ elim c.conf_file [
    | none ↦ none
    | some path ↦ if fopen_w path then some (file_bytes (pair ∷ list)) else none
  ]
]

unfoldable pub conf_parser_free : Conf → Conf
unfolding list_destroy
conf_parser_free c = record c { conf_list = list_destroy c.conf_list }
