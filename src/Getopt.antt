-- ===== src/Getopt.antt =====
-- compat/getopt.c, for systems without `getopt_long`. A C string is the list of its bytes without
-- the final NUL. Messages are left out, as is `flag`, which is NULL in each table of the program;
-- `optind` is not negative.
pub mod Calls
pub mod Left
pub mod Progress
pub mod Named
use minieap.Prelude.{
  ℕ, zero, suc, ◌+◌, ◌-◌, Bool, true, false, not, ◌&&◌, ◌||◌, List, [], ◌∷◌, Option, none, some,
  ltb, ◌==◌, if◌then◌else◌, length, drop, get_or, get_elem?, Bytes,
}
use minieap.Conf.{strchr}

-- struct option
pub record LongOption : Type 0 where
  pub name : Bytes
  pub has_arg : ℕ
  pub val : ℕ

abbrev pub no_argument : ℕ
no_argument = 0

abbrev pub required_argument : ℕ
required_argument = 1

abbrev pub optional_argument : ℕ
optional_argument = 2

pub data Ordering : Type 0 where
  order_permute order_require order_return_in_order : Ordering

-- The globals. `optcursor` is what is left of an argument with short options, `none` for NULL.
pub record Getopt : Type 0 where
  pub optarg : Option Bytes
  pub optind : ℕ
  pub opterr : Bool
  pub optopt : ℕ
  pub optcursor : Option Bytes

-- The result of a call, `none` for -1, and `*longindex`.
pub record Call : Type 0 where
  pub opt : Option ℕ
  pub long_index : ℕ
  pub after : Getopt

pub record Prefix : Type 0 where
  pub ordering : Ordering
  pub silent : Bool
  pub optstring : Bytes

abbrev pub silence : Ordering → Bytes → Prefix
silence ordering [] = record { ordering = ordering; silent = false; optstring = [] }
silence ordering (c ∷ cs) =
    if c == b':'
    then record { ordering = ordering; silent = true; optstring = cs }
    else record { ordering = ordering; silent = false; optstring = c ∷ cs }

unfoldable pub parse_optstring_prefix : (optstring : Bytes) → Prefix
parse_optstring_prefix [] = silence Ordering.order_permute []
parse_optstring_prefix (c ∷ cs) =
    if c == b'-'
    then silence Ordering.order_return_in_order cs
    else if c == b'+'
    then silence Ordering.order_require cs
    else silence Ordering.order_permute (c ∷ cs)

-- What stands behind `name` in a string that `strncmp` finds to start with it.
unfoldable pub behind : (name : Bytes) → (text : Bytes) → Option Bytes
behind [] text = some text
behind (c ∷ name) [] = none
behind (c ∷ name) (d ∷ text) = let rest = behind name text in if d == c then rest else none

-- The entry's number, if one is found.
abbrev pub Match : Type 0
Match = record { entry : Option ℕ; ambiguous : Bool }

abbrev pub is_found : Option ℕ → Bool
is_found none = false
is_found (some i) = true

abbrev pub first_found : Option ℕ → ℕ → Option ℕ
first_found none i = some i
first_found (some j) i = some j

-- The loop over the entries from number `i` on.
unfoldable pub find_entry : List LongOption → (name : Bytes) → (i : ℕ) → Match → Match
unfolding behind
find_entry [] name i found = found
find_entry (p ∷ ps) name i found = elim (behind name p.name) [
  | none ↦ find_entry ps name (suc i) found
  | some rest ↦ elim (length rest) [
    | zero ↦ record { entry = some i; ambiguous = found.ambiguous }
    | suc n ↦ find_entry ps name (suc i) (record {
      entry = first_found found.entry i;
      ambiguous = found.ambiguous || is_found found.entry;
    })
  ]
]

unfoldable pub find_longopt : List LongOption → (name : Bytes) → Match
unfolding find_entry
find_longopt longopts name = find_entry longopts name 0 (record { entry = none; ambiguous = false })

-- The optstring from the option on.
unfoldable pub find_shortopt : (optstring : Bytes) → (c : ℕ) → Option Bytes
find_shortopt [] c = none
find_shortopt (d ∷ ds) c = let rest = find_shortopt ds c in if d == c then some (d ∷ ds) else rest
