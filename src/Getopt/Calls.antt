-- ===== src/Getopt/Calls.antt =====
-- The calls of compat/getopt.c: one option of the arguments after the other.
use minieap.Prelude.{
  ℕ, zero, suc, ◌+◌, Bool, true, false, not, ◌||◌, List, [], ◌∷◌, Option, none, some, ◌==◌,
  if◌then◌else◌, length, drop, get_or, get_elem?, Bytes,
}
use minieap.Conf.{strchr}
use minieap.Getopt.{
  Call, Getopt, LongOption, Match, Prefix, find_longopt, find_shortopt, optional_argument,
  order_permute, order_require, order_return_in_order, parse_optstring_prefix, required_argument,
}

abbrev pub question_mark : ℕ
question_mark = b'?'

-- What is returned for a missing argument.
abbrev pub missing : (silent : Bool) → ℕ
missing silent = if silent then b':' else question_mark

abbrev pub gives : ℕ → (long_index : ℕ) → Getopt → Call
gives opt long_index after = record { opt = some opt; long_index = long_index; after = after }

abbrev pub ends : Getopt → Call
ends after = record { opt = none; long_index = 0; after = after }

-- The argument that stands next in `argv`, or else what is returned without it.
abbrev pub take_next :
    (next : Option Bytes) → (opt long_index : ℕ) → (silent : Bool) → Getopt → Call
take_next none opt long_index silent st = gives (missing silent) long_index st
take_next (some a) opt long_index silent st =
    gives opt long_index (record st { optarg = some a; optind = st.optind + 1 })

abbrev pub val_of : LongOption → Getopt → Getopt
val_of o st = record st { optopt = o.val }

-- A long option that is found, with what stands behind '='.
unfoldable pub long_found :
    (argv : List Bytes)
    → (silent : Bool) → (o : LongOption) → (index : ℕ) → (eq : Option Bytes) → Getopt
    → Call
long_found argv silent o index (some v) st =
    if o.has_arg == required_argument || o.has_arg == optional_argument
    then gives o.val index (record st { optarg = some v })
    else gives question_mark index (val_of o st)
long_found argv silent o index none st =
    if o.has_arg == required_argument
    then (elim (get_elem? argv st.optind) [
      | none ↦ take_next none o.val index silent (val_of o st)
      | some a ↦ take_next (some a) o.val index silent st
    ])
    else gives o.val index st

-- The name and what stands behind '='.
abbrev pub name_of : Bytes → Option (Bytes × Bytes) → Bytes
name_of text none = text
name_of text (some split) = split.0

abbrev pub eq_of : Option (Bytes × Bytes) → Option Bytes
eq_of none = none
eq_of (some split) = some (drop 1 split.1)

abbrev pub no_option : LongOption
no_option = record { name = []; has_arg = 0; val = 0 }

abbrev pub by_match :
    (argv : List Bytes)
    → (silent : Bool) → (longopts : List LongOption) → Match
    → (eq : Option Bytes) → Getopt
    → Call
by_match argv silent longopts found eq st = elim found.entry [
  | none ↦ gives question_mark 0 (record st { optopt = 0 })
  | some i ↦
      if found.ambiguous
      then gives question_mark 0 (record st { optopt = 0 })
      else long_found argv silent (get_or longopts i no_option) i eq st
]

-- `text` is the argument behind "--".
unfoldable pub long_option :
    (argv : List Bytes)
    → (silent : Bool) → (longopts : List LongOption) → (text : Bytes) → Getopt
    → Call
unfolding long_found strchr find_longopt
long_option argv silent longopts text st =
    let split = strchr b'=' text in
    by_match argv silent longopts (find_longopt longopts (name_of text split)) (eq_of split) st

abbrev pub cursor_at : Bytes → Option Bytes
cursor_at [] = none
cursor_at (c ∷ cs) = some (c ∷ cs)

-- A short option with an argument: the rest of the same one, or the next.
abbrev pub short_argument :
    (argv : List Bytes) → (silent optional : Bool) → (c : ℕ) → (rest : Bytes) → Getopt → Call
short_argument argv silent optional c (d ∷ ds) st =
    gives c 0 (record st { optarg = some (d ∷ ds); optcursor = none })
short_argument argv silent true c [] st = gives c 0 (record st { optcursor = none })
short_argument argv silent false c [] st =
    take_next (get_elem? argv st.optind) c 0 silent (record st { optcursor = none })

-- `c` is the option, and `rest` what stands behind it in the argument.
unfoldable pub short_option :
    (argv : List Bytes)
    → (silent : Bool) → (optstring : Bytes) → (c : ℕ) → (rest : Bytes) → Getopt
    → Call
unfolding find_shortopt
short_option argv silent optstring c rest st =
    let st = record st { optopt = c } in
    elim (find_shortopt optstring c) [
      | none ↦ gives question_mark 0 (record st { optcursor = cursor_at rest })
      | some so ↦
          if get_or so 1 0 == b':'
          then short_argument argv silent (get_or so 2 0 == b':') c rest st
          else gives c 0 (record st { optcursor = cursor_at rest })
    ]

abbrev pub is_option : Bytes → Bool
is_option [] = false
is_option (c ∷ []) = false
is_option (c ∷ d ∷ rest) = c == b'-'

-- The loop for an option behind the arguments that are none: how many of them there are.
unfoldable pub skip_arguments : List Bytes → Option (ℕ × Bytes)
skip_arguments [] = none
skip_arguments (arg ∷ args) = elim (is_option arg) [
  | true ↦ some (0, arg)
  | false ↦ elim (skip_arguments args) [ none ↦ none | some (n, found) ↦ some (suc n, found) ]
]

-- An argument that starts with '-'.
unfoldable pub take_option :
    (argv : List Bytes)
    → (silent : Bool) → (optstring : Bytes) → (longopts : List LongOption) → (arg : Bytes) → Getopt
    → Call
unfolding long_option short_option
take_option argv silent optstring longopts [] st = ends st
take_option argv silent optstring longopts (dash ∷ []) st = ends st
take_option argv silent optstring longopts (dash ∷ c ∷ rest) st =
    let st = record st { optind = st.optind + 1 } in
    if c == b'-'
    then (if length rest == 0 then ends st else long_option argv silent longopts rest st)
    else short_option argv silent optstring c rest st

-- An argument that is no option.
unfoldable pub by_ordering :
    (argv : List Bytes)
    → (silent : Bool) → Prefix
    → (longopts : List LongOption) → (arg : Bytes) → Getopt
    → Call
unfolding skip_arguments take_option
by_ordering argv silent p longopts arg st = elim p.ordering [
  | order_require ↦ ends st
  | order_return_in_order ↦ gives 1 0 (record st { optarg = some arg; optind = st.optind + 1 })
  | order_permute ↦ elim (skip_arguments (drop st.optind argv)) [
    | none ↦ ends st
    | some (n, found) ↦
        take_option argv silent p.optstring longopts found (record st { optind = st.optind + n })
  ]
]

-- From the test of `optcursor` on.
unfoldable pub next_option :
    (argv : List Bytes) → (silent : Bool) → Prefix → (longopts : List LongOption) → Getopt → Call
unfolding take_option by_ordering
next_option argv silent p longopts st = elim (get_elem? argv st.optind) [
  | none ↦ ends st
  | some arg ↦
      if is_option arg
      then take_option argv silent p.optstring longopts arg st
      else by_ordering argv silent p longopts arg st
]

abbrev pub by_cursor :
    (argv : List Bytes)
    → (silent : Bool) → Prefix
    → (longopts : List LongOption) → (cursor : Option Bytes) → Getopt
    → Call
by_cursor argv silent p longopts none st = next_option argv silent p longopts st
by_cursor argv silent p longopts (some []) st =
    next_option argv silent p longopts (record st { optcursor = none })
by_cursor argv silent p longopts (some (c ∷ rest)) st =
    short_option argv silent p.optstring c rest st

abbrev pub start : Getopt → Getopt
start st =
    let st = record st { optarg = none } in
    if st.optind == 0 then record st { optind = 1; optcursor = none } else st

unfoldable pub getopt_long :
    (argv : List Bytes) → (optstring : Bytes) → (longopts : List LongOption) → Getopt → Call
unfolding parse_optstring_prefix next_option short_option
getopt_long argv optstring longopts st =
    let p = parse_optstring_prefix optstring in
    let st = start st in by_cursor argv (p.silent || not st.opterr) p longopts st.optcursor st

-- No table of long options.
unfoldable pub getopt : (argv : List Bytes) → (optstring : Bytes) → Getopt → Call
unfolding getopt_long
getopt argv optstring st = getopt_long argv optstring [] st

-- What a caller sees of a call: its result, `longindex` and `optarg`.
pub record Found : Type 0 where
  pub opt : ℕ
  pub long_index : ℕ
  pub optarg : Option Bytes

abbrev pub found_by : Call → (opt : ℕ) → Found
found_by call opt = record { opt = opt; long_index = call.long_index; optarg = call.after.optarg }

-- The loop of a caller up to the -1. `none` is fuel that is too little.
unfoldable pub getopts :
    (fuel : ℕ)
    → (argv : List Bytes) → (optstring : Bytes) → (longopts : List LongOption) → Getopt
    → Option (List Found)
unfolding getopt_long
getopts zero argv optstring longopts st = none
getopts (suc fuel) argv optstring longopts st =
    let call = getopt_long argv optstring longopts st in
    elim call.opt [
      | none ↦ some []
      | some opt ↦ elim (getopts fuel argv optstring longopts call.after) [
        | none ↦ none
        | some all ↦ some (found_by call opt ∷ all)
      ]
    ]
