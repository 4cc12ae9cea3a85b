-- ===== src/Getopt/Named.antt =====
-- Options that are given by their full names, each with its argument behind it.
use minieap.Prelude.{
  ℕ, zero, suc, ◌+◌, ◌<◌, ◌≡◌, refl, sym, ap, ◌∙◌, Bool, false, List, [], ◌∷◌, none, some, All, map,
  length, drop, get_elem?, get_or, Bytes, arith, ◌||◌, not, drop-drop, ≢→==,
}
use minieap.Conf.{strchr}
use minieap.Getopt.{LongOption, Getopt, Call, Prefix, parse_optstring_prefix, find_longopt}
use minieap.Getopt.Calls.{
  Found, found_by, long_found, long_option, no_option, gives, ends, take_option, next_option,
  getopt_long, getopts,
}
use minieap.Getopt.Left.{get_elem?-drop}

-- Entry `i` of the table is found by its name, and takes an argument.
pub record IsNamed (longopts : List LongOption) (i : ℕ) : Type 0 where
  pub has_name : 0 < length (get_or longopts i no_option).name
  pub no_equals : strchr b'=' (get_or longopts i no_option).name ≡ none
  pub unique :
      find_longopt longopts (get_or longopts i no_option).name
      ≡ record { entry = some i; ambiguous = false }
  pub required : (get_or longopts i no_option).has_arg ≡ 1

abbrev pub args : List LongOption → List (ℕ × Bytes) → List Bytes
args longopts [] = []
args longopts (given ∷ rest) =
    (b'-' ∷ b'-' ∷ (get_or longopts given.0 no_option).name) ∷ given.1 ∷ args longopts rest

abbrev pub found_for : List LongOption → ℕ × Bytes → Found
found_for longopts given = record {
  opt = (get_or longopts given.0 no_option).val;
  long_index = given.0;
  optarg = some given.1;
}

module _ (argv : List Bytes) (optstring : Bytes) (longopts : List LongOption) where
  -- Behind the program's name and at the start of an argument.
  abbrev Fresh : Getopt → Type 0
  Fresh st = (0 < st.optind) × (st.optcursor ≡ none)

  abbrev silent_for : Getopt → Bool
  silent_for st = (parse_optstring_prefix optstring).silent || not st.opterr

  getopt_long-Fresh :
      (st : Getopt)
      → Fresh st
      → getopt_long argv optstring longopts st
        ≡ next_option argv
            (silent_for st)
            (parse_optstring_prefix optstring)
            longopts
            (record st { optarg = none })
  unfolding getopt_long
  getopt_long-Fresh st fresh =
      rw (≢→== st.optind 0 (λ e. absurd (omega (arith, e, fresh.0))), fresh.1) refl

  at_drop :
      (k n : ℕ) (rest : List Bytes) → drop k argv ≡ rest → get_elem? argv (k + n) ≡ get_elem? rest n
  at_drop k n rest e = get_elem?-drop argv k n ∙ ap (λ xs. get_elem? xs n) e

  take_option-named :
      (silent : Bool) (os : Bytes) (i : ℕ) (v : Bytes) (st : Getopt)
      → IsNamed longopts i
      → get_elem? argv (st.optind + 1) ≡ some v
      → take_option argv silent os longopts (b'-' ∷ b'-' ∷ (get_or longopts i no_option).name) st
        ≡ gives
            (get_or longopts i no_option).val
            i
            (record st { optarg = some v; optind = st.optind + 1 + 1 })
  unfolding take_option long_option long_found
  take_option-named silent os i v st named next =
      rw
        (
          ≢→== (length (get_or longopts i no_option).name) 0
              (λ z. absurd (omega (arith, z, named.has_name))),
          named.no_equals,
          named.unique,
          named.required,
          next,
        )
        refl

  next_option-named :
      (silent : Bool) (p : Prefix) (i : ℕ) (v : Bytes) (rest : List Bytes) (st : Getopt)
      → IsNamed longopts i
      → drop st.optind argv ≡ (b'-' ∷ b'-' ∷ (get_or longopts i no_option).name) ∷ v ∷ rest
      → next_option argv silent p longopts st
        ≡ gives
            (get_or longopts i no_option).val
            i
            (record st { optarg = some v; optind = st.optind + 1 + 1 })
  unfolding next_option
  next_option-named silent p i v rest st named e =
      let plus : st.optind + 0 ≡ st.optind = omega arith in
      let first =
        ap (get_elem? argv) (sym plus)
        ∙ at_drop st.optind 0 ((b'-' ∷ b'-' ∷ (get_or longopts i no_option).name) ∷ v ∷ rest) e in
      rw (first, next_option)
        (take_option-named silent p.optstring i v st named
          (at_drop st.optind 1 ((b'-' ∷ b'-' ∷ (get_or longopts i no_option).name) ∷ v ∷ rest) e))

  next_option-none :
      (silent : Bool) (p : Prefix) (st : Getopt)
      → drop st.optind argv ≡ []
      → next_option argv silent p longopts st ≡ ends st
  unfolding next_option
  next_option-none silent p st e =
      let plus : st.optind + 0 ≡ st.optind = omega arith in
      let last = ap (get_elem? argv) (sym plus) ∙ at_drop st.optind 0 [] e in
      rw (last, next_option) refl

  drop_pair :
      (k : ℕ) (a b : Bytes) (rest : List Bytes)
      → drop k argv ≡ a ∷ b ∷ rest
      → drop (k + 1 + 1) argv ≡ rest
  drop_pair k a b rest e =
      let two : k + 1 + 1 ≡ k + 2 = omega arith in
      ap (λ n. drop n argv) two ∙ sym (drop-drop k 2 argv) ∙ ap (λ xs. drop 2 xs) e

  getopts-given :
      (fuel : ℕ) (given : List (ℕ × Bytes)) (st : Getopt)
      → All (λ g. IsNamed longopts g.0) given
      → Fresh st
      → drop st.optind argv ≡ args longopts given
      → length given < fuel
      → getopts fuel argv optstring longopts st ≡ some (map (found_for longopts) given)
  unfolding getopts
  getopts-given zero given st named fresh e enough = absurd (omega arith)
  getopts-given (suc fuel) [] st named fresh e enough =
      let call =
        getopt_long-Fresh st fresh
        ∙ next_option-none (silent_for st) (parse_optstring_prefix optstring)
            (record st { optarg = none }) e in
      rw (call, getopts) refl
  getopts-given (suc fuel) ((i, v) ∷ rest) st named fresh e enough =
      let st1 : Getopt = record st { optarg = some v; optind = st.optind + 1 + 1 } in
      let call =
        getopt_long-Fresh st fresh
        ∙ next_option-named (silent_for st) (parse_optstring_prefix optstring) i v
            (args longopts rest) (record st { optarg = none }) named.0 e in
      let later =
        getopts-given fuel rest st1 named.1 (omega (arith, fresh.0), fresh.1)
          (drop_pair st.optind (b'-' ∷ b'-' ∷ (get_or longopts i no_option).name) v
            (args longopts rest) e)
          (omega (arith, enough)) in
      ap
        (λ (c : Call). elim c.opt [
          | none ↦ some []
          | some opt ↦ elim (getopts fuel argv optstring longopts c.after) [
            | none ↦ none
            | some all ↦ some (found_by c opt ∷ all)
          ]
        ])
        call
      ∙ rw later refl

-- A command line of options with arguments, each given as `--name argument` with the full name: a
-- caller's loop finds the options in order, each with its entry's number and value and with its
-- argument, whatever the argument looks like. Each name has to be found in the table, be non-empty
-- and have no '='; one round more than there are options is enough.
pub getopts-args :
    (program optstring : Bytes) (longopts : List LongOption) (given : List (ℕ × Bytes)) (fuel : ℕ)
    (st : Getopt)
    → All (λ g. IsNamed longopts g.0) given
    → st.optind ≡ 1
    → st.optcursor ≡ none
    → length given < fuel
    → getopts fuel (program ∷ args longopts given) optstring longopts st
      ≡ some (map (found_for longopts) given)
getopts-args program optstring longopts given fuel st named first cursor enough =
    getopts-given (program ∷ args longopts given) optstring longopts fuel given st named
      (omega (arith, first), cursor) (ap (λ n. drop n (program ∷ args longopts given)) first) enough
