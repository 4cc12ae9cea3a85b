-- ===== src/Getopt/Progress.antt =====
-- The calls of `getopt_long` come to an end: each takes something from the arguments.
use minieap.Prelude.{
  ℕ, zero, suc, ◌+◌, ◌≤◌, ◌<◌, ◌≡◌, refl, ap, ◌∙◌, Bool, true, false, Bool-cases, inl, inr, List,
  [], ◌∷◌, Option, none, some, Option-cases, length, drop, get_elem?, get_or, Bytes, arith, ◌==◌,
  ==_iff, ◌||◌, not,
}
use minieap.Conf.{strchr}
use minieap.Getopt.{
  LongOption, Getopt, Prefix, Ordering, Match, order_permute, order_require, order_return_in_order,
  parse_optstring_prefix, find_longopt, find_shortopt,
}
use minieap.Getopt.Calls.{
  take_next, long_found, by_match, no_option, name_of, eq_of, long_option, short_argument,
  short_option, is_option, skip_arguments, take_option, by_ordering, next_option, by_cursor, start,
  getopt_long, Found, found_by, getopts,
}
use minieap.Getopt.Left.{
  Leaves, cursor_weight, drop_next, get_elem?-drop, left, length-cursor_at, never,
  skip_arguments-at, weight, weight-drop_add, weight-drop_later, weight-next,
}

module _ (argv : List Bytes) where
  take_next-Leaves :
      (next : Option Bytes) (opt i : ℕ) (silent : Bool) (st : Getopt)
      → Leaves argv (left argv st) (take_next next opt i silent st)
  take_next-Leaves none opt i silent st = omega arith
  take_next-Leaves (some a) opt i silent st =
      omega (arith, weight-drop_later argv st.optind, drop_next argv st.optind)

  long_found-Leaves :
      (silent : Bool) (o : LongOption) (i : ℕ) (eq : Option Bytes) (st : Getopt)
      → Leaves argv (left argv st) (long_found argv silent o i eq st)
  unfolding long_found
  long_found-Leaves silent o i (some v) st = ground arith
  long_found-Leaves silent o i none st = elim (Bool-cases (o.has_arg == 1)) [
    | inl required ↦ elim (Option-cases (get_elem? argv st.optind)) [
      | inl last ↦ rw (required, last) (omega arith)
      | inr (a, e) ↦ rw (required, e) (take_next-Leaves (some a) o.val i silent st)
    ]
    | inr other ↦ rw other (omega arith)
  ]

  by_match-Leaves :
      (silent : Bool) (longopts : List LongOption) (found : Match) (eq : Option Bytes) (st : Getopt)
      → Leaves argv (left argv st) (by_match argv silent longopts found eq st)
  by_match-Leaves silent longopts found eq st = elim (Option-cases found.entry) [
    | inl unknown ↦ rw unknown (omega arith)
    | inr (i, e) ↦ elim (Bool-cases found.ambiguous) [
      | inl many ↦ rw (e, many) (omega arith)
      | inr one ↦ rw (e, one) (long_found-Leaves silent (get_or longopts i no_option) i eq st)
    ]
  ]

  short_argument-Leaves :
      (silent optional : Bool) (c : ℕ) (rest : Bytes) (st : Getopt)
      → Leaves argv (weight (drop st.optind argv)) (short_argument argv silent optional c rest st)
  short_argument-Leaves silent optional c (d ∷ ds) st = omega arith
  short_argument-Leaves silent true c [] st = omega arith
  short_argument-Leaves silent false c [] st = omega (
    arith,
    take_next-Leaves (get_elem? argv st.optind) c 0 silent (record st { optcursor = none }),
  )

  short_option-Leaves :
      (silent : Bool) (optstring : Bytes) (c : ℕ) (rest : Bytes) (st : Getopt)
      → Leaves argv
          (length rest + weight (drop st.optind argv))
          (short_option argv silent optstring c rest st)
  unfolding short_option
  short_option-Leaves silent optstring c rest st = elim (Option-cases (find_shortopt optstring c)) [
    | inl unknown ↦ rw (unknown, short_option) (omega (arith, length-cursor_at rest))
    | inr (so, e) ↦ elim (Bool-cases (get_or so 1 0 == b':')) [
      | inl arg ↦
          rw (e, arg, short_option)
            (omega (
              arith,
              short_argument-Leaves silent (get_or so 2 0 == b':') c rest
                  (record st { optopt = c }),
            ))
      | inr no_arg ↦ rw (e, no_arg, short_option) (omega (arith, length-cursor_at rest))
    ]
  ]

  take_option-Leaves :
      (silent : Bool) (optstring : Bytes) (longopts : List LongOption) (arg : Bytes) (st : Getopt)
      (opt : ℕ)
      → get_elem? argv st.optind ≡ some arg
      → st.optcursor ≡ none
      → (take_option argv silent optstring longopts arg st).opt ≡ some opt
      → left argv (take_option argv silent optstring longopts arg st).after < left argv st
  unfolding take_option long_option
  take_option-Leaves silent optstring longopts [] st opt here fresh e = absurd (cc)
  take_option-Leaves silent optstring longopts (dash ∷ []) st opt here fresh e = absurd (cc)
  take_option-Leaves silent optstring longopts (dash ∷ c ∷ rest) st opt here fresh e =
      let st1 : Getopt = record st { optind = st.optind + 1 } in
      elim (Bool-cases (c == b'-')) [
        | inl dashes ↦ elim (Bool-cases (length rest == 0)) [
          | inl stop ↦ never (rw (dashes, stop) at e)
          | inr name ↦
              rw (dashes, name)
                (omega (
                  arith,
                  weight-next argv st.optind (dash ∷ c ∷ rest) here,
                  drop_next argv st.optind,
                  by_match-Leaves silent longopts
                      (find_longopt longopts (name_of rest (strchr b'=' rest)))
                      (eq_of (strchr b'=' rest)) st1,
                ))
        ]
        | inr short ↦ rw short (
            omega (
              arith,
              weight-next argv st.optind (dash ∷ c ∷ rest) here,
              drop_next argv st.optind,
              short_option-Leaves silent optstring c rest st1,
            ))
      ]

  order_lem :
      (silent : Bool) (p : Prefix) (longopts : List LongOption) (arg : Bytes) (st : Getopt)
      (opt : ℕ)
      → get_elem? argv st.optind ≡ some arg
      → st.optcursor ≡ none
      → (by_ordering argv silent p longopts arg st).opt ≡ some opt
      → left argv (by_ordering argv silent p longopts arg st).after < left argv st
  unfolding by_ordering
  order_lem silent p longopts arg st opt here fresh e = ordered p.ordering refl
    where
      ordered :
          (o : Ordering)
          → p.ordering ≡ o
          → left argv (by_ordering argv silent p longopts arg st).after < left argv st
      ordered order_require q = never (rw q at e)
      ordered order_return_in_order q =
          rw q (omega (arith, weight-next argv st.optind arg here, drop_next argv st.optind))
      ordered order_permute q = elim (Option-cases (skip_arguments (drop st.optind argv))) [
        | inl all ↦ never (rw (q, all, by_ordering) at e)
        | inr ((n, found), some_option) ↦
            let st1 : Getopt = record st { optind = st.optind + n } in
            let at : get_elem? argv (st.optind + n) ≡ some found =
              get_elem?-drop argv st.optind n
              ∙ skip_arguments-at (drop st.optind argv) n found some_option in
            let given : (take_option argv silent p.optstring longopts found st1).opt ≡ some opt =
              rw (q, some_option, by_ordering) at e in
            rw (q, some_option, by_ordering)
              (omega (
                arith,
                take_option-Leaves silent p.optstring longopts found st1 opt at fresh given,
                weight-drop_add argv st.optind n,
              ))
      ]

  next_option-Leaves :
      (silent : Bool) (p : Prefix) (longopts : List LongOption) (st : Getopt) (opt : ℕ)
      → st.optcursor ≡ none
      → (next_option argv silent p longopts st).opt ≡ some opt
      → left argv (next_option argv silent p longopts st).after < left argv st
  unfolding next_option
  next_option-Leaves silent p longopts st opt fresh e =
      elim (Option-cases (get_elem? argv st.optind)) [
        | inl over ↦ never (rw (over, next_option) at e)
        | inr (arg, here) ↦ elim (Bool-cases (is_option arg)) [
          | inl option ↦
              rw (here, option, next_option)
                (take_option-Leaves silent p.optstring longopts arg st opt here fresh
                  (rw (here, option, next_option) at e))
          | inr other ↦
              rw (here, other, next_option)
                (order_lem silent p longopts arg st opt here fresh
                  (rw (here, other, next_option) at e))
        ]
      ]

  by_cursor-Leaves :
      (silent : Bool) (p : Prefix) (longopts : List LongOption) (cursor : Option Bytes)
      (st : Getopt) (opt : ℕ)
      → st.optcursor ≡ cursor
      → (by_cursor argv silent p longopts cursor st).opt ≡ some opt
      → left argv (by_cursor argv silent p longopts cursor st).after < left argv st
  by_cursor-Leaves silent p longopts none st opt same e =
      next_option-Leaves silent p longopts st opt same e
  by_cursor-Leaves silent p longopts (some []) st opt same e =
      omega
        (arith, next_option-Leaves silent p longopts (record st { optcursor = none }) opt refl e)
  by_cursor-Leaves silent p longopts (some (c ∷ rest)) st opt same e =
      omega (arith, short_option-Leaves silent p.optstring c rest st, ap cursor_weight same)

start-left : (argv : List Bytes) (st : Getopt) → left argv (start st) ≤ left argv st
start-left argv st = elim (Bool-cases (st.optind == 0)) [
  | inl none_yet ↦
      let z : st.optind ≡ 0 = (==_iff st.optind 0).0 none_yet in
      rw none_yet (omega (arith, ap (λ i. weight (drop i argv)) z, weight-drop_later argv 0))
  | inr later ↦ rw later (omega arith)
]

-- Each call of `getopt_long` that returns an option has less left to look at.
pub getopt_long-left :
    (argv : List Bytes) (optstring : Bytes) (longopts : List LongOption) (st : Getopt) (opt : ℕ)
    → (getopt_long argv optstring longopts st).opt ≡ some opt
    → left argv (getopt_long argv optstring longopts st).after < left argv st
unfolding getopt_long
getopt_long-left argv optstring longopts st opt e = omega (
  arith,
  start-left argv st,
  by_cursor-Leaves argv ((parse_optstring_prefix optstring).silent || not (start st).opterr)
      (parse_optstring_prefix optstring) longopts (start st).optcursor (start st) opt refl e,
)

-- A caller's loop over all arguments reaches the -1: it makes no more rounds than the arguments have
-- bytes, with one more round for each argument, and a last one.
pub getopts-some :
    (fuel : ℕ) (argv : List Bytes) (optstring : Bytes) (longopts : List LongOption) (st : Getopt)
    → left argv st < fuel
    → (all : List Found) × (getopts fuel argv optstring longopts st ≡ some all)
unfolding getopts
getopts-some zero argv optstring longopts st enough = absurd (omega arith)
getopts-some (suc fuel) argv optstring longopts st enough =
    elim (Option-cases (getopt_long argv optstring longopts st).opt) [
      | inl last ↦ ([], rw (last, getopts) refl)
      | inr (opt, e) ↦
          let (all, rest) =
            getopts-some fuel argv optstring longopts (getopt_long argv optstring longopts st).after
              (omega (arith, getopt_long-left argv optstring longopts st opt e)) in
          (found_by (getopt_long argv optstring longopts st) opt ∷ all, rw (e, rest, getopts) refl)
    ]
