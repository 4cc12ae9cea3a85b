-- ===== src/Config/Kept.antt =====
-- What one option of the command line does to the list of plugins of config.c.
use minieap.Prelude.{
  ℕ, suc, ◌+◌, ◌<◌, ◌≡◌, refl, ap, ◌∙◌, Bool, true, false, not, ◌||◌, Bool-cases, inl, inr, List,
  [], ◌∷◌, ◌++◌, Option, none, some, Option-cases, if◌then◌else◌, ◌==◌, ==_iff, ltb, ge→ltb, lt→ltb,
  length, get_or, Bytes, codes, arith, holds_below, holds_below-true,
}
use minieap.Prelude.Int.{ℤ, is_pos}
use minieap.LinkedList.{insert_data}
use minieap.LinkedList.Sequence.{insert_data-append}
use minieap.Plugins.{text_eq}
use minieap.Conf.Lookup.{text_eq-eq}
use minieap.Misc.{find_index, shortopt2longindex}
use minieap.Misc.Atoi.{atoi}
use minieap.Getopt.Calls.{Found}
use minieap.Config.{Settings, Parsed, goes_on, exits, faults, with_arg, positive, parse_one_opt}
use minieap.Config.CommandLine.{long_vals, long_names, option_index, is_module, parse_found}

-- A call that goes on leaves this list of plugins.
pub data Keeps (list : List Bytes) : Parsed → Type 0 where
  kept : {t : Settings} → t.packet_plugin_list ≡ list → Keeps list (goes_on t)
  ended : Keeps list exits
  faulted : Keeps list faults

either :
    {list : List Bytes} {p q : Parsed} (b : Bool)
    → Keeps list p
    → Keeps list q
    → Keeps list (if b then p else q)
either true h k = h
either false h k = k

with_arg-Keeps :
    {list : List Bytes} (argument : Option Bytes) (set : Bytes → Settings)
    → ((a : Bytes) → (set a).packet_plugin_list ≡ list)
    → Keeps list (with_arg argument set)
with_arg-Keeps none set h = faulted
with_arg-Keeps (some a) set h = kept (h a)

positive-list :
    (s : Settings) (set : ℤ → Settings) (z : ℤ)
    → ((z : ℤ) → (set z).packet_plugin_list ≡ s.packet_plugin_list)
    → (positive s set z).packet_plugin_list ≡ s.packet_plugin_list
positive-list s set z h = elim (Bool-cases (is_pos z)) [ inl b ↦ rw b (h z) | inr b ↦ rw b refl ]

abbrev pub names_module : Bytes → Bool
names_module option = text_eq option (codes "module") || text_eq option (codes "pkt-plugin")

not_module :
    {list : List Bytes} {q : Parsed} (option : Bytes) (p : Parsed)
    → names_module option ≡ false
    → Keeps list q
    → Keeps list
        (if text_eq option (codes "pkt-plugin") || text_eq option (codes "module") then p else q)
not_module option p other h =
    by_names (text_eq option (codes "module")) (text_eq option (codes "pkt-plugin")) other h
  where
    by_names :
        {list : List Bytes} {q : Parsed} (a b : Bool)
        → (a || b) ≡ false
        → Keeps list q
        → Keeps list (if b || a then p else q)
    by_names true b e h = absurd (cc)
    by_names false true e h = absurd (cc)
    by_names false false e h = h

-- The other options of `parse_one_opt`.
parse_one_opt-Keeps :
    (option : Bytes) (argument : Option Bytes) (s : Settings)
    → names_module option ≡ false
    → Keeps s.packet_plugin_list (parse_one_opt option argument s)
unfolding parse_one_opt
parse_one_opt-Keeps option argument s other =
    either (text_eq option (codes "username")) (with_arg-Keeps argument _ λ a. refl) (
      either (text_eq option (codes "password")) (with_arg-Keeps argument _ λ a. refl) (
        either (text_eq option (codes "nic")) (with_arg-Keeps argument _ λ a. refl) (
          either (text_eq option (codes "daemonize")) (with_arg-Keeps argument _ λ a. refl) (
            not_module option _ other (
              either (text_eq option (codes "if-impl")) (with_arg-Keeps argument _ λ a. refl) (
                either (text_eq option (codes "save")) (kept refl) (
                  either (text_eq option (codes "help")) ended (
                    either (text_eq option (codes "max-fail")) (with_arg-Keeps argument _ λ a. refl)
                      (either (text_eq option (codes "max-retries"))
                        (with_arg-Keeps argument _ λ a. refl)
                        (either (text_eq option (codes "no-auto-reauth")) (kept refl) (
                          either (text_eq option (codes "wait-after-fail"))
                            (with_arg-Keeps argument _ λ a. refl)
                            (either (text_eq option (codes "stage-timeout"))
                              (with_arg-Keeps argument _ λ a. refl)
                              (either (text_eq option (codes "kill")) (kept refl) (
                                either (text_eq option (codes "proxy-lan-iface"))
                                  (with_arg-Keeps argument _ λ a. refl)
                                  (either (text_eq option (codes "auth-round"))
                                    (with_arg-Keeps argument _ λ a. refl)
                                    (either (text_eq option (codes "pid-file"))
                                      (with_arg-Keeps argument _ λ a. refl)
                                      (either (text_eq option (codes "log-file"))
                                        (with_arg-Keeps argument _ λ a. refl)
                                        (either (text_eq option (codes "internet-check"))
                                          (kept refl)
                                          (either (text_eq option (codes "internet-check-url"))
                                            (with_arg-Keeps argument _ λ a. refl)
                                            (either
                                              (text_eq option (codes "internet-check-interval"))
                                              (with_arg-Keeps argument
                                                (λ a.
                                                  positive s
                                                    (λ z. record s { internet_check_interval = z })
                                                    (atoi a))
                                                (λ a.
                                                  positive-list s
                                                    (λ z. record s { internet_check_interval = z })
                                                    (atoi a) (λ z. refl)))
                                              (either
                                                (text_eq option (codes "internet-check-timeout"))
                                                (with_arg-Keeps argument
                                                  (λ a.
                                                    positive s
                                                      (λ z. record s { internet_check_timeout = z })
                                                      (atoi a))
                                                  (λ a.
                                                    positive-list s
                                                      (λ z. record s { internet_check_timeout = z })
                                                      (atoi a) (λ z. refl)))
                                                (either
                                                  (text_eq option (codes "internet-check-max-fail"))
                                                  (with_arg-Keeps argument
                                                    (λ a.
                                                      positive s
                                                        (λ z. record s {
                                                          internet_check_max_fail = z;
                                                        })
                                                        (atoi a))
                                                    (λ a.
                                                      positive-list s
                                                        (λ z. record s {
                                                          internet_check_max_fail = z;
                                                        })
                                                        (atoi a) (λ z. refl)))
                                                  (kept refl)))))))))))))))))))))))

abbrev pub arg_of : Option Bytes → List Bytes
arg_of none = []
arg_of (some a) = a ∷ []

module_arg :
    (argument : Option Bytes) (s : Settings)
    → Keeps (s.packet_plugin_list ++ arg_of argument) (
        with_arg argument
          (λ a. record s { packet_plugin_list = insert_data s.packet_plugin_list a }))
module_arg none s = faulted
module_arg (some a) s = kept (insert_data-append s.packet_plugin_list a)

parse_one_opt-module :
    (option : Bytes) (argument : Option Bytes) (s : Settings)
    → names_module option ≡ true
    → Keeps (s.packet_plugin_list ++ arg_of argument) (parse_one_opt option argument s)
unfolding parse_one_opt
parse_one_opt-module option argument s named = elim (Bool-cases (text_eq option (codes "module"))) [
  | inl first ↦ rw (text_eq-eq option (codes "module") first) (module_arg argument s)
  | inr other ↦
      rw (text_eq-eq option (codes "pkt-plugin") (rw other at named)) (module_arg argument s)
]

find_index-at :
    (opt : ℕ) (vals : List ℕ) (k i : ℕ)
    → find_index opt vals k ≡ some i
    → (n : ℕ) × (i ≡ k + n) × (n < length vals) × (get_or vals n 0 ≡ opt)
unfolding find_index
find_index-at opt [] k i e = absurd (cc)
find_index-at opt (val ∷ vals) k i e = elim (Bool-cases (val == opt)) [
  | inl here ↦
      let q : some k ≡ some i = rw (here, find_index) at e in
      let z : k ≡ i = cc in (0, omega (arith, z), omega arith, (==_iff val opt).0 here)
  | inr later ↦
      let (n, at, short, same) = find_index-at opt vals (k + 1) i (rw (later, find_index) at e) in
      (suc n, omega (arith, at), omega (arith, short), same)
]

-- No option with a short form names a plugin.
short_table :
    holds_below 25 (λ i. get_or long_vals i 0 == 0 || not (names_module (get_or long_names i [])))
    ≡ true
unfolding holds_below
short_table = refl

short-not_module :
    (opt i : ℕ)
    → 0 < opt
    → shortopt2longindex opt long_vals ≡ some i
    → names_module (get_or long_names i []) ≡ false
unfolding shortopt2longindex
short-not_module opt i positive e =
    let (n, at, short, same) = find_index-at opt long_vals 0 i e in
    let z : i ≡ n = omega (arith, at) in
    rw z (
      parts (get_or long_vals n 0) (names_module (get_or long_names n []))
        (omega (arith, same, positive)) (holds_below-true 25 _ n short_table short))
  where
    parts : (v : ℕ) (b : Bool) → 0 < v → (v == 0 || not b) ≡ true → b ≡ false
    parts v true positive h = absurd (ground (arith, positive, h))
    parts v false positive h = refl

by_name : (f : Found) → (f.opt == 0) ≡ true → option_index f ≡ some f.long_index
by_name f h =
    let z : f.opt ≡ 0 = (==_iff f.opt 0).0 h in
    let n : ltb 0 f.opt ≡ false = ge→ltb 0 f.opt (omega (arith, z)) in rw n refl

parse_found-index :
    (f : Found) (s : Settings) (i : ℕ)
    → option_index f ≡ some i
    → parse_found f s ≡ parse_one_opt (get_or long_names i []) f.optarg s
parse_found-index f s i e =
    ap
      (λ (o : Option ℕ). elim o [
        | none ↦ goes_on s
        | some index ↦ parse_one_opt (get_or long_names index []) f.optarg s
      ])
      e

parse_found-none : (f : Found) (s : Settings) → option_index f ≡ none → parse_found f s ≡ goes_on s
parse_found-none f s e =
    ap
      (λ (o : Option ℕ). elim o [
        | none ↦ goes_on s
        | some index ↦ parse_one_opt (get_or long_names index []) f.optarg s
      ])
      e

by_short : (f : Found) → 0 < f.opt → option_index f ≡ shortopt2longindex f.opt long_vals
by_short f p = rw (lt→ltb 0 f.opt p) refl

pub parse_found-other :
    (f : Found) (s : Settings) → is_module f ≡ false → Keeps s.packet_plugin_list (parse_found f s)
parse_found-other f s other = elim (Bool-cases (f.opt == 0)) [
  | inl long ↦
      rw (parse_found-index f s f.long_index (by_name f long))
        (parse_one_opt-Keeps (get_or long_names f.long_index []) f.optarg s (rw long at other))
  | inr short ↦
      let p : 0 < f.opt = ground (arith, short) in
      elim (Option-cases (shortopt2longindex f.opt long_vals)) [
        | inl unknown ↦ rw (parse_found-none f s (by_short f p ∙ unknown)) (kept refl)
        | inr (i, e) ↦
            rw (parse_found-index f s i (by_short f p ∙ e)) (
              parse_one_opt-Keeps (get_or long_names i []) f.optarg s
                (short-not_module f.opt i p e))
      ]
]

pub parse_found-module :
    (f : Found) (s : Settings)
    → is_module f ≡ true
    → Keeps (s.packet_plugin_list ++ arg_of f.optarg) (parse_found f s)
parse_found-module f s named = elim (Bool-cases (f.opt == 0)) [
  | inl long ↦
      rw (parse_found-index f s f.long_index (by_name f long))
        (parse_one_opt-module (get_or long_names f.long_index []) f.optarg s (rw long at named))
  | inr short ↦ absurd (false_true (rw short at named))
]
  where
    false_true : false ≡ true → ⊥
    false_true e = cc
