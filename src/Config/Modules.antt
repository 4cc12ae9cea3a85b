-- ===== src/Config/Modules.antt =====
-- The plugins that the command line of config.c names.
use minieap.Prelude.{
  ◌≡◌, sym, ap, ◌∙◌, Bool, true, false, not, ◌&&◌, ◌||◌, Bool-cases, inl, inr, List, [], ◌∷◌, ◌++◌,
  if◌then◌else◌, ◌==◌, Bytes, append_assoc, append-nil,
}
use minieap.LinkedList.{list_destroy}
use minieap.Getopt.Calls.{Found}
use minieap.Config.{Settings, Parsed, goes_on, exits, faults}
use minieap.Config.CommandLine.{is_module, reset_modules, parse_found, parse_cmdline_opts}
use minieap.Config.Kept.{Keeps, arg_of, ended, faulted, kept, parse_found-module, parse_found-other}

-- The rest of the loop, behind a call.
abbrev loop : List Found → (reset : Bool) → Parsed → Parsed × Bool
loop found reset exits = (exits, true)
loop found reset faults = (faults, true)
loop found reset (goes_on s) = parse_cmdline_opts found reset s

loop-Keeps :
    (found : List Found) (reset : Bool) (p : Parsed) (list : List Bytes) (t : Settings)
    → Keeps list p
    → loop found reset p ≡ (goes_on t, true)
    → (s : Settings) × (s.packet_plugin_list ≡ list)
      × (parse_cmdline_opts found reset s ≡ (goes_on t, true))
loop-Keeps found reset (goes_on s) list t (kept h) e = (s, h, e)
loop-Keeps found reset exits list t ended e = absurd (cc)
loop-Keeps found reset faults list t faulted e = absurd (cc)

-- The arguments of the options that name a plugin.
abbrev pub named_modules : List Found → List Bytes
named_modules [] = []
named_modules (f ∷ found) =
    let rest = named_modules found in if is_module f then arg_of f.optarg ++ rest else rest

abbrev pub has_module : List Found → Bool
has_module [] = false
has_module (f ∷ found) = let rest = has_module found in if is_module f then true else rest

list_at : Parsed × Bool → List Bytes → List Bytes
list_at (goes_on s, b) list = s.packet_plugin_list
list_at (exits, b) list = list
list_at (faults, b) list = list

opts-cons :
    (f : Found) (found : List Found) (reset : Bool) (s t : Settings)
    → parse_cmdline_opts (f ∷ found) reset s ≡ (goes_on t, true)
    → loop found (reset || is_module f) (parse_found f (reset_modules (is_module f && not reset) s))
      ≡ (goes_on t, true)
unfolding parse_cmdline_opts
opts-cons f found reset s t e = elim (Bool-cases (f.opt == b':')) [
  | inl missing ↦ absurd (false_true (ap (λ r. r.1) (rw (missing, parse_cmdline_opts) at e)))
  | inr option ↦ rw (option, parse_cmdline_opts) at e
]
  where
    false_true : false ≡ true → ⊥
    false_true e = cc

opts-cons_by :
    (f : Found) (found : List Found) (reset named : Bool) (s t : Settings)
    → is_module f ≡ named
    → parse_cmdline_opts (f ∷ found) reset s ≡ (goes_on t, true)
    → loop found (reset || named) (parse_found f (reset_modules (named && not reset) s))
      ≡ (goes_on t, true)
opts-cons_by f found reset named s t q e =
    ap (λ b. loop found (reset || b) (parse_found f (reset_modules (b && not reset) s))) (sym q)
    ∙ opts-cons f found reset s t e

list-end :
    (reset : Bool) (s t : Settings)
    → parse_cmdline_opts [] reset s ≡ (goes_on t, true)
    → t.packet_plugin_list ≡ s.packet_plugin_list
unfolding parse_cmdline_opts list_at
list-end reset s t e = sym (ap (λ r. list_at r []) e)

-- Behind the first option that names a plugin.
list-reset :
    (found : List Found) (s t : Settings)
    → parse_cmdline_opts found true s ≡ (goes_on t, true)
    → t.packet_plugin_list ≡ s.packet_plugin_list ++ named_modules found
list-reset [] s t e = list-end true s t e ∙ sym (append-nil s.packet_plugin_list)
list-reset (f ∷ found) s t e = elim (Bool-cases (is_module f)) [
  | inl named ↦
      let (s', l, rest) =
        loop-Keeps found true (parse_found f s) (s.packet_plugin_list ++ arg_of f.optarg) t
          (parse_found-module f s named) (opts-cons_by f found true true s t named e) in
      rw named (
        list-reset found s' t rest
        ∙ ap (λ list. list ++ named_modules found) l
        ∙ append_assoc s.packet_plugin_list (arg_of f.optarg) (named_modules found))
  | inr other ↦
      let (s', l, rest) =
        loop-Keeps found true (parse_found f s) s.packet_plugin_list t (parse_found-other f s other)
          (opts-cons_by f found true false s t other e) in
      rw other (list-reset found s' t rest ∙ ap (λ list. list ++ named_modules found) l)
]

-- A command line that is read to its end: when it names plugins, the list has these in order and
-- none of the configuration file; when it names none, the list stays as it was.
pub parse_cmdline_opts-modules :
    (found : List Found) (s t : Settings)
    → parse_cmdline_opts found false s ≡ (goes_on t, true)
    → t.packet_plugin_list
      ≡ (if has_module found then named_modules found else s.packet_plugin_list)
unfolding list_destroy
parse_cmdline_opts-modules [] s t e = list-end false s t e
parse_cmdline_opts-modules (f ∷ found) s t e = elim (Bool-cases (is_module f)) [
  | inl named ↦
      let s1 : Settings = record s { packet_plugin_list = [] } in
      let (s', l, rest) =
        loop-Keeps found true (parse_found f s1) (arg_of f.optarg) t (parse_found-module f s1 named)
          (opts-cons_by f found false true s t named e) in
      rw named (list-reset found s' t rest ∙ ap (λ list. list ++ named_modules found) l)
  | inr other ↦
      let (s', l, rest) =
        loop-Keeps found false (parse_found f s) s.packet_plugin_list t
          (parse_found-other f s other) (opts-cons_by f found false false s t other e) in
      rw other (
        parse_cmdline_opts-modules found s' t rest
        ∙ ap (λ list. if has_module found then named_modules found else list) l)
]
