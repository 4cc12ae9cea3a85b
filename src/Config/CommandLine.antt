-- ===== src/Config/CommandLine.antt =====
-- The command line of config.c, with the options that `getopt_long` finds.
use minieap.Prelude.{
  ℕ, Bool, true, false, not, ◌&&◌, ◌||◌, List, [], ◌∷◌, ◌++◌, map, Option, none, some, ltb, ◌==◌,
  if◌then◌else◌, get_or, Bytes, codes, strndup,
}
use minieap.LinkedList.{list_destroy}
use minieap.Plugins.{text_eq}
use minieap.Misc.{shortopt2longindex}
use minieap.Getopt.{LongOption, no_argument, required_argument, optional_argument}
use minieap.Getopt.Calls.{Found}
use minieap.Config.{Parsed, Settings, exits, faults, goes_on, parse_one_opt}

abbrev pub entry : Bytes → (has_arg val : ℕ) → LongOption
entry name has_arg val = record { name = name; has_arg = has_arg; val = val }

-- `shortOpts`
abbrev pub short_opts : Bytes
short_opts = codes "-:hk::wu:p:n:t:r:l:x:b:c:z:j:"

-- `longOpts` without its last entry
abbrev pub long_opts : List LongOption
long_opts =
    entry (codes "help") no_argument b'h'
    ∷ entry (codes "kill") optional_argument b'k'
    ∷ entry (codes "save") no_argument b'w'
    ∷ entry (codes "username") required_argument b'u'
    ∷ entry (codes "password") required_argument b'p'
    ∷ entry (codes "nic") required_argument b'n'
    ∷ entry (codes "stage-timeout") required_argument b't'
    ∷ entry (codes "wait-after-fail") required_argument b'r'
    ∷ entry (codes "max-fail") required_argument b'l'
    ∷ entry (codes "no-auto-reauth") no_argument b'x'
    ∷ entry (codes "daemonize") required_argument b'b'
    ∷ entry (codes "proxy-lan-iface") required_argument b'z'
    ∷ entry (codes "auth-round") required_argument b'j'
    ∷ entry (codes "max-retries") required_argument 0
    ∷ entry (codes "pid-file") required_argument 0
    ∷ entry (codes "if-impl") required_argument 0
    ∷ entry (codes "pkt-plugin") required_argument 0
    ∷ entry (codes "module") required_argument 0
    ∷ entry (codes "log-file") required_argument 0
    ∷ entry (codes "internet-check") no_argument 0
    ∷ entry (codes "internet-check-url") required_argument 0
    ∷ entry (codes "internet-check-interval") required_argument 0
    ∷ entry (codes "internet-check-timeout") required_argument 0
    ∷ entry (codes "internet-check-max-fail") required_argument 0
    ∷ []

-- The `val` fields, with the last entry.
abbrev pub long_vals : List ℕ
long_vals = map (λ (o : LongOption). o.val) long_opts ++ 0 ∷ []

abbrev pub long_names : List Bytes
long_names = map (λ (o : LongOption). o.name) long_opts

abbrev pub option_index : Found → Option ℕ
option_index f = if ltb 0 f.opt then shortopt2longindex f.opt long_vals else some f.long_index

abbrev pub is_module : Found → Bool
is_module f =
    let name = get_or long_names f.long_index [] in
    f.opt == 0 && (text_eq name (codes "module") || text_eq name (codes "pkt-plugin"))

-- The first plugin that the command line names drops those of the configuration file.
abbrev pub reset_modules : (wanted : Bool) → Settings → Settings
reset_modules wanted s =
    if wanted then record s { packet_plugin_list = list_destroy s.packet_plugin_list } else s

abbrev pub parse_found : Found → Settings → Parsed
parse_found f s = elim (option_index f) [
  | none ↦ goes_on s
  | some index ↦ parse_one_opt (get_or long_names index []) f.optarg s
]

-- The loop, with `cmd_module_list_reset`. The result is `false` for a missing argument, which
-- `getopt_long` reports as ':'.
unfoldable pub parse_cmdline_opts :
    (found : List Found) → (cmd_module_list_reset : Bool) → Settings → Parsed × Bool
unfolding parse_one_opt shortopt2longindex list_destroy
parse_cmdline_opts [] reset s = (goes_on s, true)
parse_cmdline_opts (f ∷ found) reset s = elim (f.opt == b':') [
  | true ↦ (goes_on s, false)
  | false ↦ elim (parse_found f (reset_modules (is_module f && not reset) s)) [
    | exits ↦ (exits, true)
    | faults ↦ (faults, true)
    | goes_on s' ↦ parse_cmdline_opts found (reset || is_module f) s'
  ]
]

-- `--conf-file` and what stands behind it, in the arguments behind the program's name. `none` is
-- FAILURE.
unfoldable pub find_conf_file :
    (argv : List Bytes) → (conffile : Option Bytes) → Option (Option Bytes)
find_conf_file [] conffile = some conffile
find_conf_file (arg ∷ []) conffile =
    if text_eq arg (codes "--conf-file") then none else some conffile
find_conf_file (arg ∷ next ∷ argv) conffile =
    find_conf_file (next ∷ argv)
      (if text_eq arg (codes "--conf-file") then some (strndup next 260) else conffile)

abbrev pub or_else {ℓ} : {A : Type ℓ} → Option A → Option A → Option A
or_else none other = other
or_else (some a) other = some a

unfoldable pub parse_cmdline_conf_file : (argv : List Bytes) → Settings → Settings × Bool
unfolding find_conf_file
parse_cmdline_conf_file argv s = elim (find_conf_file argv s.conffile) [
  | none ↦ (s, false)
  | some file ↦ (record s { conffile = or_else file (some (codes "/etc/minieap.conf")) }, true)
]
