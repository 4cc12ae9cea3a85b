-- ===== src/Rjv3/Options.antt =====
-- packet_plugin_rjv3.c: the options of the plugin, on the command line and in the configuration
-- file. An argument is a string: the list of its bytes, none of them NUL.
pub mod Saving
pub mod RjOption
use minieap.Prelude.{
  ℕ, zero, suc, ◌+◌, ◌-◌, ◌*◌, ◌/◌, ◌%◌, Bool, true, false, List, [], ◌∷◌, ◌++◌, Option, none, some,
  ltb, ◌==◌, if◌then◌else◌, length, take, drop, get_or, min, Bytes, codes, strndup,
}
use minieap.Prelude.Int.{ℤ, pos, negsuc, is_pos, pos_part, rem}
use minieap.Prelude.Maybe.{◌>>=◌}
use minieap.LinkedList.{list_destroy}
use minieap.Plugins.{text_eq}
use minieap.Misc.{char2hex, hex2char, my_itoa, shortopt2longindex}
use minieap.Misc.Atoi.{atoi}
use minieap.Frame.{read_bytes}
use minieap.Conf.{Conf, ConfigPair, conf_parser_add_value, conf_parser_traverse}
use minieap.Rjv3.Prop.{RjProp, append_rjv3_prop, prop_to_content_size}

-- The command line options in `rjv3_priv`. A string is `none` for NULL.
pub record RjOptions : Type 0 where
  pub heartbeat_interval : ℤ
  pub max_dhcp_count : ℤ
  pub service_name : Option Bytes
  pub ver_str : Option Bytes
  pub dhcp_script : Option Bytes
  pub fake_dns1 : Option Bytes
  pub fake_dns2 : Option Bytes
  pub fake_serial : Option Bytes
  pub bcast_addr : ℤ
  pub dhcp_type : ℤ
  pub cmd_prop_list : List RjProp
  pub cmd_prop_mod_list : List RjProp

-- DHCP_TYPE
abbrev pub dhcp_double_auth : ℤ
dhcp_double_auth = pos 1

abbrev pub max_prop_len : ℕ
max_prop_len = 200

-- A call's result and the options that it leaves.
abbrev pub Parsing : Type 0
Parsing = record { ok : Bool; options : RjOptions }

-- The part of `strtok` that skips separators.
unfoldable pub skip : (delim : ℕ) → Bytes → Bytes
skip delim [] = []
skip delim (c ∷ cs) = let rest = skip delim cs in if c == delim then rest else c ∷ cs

-- The bytes up to the next separator, and those behind it.
unfoldable pub token : (delim : ℕ) → Bytes → Bytes × Bytes
token delim [] = ([], [])
token delim (c ∷ cs) =
    let rest = token delim cs in if c == delim then ([], cs) else (c ∷ rest.0, rest.1)

abbrev pub token_of : (delim : ℕ) → Bytes → Option (Bytes × Bytes)
token_of delim [] = none
token_of delim (c ∷ cs) = some (token delim (c ∷ cs))

-- `strtok`: the next token and what is left, `none` for NULL.
unfoldable pub strtok : (delim : ℕ) → Bytes → Option (Bytes × Bytes)
unfolding skip token
strtok delim s = token_of delim (skip delim s)

-- The loop over the pairs of digits. A lone last digit has the NUL behind it.
unfoldable pub hex_bytes : (rounds : ℕ) → (split : Bytes) → Bytes
hex_bytes zero split = []
hex_bytes (suc rounds) split =
    char2hex (get_or split 0 0) (get_or split 1 0) ∷ hex_bytes rounds (drop 2 split)

-- `(_content_len + (_content_len & 1)) >> 1`
abbrev pub pairs_of_digits : (len : ℕ) → ℕ
pairs_of_digits len = (if len % 2 == 1 then len + 1 else len) / 2

abbrev pub is_replacement : Option (Bytes × Bytes) → Bool
is_replacement none = false
is_replacement (some split) = get_or split.0 0 0 == b'r'

-- The property is put behind the list of changes or that of additions; `none` is a fault.
unfoldable pub store_option :
    (type : ℕ) → (split : Bytes) → (is_mod : Bool) → RjOptions → Option Parsing
unfolding hex_bytes append_rjv3_prop
store_option type split true options = do
  let content_len = pairs_of_digits (min max_prop_len (length split))
  r ←
      append_rjv3_prop options.cmd_prop_mod_list type (hex_bytes content_len split)
        (pos content_len)
  some (record { ok = true; options = record options { cmd_prop_mod_list = r.list } })
store_option type split false options = do
  let content_len = pairs_of_digits (min max_prop_len (length split))
  r ← append_rjv3_prop options.cmd_prop_list type (hex_bytes content_len split) (pos content_len)
  some (record { ok = true; options = record options { cmd_prop_list = r.list } })

-- From the second `strtok` on.
unfoldable pub option_content : (type : ℕ) → Option (Bytes × Bytes) → RjOptions → Option Parsing
unfolding store_option strtok
option_content type none options = some (record { ok = false; options = options })
option_content type (some second) options =
    store_option type second.0 (is_replacement (strtok b':' second.1)) options

-- From the first `strtok` on.
unfoldable pub option_type : Option (Bytes × Bytes) → RjOptions → Option Parsing
unfolding option_content strtok
option_type none options = some (record { ok = false; options = options })
option_type (some first) options =
    option_content (char2hex (get_or first.0 0 0) (get_or first.0 1 0)) (strtok b':' first.1)
      options

unfoldable pub append_rj_cmdline_opt : (opt : Bytes) → RjOptions → Option Parsing
unfolding strtok option_type
append_rj_cmdline_opt opt options = option_type (strtok b':' opt) options

unfoldable pub rjv3_load_default_params : RjOptions → RjOptions
rjv3_load_default_params options = record options {
  heartbeat_interval = pos 60;
  max_dhcp_count = pos 3;
  service_name = some (codes "internet");
  ver_str = some (codes "RG-SU For Linux V1.0");
  dhcp_script = some [];
  bcast_addr = pos 0;
  dhcp_type = pos 2;
}

abbrev pub done : RjOptions → Option Parsing
done options = some (record { ok = true; options = options })

unfoldable pub rjv3_parse_one_opt : (option argument : Bytes) → RjOptions → Option Parsing
unfolding append_rj_cmdline_opt
rjv3_parse_one_opt option argument options =
    if text_eq option (codes "heartbeat")
    then elim (atoi argument) [
      | negsuc n ↦ some (record { ok = false; options = options })
      | pos n ↦ done (record options { heartbeat_interval = pos n })
    ]
    else if text_eq option (codes "eap-bcast-addr")
    then done (record options { bcast_addr = rem (atoi argument) 2 })
    else if text_eq option (codes "dhcp-type")
    then done (record options { dhcp_type = rem (atoi argument) 4 })
    else if text_eq option (codes "dhcp-script")
    then done (record options { dhcp_script = some (strndup argument 260) })
    else if text_eq option (codes "rj-option")
    then append_rj_cmdline_opt argument options
    else if text_eq option (codes "service")
    then done (record options { service_name = some (strndup argument 0x20) })
    else if text_eq option (codes "version-str")
    then done (record options { ver_str = some (strndup argument max_prop_len) })
    else if text_eq option (codes "fake-dns1")
    then done (record options { fake_dns1 = some (strndup argument 46) })
    else if text_eq option (codes "fake-dns2")
    then done (record options { fake_dns2 = some (strndup argument 46) })
    else if text_eq option (codes "fake-serial")
    then done (record options { fake_serial = some (strndup argument max_prop_len) })
    else if text_eq option (codes "max-dhcp-count")
    then done (record options { max_dhcp_count = atoi argument })
    else done options

-- The `val` fields and the names of `longOpts`, with its last entry.
abbrev pub long_vals : List ℕ
long_vals = b'e' ∷ b'a' ∷ b'd' ∷ b'c' ∷ 0 ∷ 0 ∷ 0 ∷ 0 ∷ 0 ∷ 0 ∷ 0 ∷ 0 ∷ []

abbrev pub long_names : List Bytes
long_names =
    codes "heartbeat"
    ∷ codes "eap-bcast-addr"
    ∷ codes "dhcp-type"
    ∷ codes "dhcp-script"
    ∷ codes "rj-option"
    ∷ codes "service"
    ∷ codes "version-str"
    ∷ codes "fake-dns1"
    ∷ codes "fake-dns2"
    ∷ codes "fake-serial"
    ∷ codes "max-dhcp-count"
    ∷ []

-- What one call of `getopt_long` leaves: its result, `longIndex` and `optarg`.
pub record Found : Type 0 where
  pub opt : ℕ
  pub long_index : ℕ
  pub optarg : Bytes

abbrev pub option_index : Found → Option ℕ
option_index f = if ltb 0 f.opt then shortopt2longindex f.opt long_vals else some f.long_index

-- `found` is what `getopt_long` finds in the arguments, up to its -1.
unfoldable pub rjv3_process_cmdline_opts : (found : List Found) → RjOptions → Option Parsing
unfolding rjv3_parse_one_opt shortopt2longindex
rjv3_process_cmdline_opts [] options = done options
rjv3_process_cmdline_opts (f ∷ found) options = elim (f.opt == b':') [
  | true ↦ some (record { ok = false; options = options })
  | false ↦ elim (option_index f) [
    | none ↦ rjv3_process_cmdline_opts found options
    | some index ↦ (do
      r ← rjv3_parse_one_opt (get_or long_names index []) f.optarg options
      elim r.ok [
        | true ↦ rjv3_process_cmdline_opts found r.options
        | false ↦ some (record { ok = false; options = r.options })
      ])
  ]
]

-- The part of `rjv3_destroy` on the options: they are freed, and their lists destroyed.
unfoldable pub destroy_options : RjOptions → RjOptions
unfolding list_destroy
destroy_options options = record options {
  service_name = none;
  ver_str = none;
  dhcp_script = none;
  fake_dns1 = none;
  fake_dns2 = none;
  fake_serial = none;
  cmd_prop_list = list_destroy options.cmd_prop_list;
  cmd_prop_mod_list = list_destroy options.cmd_prop_mod_list;
}
