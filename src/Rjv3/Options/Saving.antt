-- ===== src/Rjv3/Options/Saving.antt =====
-- The options of packet_plugin_rjv3.c in the configuration file, read and saved.
use minieap.Prelude.{
  ℕ, ◌+◌, ◌*◌, Bool, true, false, List, [], ◌∷◌, ◌++◌, Option, none, some, ◌==◌, if◌then◌else◌,
  get_or, Bytes, codes,
}
use minieap.Prelude.Int.{pos_part}
use minieap.Prelude.Maybe.{◌>>=◌}
use minieap.Misc.{hex2char}
use minieap.Frame.{read_bytes}
use minieap.Conf.{Conf, ConfigPair, conf_parser_add_value, conf_parser_traverse}
use minieap.Rjv3.Prop.{RjProp, prop_to_content_size}
use minieap.Config.Saving.{add_string, add_number}
use minieap.Rjv3.Options.{RjOptions, rjv3_parse_one_opt}

-- The result of `rjv3_parse_one_opt` is not looked at, and a pair without a value is passed over.
unfoldable pub rjv3_parser_traverser : ConfigPair → Option RjOptions → Option RjOptions
unfolding rjv3_parse_one_opt
rjv3_parser_traverser pair none = none
rjv3_parser_traverser pair (some options) =
    if get_or pair.value 0 0 == 0
    then some options
    else (do r ← rjv3_parse_one_opt pair.key pair.value options; some r.options)

unfoldable pub rjv3_process_config_file : Conf → RjOptions → Option RjOptions
unfolding rjv3_parser_traverser conf_parser_traverse
rjv3_process_config_file c options =
    conf_parser_traverse (λ pair o. rjv3_parser_traverser pair o) c (some options)

-- The loop over the bytes of the content.
unfoldable pub hex_chars : Bytes → Bytes
hex_chars [] = []
hex_chars (x ∷ xs) = (hex2char x).0 ∷ (hex2char x).1 ∷ hex_chars xs

-- The size of the buffer for the text of a property, with the NUL.
abbrev pub prop_str_len : RjProp → (is_mod : Bool) → ℕ
prop_str_len prop is_mod = 2 * 1 + 1 + prop.len * 2 + (if is_mod then 2 else 0) + 1

-- The text for a property; a content that is shorter than its length is a fault.
unfoldable pub prop_str : RjProp → (is_mod : Bool) → Option Bytes
unfolding hex_chars
prop_str prop is_mod = do
  content ← read_bytes prop.content 0 (pos_part (prop_to_content_size prop.len))
  some (
      (hex2char prop.type).0
      ∷ (hex2char prop.type).1
      ∷ b':'
      ∷ (hex_chars content ++ (if is_mod then b':' ∷ b'r' ∷ [] else [])))

unfoldable pub rjv3_save_one_prop : RjProp → (is_mod : Bool) → Conf → Option Conf
unfolding prop_str conf_parser_add_value
rjv3_save_one_prop prop is_mod c = do
  s ← prop_str prop is_mod
  some (conf_parser_add_value (some (codes "rj-option")) (some s) c).0

unfoldable pub save_props : List RjProp → (is_mod : Bool) → Conf → Option Conf
unfolding rjv3_save_one_prop
save_props [] is_mod c = some c
save_props (prop ∷ list) is_mod c = do
  c ← rjv3_save_one_prop prop is_mod c
  save_props list is_mod c

unfoldable pub rjv3_save_config : RjOptions → Conf → Option Conf
unfolding save_props conf_parser_add_value
rjv3_save_config options c = do
  let c = add_number (codes "heartbeat") options.heartbeat_interval c
  let c = add_number (codes "eap-bcast-addr") options.bcast_addr c
  let c = add_number (codes "dhcp-type") options.dhcp_type c
  c ← save_props options.cmd_prop_list false c
  c ← save_props options.cmd_prop_mod_list true c
  let c = add_string (codes "service") options.service_name c
  let c = add_string (codes "version-str") options.ver_str c
  let c = add_string (codes "dhcp-script") options.dhcp_script c
  let c = add_string (codes "fake-dns1") options.fake_dns1 c
  let c = add_string (codes "fake-dns2") options.fake_dns2 c
  let c = add_string (codes "fake-serial") options.fake_serial c
  some (add_number (codes "max-dhcp-count") options.max_dhcp_count c)
