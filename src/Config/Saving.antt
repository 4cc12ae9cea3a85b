-- ===== src/Config/Saving.antt =====
-- The configuration file of config.c.
use minieap.Prelude.{
  Bool, true, false, not, List, [], ◌∷◌, Option, some, ◌==◌, if◌then◌else◌, get_or, Bytes, codes,
}
use minieap.Prelude.Int.{ℤ}
use minieap.Misc.{my_itoa}
use minieap.Conf.{
  Conf, ConfigPair, conf_parser_set_file_path, conf_parser_parse_now, conf_parser_add_value,
  conf_parser_traverse, conf_parser_save_file, conf_parser_free,
}
use minieap.Config.{Parsed, Settings, exits, faults, goes_on, parse_one_opt}

abbrev pub parse_pair : ConfigPair → Settings → Parsed
parse_pair pair s =
    if get_or pair.value 0 0 == 0 then goes_on s else parse_one_opt pair.key (some pair.value) s

unfoldable pub parser_traverser : ConfigPair → Parsed → Parsed
unfolding parse_one_opt
parser_traverser pair exits = exits
parser_traverser pair faults = faults
parser_traverser pair (goes_on s) = parse_pair pair s

-- The options of the dictionary, in order.
unfoldable pub load_pairs : Conf → Settings → Parsed
unfolding parser_traverser conf_parser_traverse
load_pairs c s = conf_parser_traverse parser_traverser c (goes_on s)

unfoldable pub parse_config_file :
    (fopen_r : Bytes → Option Bytes)
    → (filepath : Bytes) → Conf
    → Settings
    → record { ok : Bool; conf : Conf; parsed : Parsed }
unfolding conf_parser_set_file_path conf_parser_parse_now load_pairs
parse_config_file fopen_r filepath c s =
    let (c, ok) = conf_parser_parse_now fopen_r (conf_parser_set_file_path filepath c) in
    if ok
    then record { ok = true; conf = c; parsed = load_pairs c s }
    else record { ok = false; conf = c; parsed = goes_on s }

abbrev pub add_string : (key : Bytes) → (value : Option Bytes) → Conf → Conf
add_string key value c = (conf_parser_add_value (some key) value c).0

abbrev pub add_number : (key : Bytes) → (value : ℤ) → Conf → Conf
add_number key value c = add_string key (some (my_itoa value 10)) c

abbrev pub add_flag : (key : Bytes) → (value : Bool) → Conf → Conf
add_flag key value c = add_string key (some (if value then codes "1" else codes "0")) c

-- `save_active_packet_plugin_list`, over the names of the active plugins.
unfoldable pub save_active_packet_plugin_list : (names : List Bytes) → Conf → Conf
unfolding conf_parser_add_value
save_active_packet_plugin_list [] c = c
save_active_packet_plugin_list (name ∷ names) c =
    save_active_packet_plugin_list names (add_string (codes "module") (some name) c)

-- The dictionary of the program's own options. `active` are the names of the plugins, `impl` that
-- of the interface's implementation.
unfoldable pub saved_options : (active : List Bytes) → (impl : Bytes) → Settings → Conf → Conf
unfolding conf_parser_free conf_parser_add_value save_active_packet_plugin_list
saved_options active impl s c =
    let c = conf_parser_free c in
    let c = add_string (codes "username") s.username c in
    let c = add_string (codes "password") s.password c in
    let c = add_string (codes "nic") s.ifname c in
    let c = save_active_packet_plugin_list active c in
    let c = add_number (codes "daemonize") s.daemon_type c in
    let c = add_string (codes "if-impl") (some impl) c in
    let c = add_number (codes "max-fail") s.max_failures c in
    let c = add_number (codes "max-retries") s.max_retries c in
    let c = add_flag (codes "no-auto-reauth") (not s.restart_on_logoff) c in
    let c = add_number (codes "wait-after-fail") s.wait_after_fail_secs c in
    let c = add_number (codes "stage-timeout") s.stage_timeout c in
    let c = add_string (codes "proxy-lan-iface") s.lan_ifname c in
    let c = add_number (codes "auth-round") s.auth_round c in
    let c = add_string (codes "pid-file") s.pidfile c in
    let c = add_string (codes "log-file") s.logfile c in
    let c = add_flag (codes "internet-check") s.internet_check c in
    let c = add_string (codes "internet-check-url") s.internet_check_url c in
    let c = add_number (codes "internet-check-interval") s.internet_check_interval c in
    let c = add_number (codes "internet-check-timeout") s.internet_check_timeout c in
    add_number (codes "internet-check-max-fail") s.internet_check_max_fail c

-- `packet_plugin_save_config` is what the plugins add; the result is that of
-- `conf_parser_save_file`.
unfoldable pub save_config_file :
    (packet_plugin_save_config : Conf → Conf)
    → (fopen_w : Bytes → Bool) → (active : List Bytes) → (impl : Bytes) → Settings
    → Conf
    → Option Bytes
unfolding saved_options conf_parser_save_file
save_config_file packet_plugin_save_config fopen_w active impl s c =
    conf_parser_save_file fopen_w (packet_plugin_save_config (saved_options active impl s c))
