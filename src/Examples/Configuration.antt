-- ===== src/Examples/Configuration.antt =====
-- The configuration file and the plugin's options on small inputs.
use minieap.Prelude.{
  ◌+◌, ◌≤◌, ◌≡◌, ◌≢◌, refl, true, false, [], ◌∷◌, ◌++◌, some, none, arith, length, Bytes, codes,
}
use minieap.Prelude.Int.{pos}
use minieap.Conf.{Conf, ConfigPair, conf_parser_parse_now, conf_parser_save_file, conf_parser_free}
use minieap.Config.{Settings, KillType}
use minieap.Conf.RoundTrip.{parse-save-parse}
use minieap.Rjv3.Prop.Layout.{Entry, prop_for}
use minieap.Rjv3.Options.{RjOptions, append_rj_cmdline_opt}
use minieap.Rjv3.Options.Saving.{prop_str, prop_str_len}
use minieap.Rjv3.Options.RjOption.{append_rj_cmdline_opt-prop_str, with_prop}

abbrev conf_path : Bytes
conf_path = codes "m.conf"

abbrev nic_pair : ConfigPair
nic_pair = record { key = codes "nic"; value = codes "e0" }

abbrev saved_conf : Conf
saved_conf = record { conf_list = nic_pair ∷ []; conf_file = some conf_path }

abbrev empty_conf : Conf
empty_conf = record { conf_list = []; conf_file = some conf_path }

-- A comment, a pair with spaces around it, and a line without '='.
abbrev written_file : Bytes
written_file =
    codes "# m" ++ (b'\n' ∷ (codes "  nic=e0  " ++ (b'\n' ∷ (codes "odd" ++ b'\n' ∷ []))))

parse-save-parse_example :
    (first : Conf) × (conf_parser_parse_now (λ _. some written_file) empty_conf ≡ (first, true))
    × (first.conf_list ≢ []
        → (copy : Bytes) × (conf_parser_save_file (λ _. true) first ≡ some copy)
          × (conf_parser_parse_now (λ _. some copy) (conf_parser_free first) ≡ (first, true)))
parse-save-parse_example =
    parse-save-parse empty_conf conf_path written_file (λ _. true) refl refl refl

-- What the code takes from that file.
written_file-parsed : conf_parser_parse_now (λ _. some written_file) empty_conf ≡ (saved_conf, true)
unfolding conf_parser_parse_now
written_file-parsed = refl

abbrev pub no_options : RjOptions
no_options = record {
  heartbeat_interval = pos 60;
  max_dhcp_count = pos 3;
  service_name = some (codes "internet");
  ver_str = some (codes "RG-SU");
  dhcp_script = some [];
  fake_dns1 = none;
  fake_dns2 = none;
  fake_serial = none;
  bcast_addr = pos 0;
  dhcp_type = pos 1;
  cmd_prop_list = [];
  cmd_prop_mod_list = [];
}

abbrev version : Entry
version = record { type = 0x6f; content = 0x52 ∷ 0x47 ∷ [] }

append_rj_cmdline_opt-prop_str_example :
    (s : Bytes) × (prop_str (prop_for version) true ≡ some s)
    × (length s + 1 ≤ prop_str_len (prop_for version) true)
    × (append_rj_cmdline_opt s no_options
        ≡ some (record { ok = true; options = with_prop true (prop_for version) no_options }))
append_rj_cmdline_opt-prop_str_example =
    append_rj_cmdline_opt-prop_str version true no_options (omega arith)
      (omega arith, (omega arith, tt)) (omega arith) (omega arith)

abbrev pub settings : Settings
settings = record {
  username = some (codes "ann");
  password = some (codes "pw");
  proxy_on = false;
  lan_ifname = none;
  ifname = some (codes "e0");
  pidfile = some (codes "none");
  conffile = some conf_path;
  logfile = some (codes "log");
  if_impl = none;
  packet_plugin_list = [];
  restart_on_logoff = true;
  wait_after_fail_secs = pos 30;
  daemon_type = pos 3;
  max_retries = pos 3;
  max_failures = pos 12;
  stage_timeout = pos 5;
  save_now = true;
  auth_round = pos 1;
  kill_type = KillType.kill_none;
  internet_check = true;
  internet_check_url = some (codes "http://a/b");
  internet_check_interval = pos 60;
  internet_check_timeout = pos 3;
  internet_check_max_fail = pos 4;
}

-- The options of another start, with the reconnection allowed.
abbrev fresh_settings : Settings
fresh_settings = record settings {
  username = none;
  password = none;
  ifname = none;
  max_failures = pos 3;
  internet_check = false;
}
