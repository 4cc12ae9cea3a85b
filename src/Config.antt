-- ===== src/Config.antt =====
-- config.c: the options of the program, on the command line and in the configuration file. Where
-- the log goes is left out.
pub mod Saving
pub mod CommandLine
pub mod Steps
pub mod Groups
pub mod Reload
pub mod Files
pub mod Kept
pub mod Modules
use minieap.Prelude.{
  ℕ, Bool, true, false, not, ◌&&◌, ◌||◌, List, [], ◌∷◌, Option, none, some, ltb, ◌==◌,
  if◌then◌else◌, get_or, Bytes, codes, strndup,
}
use minieap.Prelude.Int.{ℤ, pos, negsuc, is_pos, rem}
use minieap.LinkedList.{insert_data, list_destroy}
use minieap.Plugins.{text_eq}
use minieap.Misc.{my_itoa, shortopt2longindex}
use minieap.Misc.Atoi.{atoi}
use minieap.Url.{internet_check_parse_url}
use minieap.Conf.{
  Conf, ConfigPair, conf_parser_set_file_path, conf_parser_parse_now, conf_parser_add_value,
  conf_parser_traverse, conf_parser_save_file, conf_parser_free,
}

-- KILL_TYPE
pub data KillType : Type 0 where
  kill_none kill_only kill_and_start : KillType

-- EAP_CONFIG, PROXY_CONFIG and PROG_CONFIG. A string is `none` for NULL.
pub record Settings : Type 0 where
  pub username : Option Bytes
  pub password : Option Bytes
  pub proxy_on : Bool
  pub lan_ifname : Option Bytes
  pub ifname : Option Bytes
  pub pidfile : Option Bytes
  pub conffile : Option Bytes
  pub logfile : Option Bytes
  pub if_impl : Option Bytes
  pub packet_plugin_list : List Bytes
  pub restart_on_logoff : Bool
  pub wait_after_fail_secs : ℤ
  pub daemon_type : ℤ
  pub max_retries : ℤ
  pub max_failures : ℤ
  pub stage_timeout : ℤ
  pub save_now : Bool
  pub auth_round : ℤ
  pub kill_type : KillType
  pub internet_check : Bool
  pub internet_check_url : Option Bytes
  pub internet_check_interval : ℤ
  pub internet_check_timeout : ℤ
  pub internet_check_max_fail : ℤ

unfoldable pub load_default_params : Settings → Settings
load_default_params s = record s {
  pidfile = some (codes "/var/run/minieap.pid");
  logfile = some (codes "/var/log/minieap.log");
  restart_on_logoff = true;
  wait_after_fail_secs = pos 30;
  daemon_type = pos 0;
  max_retries = pos 3;
  max_failures = pos 3;
  stage_timeout = pos 5;
  save_now = false;
  auth_round = pos 1;
  kill_type = KillType.kill_none;
  internet_check = false;
  internet_check_url = some (codes "http://connect.rom.miui.com/generate_204");
  internet_check_interval = pos 60;
  internet_check_timeout = pos 3;
  internet_check_max_fail = pos 3;
}

-- A call that goes on, that ends the program after the help text, or that reads through NULL.
pub data Parsed : Type 0 where
  goes_on : Settings → Parsed
  exits faults : Parsed

-- An option whose argument is read.
abbrev pub with_arg : Option Bytes → (Bytes → Settings) → Parsed
with_arg none set = faults
with_arg (some argument) set = goes_on (set argument)

-- An option whose number has to be more than 0.
abbrev pub positive : (s : Settings) → (ℤ → Settings) → ℤ → Settings
positive s set v = if is_pos v then set v else s

abbrev pub is_zero : ℤ → Bool
is_zero (pos n) = n == 0
is_zero (negsuc n) = false

abbrev pub if_name_size : ℕ
if_name_size = 16

unfoldable pub parse_one_opt : (option : Bytes) → (argument : Option Bytes) → Settings → Parsed
unfolding insert_data
parse_one_opt option argument s =
    if text_eq option (codes "username")
    then with_arg argument (λ a. record s { username = some (strndup a 64) })
    else if text_eq option (codes "password")
    then with_arg argument (λ a. record s { password = some (strndup a 64) })
    else if text_eq option (codes "nic")
    then with_arg argument (λ a. record s { ifname = some (strndup a if_name_size) })
    else if text_eq option (codes "daemonize")
    then with_arg argument (λ a. record s { daemon_type = rem (atoi a) 4 })
    else if text_eq option (codes "pkt-plugin") || text_eq option (codes "module")
    then with_arg argument
        (λ a. record s { packet_plugin_list = insert_data s.packet_plugin_list a })
    else if text_eq option (codes "if-impl")
    then with_arg argument (λ a. record s { if_impl = some (strndup a if_name_size) })
    else if text_eq option (codes "save")
    then goes_on (record s { save_now = true })
    else if text_eq option (codes "help")
    then exits
    else if text_eq option (codes "max-fail")
    then with_arg argument (λ a. record s { max_failures = atoi a })
    else if text_eq option (codes "max-retries")
    then with_arg argument (λ a. record s { max_retries = atoi a })
    else if text_eq option (codes "no-auto-reauth")
    then goes_on (record s { restart_on_logoff = false })
    else if text_eq option (codes "wait-after-fail")
    then with_arg argument (λ a. record s { wait_after_fail_secs = atoi a })
    else if text_eq option (codes "stage-timeout")
    then with_arg argument (λ a. record s { stage_timeout = atoi a })
    else if text_eq option (codes "kill")
    then goes_on (record s {
      kill_type = elim argument [ none ↦ KillType.kill_only | some a ↦ KillType.kill_and_start ];
    })
    else if text_eq option (codes "proxy-lan-iface")
    then with_arg argument
        (λ a. record s { proxy_on = true; lan_ifname = some (strndup a if_name_size) })
    else if text_eq option (codes "auth-round")
    then with_arg argument (λ a. record s { auth_round = atoi a })
    else if text_eq option (codes "pid-file")
    then with_arg argument (λ a. record s { pidfile = some (strndup a 260) })
    else if text_eq option (codes "log-file")
    then with_arg argument (λ a. record s { logfile = some (strndup a 260) })
    else if text_eq option (codes "internet-check")
    then goes_on (record s {
      internet_check = elim argument [ none ↦ true | some a ↦ not (is_zero (atoi a)) ];
    })
    else if text_eq option (codes "internet-check-url")
    then with_arg argument (λ a. record s { internet_check_url = some (strndup a 256) })
    else if text_eq option (codes "internet-check-interval")
    then with_arg argument
        (λ a. positive s (λ v. record s { internet_check_interval = v }) (atoi a))
    else if text_eq option (codes "internet-check-timeout")
    then with_arg argument (λ a. positive s (λ v. record s { internet_check_timeout = v }) (atoi a))
    else if text_eq option (codes "internet-check-max-fail")
    then with_arg argument
        (λ a. positive s (λ v. record s { internet_check_max_fail = v }) (atoi a))
    else goes_on s

abbrev pub is_set : Option Bytes → Bool
is_set none = false
is_set (some text) = true

abbrev pub valid_url : Option Bytes → Bool
valid_url none = false
valid_url (some url) = elim (internet_check_parse_url url 256 256) [ none ↦ false | some u ↦ true ]

unfoldable pub validate_params : Settings → Bool
unfolding internet_check_parse_url
validate_params s =
    if not s.proxy_on && not (is_set s.username)
    then false
    else if not s.proxy_on && not (is_set s.password)
    then false
    else if s.proxy_on && not (is_set s.lan_ifname)
    then false
    else if not (is_set s.ifname)
    then false
    else if s.internet_check
    then valid_url s.internet_check_url
    else true

unfoldable pub free_config : Settings → Settings
unfolding list_destroy
free_config s = record s {
  ifname = none;
  pidfile = none;
  logfile = none;
  conffile = none;
  if_impl = none;
  internet_check_url = none;
  packet_plugin_list = list_destroy s.packet_plugin_list;
  username = none;
  password = none;
  lan_ifname = none;
}
