-- ===== src/Config/Reload.antt =====
-- Reading back the options that `save_config_file` of config.c writes.
use minieap.Prelude.{◌≡◌, refl, false, ◌||◌, List, ◌++◌, some, All, ◌==◌, get_or, Bytes}
use minieap.LinkedList.{list_destroy}
use minieap.Conf.{Conf, conf_parser_free, conf_parser_traverse}
use minieap.Config.{Settings, goes_on, is_set}
use minieap.Config.Saving.{load_pairs, saved_options}
use minieap.Config.CommandLine.{or_else}
use minieap.Config.Steps.{IsArgument, Loads}
use minieap.Config.Groups.{
  IsSavedSettings, save_credentials, save_plugins, save_limits, save_paths, with_credentials,
  credentials_lem, with_plugins, plugins_lem, with_limits, limits_lem, with_paths, paths_lem,
  with_checks, checks_lem,
}

-- The settings `d` with the saved options `s`.
abbrev pub reloaded : (active : List Bytes) → (impl : Bytes) → (s d : Settings) → Settings
reloaded active impl s d = record d {
  username = or_else s.username d.username;
  password = or_else s.password d.password;
  ifname = or_else s.ifname d.ifname;
  packet_plugin_list = d.packet_plugin_list ++ active;
  daemon_type = s.daemon_type;
  if_impl = some impl;
  max_failures = s.max_failures;
  max_retries = s.max_retries;
  restart_on_logoff = false;
  wait_after_fail_secs = s.wait_after_fail_secs;
  stage_timeout = s.stage_timeout;
  proxy_on = is_set s.lan_ifname || d.proxy_on;
  lan_ifname = or_else s.lan_ifname d.lan_ifname;
  auth_round = s.auth_round;
  pidfile = or_else s.pidfile d.pidfile;
  logfile = or_else s.logfile d.logfile;
  internet_check = s.internet_check;
  internet_check_url = or_else s.internet_check_url d.internet_check_url;
  internet_check_interval = s.internet_check_interval;
  internet_check_timeout = s.internet_check_timeout;
  internet_check_max_fail = s.internet_check_max_fail;
}

empty-Loads : (c : Conf) (d : Settings) → Loads (conf_parser_free c) d d
unfolding conf_parser_free conf_parser_traverse list_destroy
empty-Loads c d = refl

-- The options that `save_config_file` writes for itself, read back into any settings `d`: each
-- option that is set gets its saved value, and one that is not set keeps its value in `d`; the
-- plugins' names follow those that are there. But `restart_on_logoff` is false then, whatever has
-- been saved. Strings have to be non-empty and to fit their fields, numbers not to be negative, those
-- of the internet check to be positive, and the type of daemon one of the four.
pub load-saved_options :
    (active : List Bytes) (impl : Bytes) (s d : Settings) (c : Conf)
    → IsSavedSettings s
    → All (λ name. (get_or name 0 0 == 0) ≡ false) active
    → IsArgument 16 impl
    → load_pairs (saved_options active impl s c) d ≡ goes_on (reloaded active impl s d)
unfolding load_pairs saved_options with_credentials with_plugins with_limits with_paths with_checks
load-saved_options active impl s d c v names argument =
    let t1 = with_credentials s d v d in
    let c1 = save_credentials s (conf_parser_free c) in
    let t2 = with_plugins s d v active impl t1 in
    let c2 = save_plugins active impl s c1 in
    let t3 = with_limits s d v t2 in
    let c3 = save_limits s c2 in
    checks_lem s d v (save_paths s c3) (with_paths s d v t3) (
      paths_lem s d v c3 t3 (
        limits_lem s d v c2 t2 (
          plugins_lem s d v active impl c1 t1 names argument
            (credentials_lem s d v (conf_parser_free c) d (empty-Loads c d)))))
