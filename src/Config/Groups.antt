-- ===== src/Config/Groups.antt =====
-- The options that `save_config_file` of config.c writes, in groups, and reading each group back.
use minieap.Prelude.{
  ◌≡◌, refl, ap, ◌∙◌, true, false, ◌||◌, List, ◌++◌, Option, some, All, ◌==◌, if◌then◌else◌, get_or,
  Bytes, codes, not,
}
use minieap.Prelude.Int.{ℤ, pos, negsuc, is_pos, rem}
use minieap.Misc.Atoi.{atoi}
use minieap.Conf.{Conf}
use minieap.Config.{Settings, goes_on, is_set, positive, parse_one_opt}
use minieap.Config.Saving.{add_string, add_number, add_flag, save_active_packet_plugin_list}
use minieap.Config.CommandLine.{or_else}
use minieap.Config.Steps.{
  IsArgument, IsSetting, IsCount, Loads, string-step, number-step, flag-step, modules-step,
}

-- Settings that can be saved: strings are set to what their options take, numbers are not negative,
-- and those of the internet check are more than 0.
pub record IsSavedSettings (s : Settings) : Type 0 where
  pub username : IsSetting 64 s.username
  pub password : IsSetting 64 s.password
  pub ifname : IsSetting 16 s.ifname
  pub lan_ifname : IsSetting 16 s.lan_ifname
  pub pidfile : IsSetting 260 s.pidfile
  pub logfile : IsSetting 260 s.logfile
  pub internet_check_url : IsSetting 256 s.internet_check_url
  pub daemon_count : IsCount s.daemon_type
  pub daemon_type : rem s.daemon_type 4 ≡ s.daemon_type
  pub max_failures : IsCount s.max_failures
  pub max_retries : IsCount s.max_retries
  pub wait_after_fail_secs : IsCount s.wait_after_fail_secs
  pub stage_timeout : IsCount s.stage_timeout
  pub auth_round : IsCount s.auth_round
  pub internet_check_interval : is_pos s.internet_check_interval ≡ true
  pub internet_check_timeout : is_pos s.internet_check_timeout ≡ true
  pub internet_check_max_fail : is_pos s.internet_check_max_fail ≡ true

is_pos-IsCount : (z : ℤ) → is_pos z ≡ true → IsCount z
is_pos-IsCount (pos n) h = (n, refl)
is_pos-IsCount (negsuc n) h = absurd (cc)

-- The groups of calls.
abbrev pub save_credentials : Settings → Conf → Conf
save_credentials s c =
    add_string (codes "nic") s.ifname
      (add_string (codes "password") s.password (add_string (codes "username") s.username c))

abbrev pub save_plugins : (active : List Bytes) → (impl : Bytes) → Settings → Conf → Conf
save_plugins active impl s c =
    add_string (codes "if-impl") (some impl)
      (add_number (codes "daemonize") s.daemon_type (save_active_packet_plugin_list active c))

abbrev pub save_limits : Settings → Conf → Conf
save_limits s c = add_number (codes "stage-timeout") s.stage_timeout (
    add_number (codes "wait-after-fail") s.wait_after_fail_secs (
      add_flag (codes "no-auto-reauth") (not s.restart_on_logoff) (
        add_number (codes "max-retries") s.max_retries
          (add_number (codes "max-fail") s.max_failures c))))

abbrev pub save_paths : Settings → Conf → Conf
save_paths s c = add_string (codes "log-file") s.logfile (
    add_string (codes "pid-file") s.pidfile (
      add_number (codes "auth-round") s.auth_round
        (add_string (codes "proxy-lan-iface") s.lan_ifname c)))

abbrev pub save_checks : Settings → Conf → Conf
save_checks s c = add_number (codes "internet-check-max-fail") s.internet_check_max_fail (
    add_number (codes "internet-check-timeout") s.internet_check_timeout (
      add_number (codes "internet-check-interval") s.internet_check_interval (
        add_string (codes "internet-check-url") s.internet_check_url
          (add_flag (codes "internet-check") s.internet_check c))))

-- The steps of `saved_options`, in groups; each takes the settings `t` that have been read so far.
module _ (s d : Settings) (v : IsSavedSettings s) where
  unfoldable pub with_credentials : Settings → Settings
  with_credentials t = record t {
    username = or_else s.username t.username;
    password = or_else s.password t.password;
    ifname = or_else s.ifname t.ifname;
  }

  pub credentials_lem :
      (c : Conf) (t : Settings) → Loads c d t → Loads (save_credentials s c) d (with_credentials t)
  unfolding parse_one_opt with_credentials
  credentials_lem c t start =
      let t1 : Settings = record t { username = or_else s.username t.username } in
      let t2 : Settings = record t1 { password = or_else s.password t.password } in
      let c1 = add_string (codes "username") s.username c in
      let c2 = add_string (codes "password") s.password c1 in
      string-step (codes "nic") 16 s.ifname c2 d t2 (λ o. record t2 { ifname = or_else o t.ifname })
        v.ifname (λ x. refl) refl
        (string-step (codes "password") 64 s.password c1 d t1
          (λ o. record t1 { password = or_else o t.password }) v.password (λ x. refl) refl
          (string-step (codes "username") 64 s.username c d t
            (λ o. record t { username = or_else o t.username }) v.username (λ x. refl) refl start))

  unfoldable pub with_plugins : (active : List Bytes) → (impl : Bytes) → Settings → Settings
  with_plugins active impl t = record t {
    packet_plugin_list = t.packet_plugin_list ++ active;
    daemon_type = s.daemon_type;
    if_impl = some impl;
  }

  pub plugins_lem :
      (active : List Bytes) (impl : Bytes) (c : Conf) (t : Settings)
      → All (λ name. (get_or name 0 0 == 0) ≡ false) active
      → IsArgument 16 impl
      → Loads c d t
      → Loads (save_plugins active impl s c) d (with_plugins active impl t)
  unfolding parse_one_opt with_plugins
  plugins_lem active impl c t names argument start =
      let t1 : Settings = record t { packet_plugin_list = t.packet_plugin_list ++ active } in
      let c1 = save_active_packet_plugin_list active c in
      let t2 : Settings = record t1 { daemon_type = rem s.daemon_type 4 } in
      let c2 = add_number (codes "daemonize") s.daemon_type c1 in
      string-step (codes "if-impl") 16 (some impl) c2 d t2
        (λ o. record t2 { if_impl = or_else o t.if_impl }) argument (λ x. refl) refl
        (number-step (codes "daemonize") s.daemon_type c1 d t1
          (λ z. record t1 { daemon_type = rem z 4 }) v.daemon_count (λ x. refl)
          (modules-step active c d t names start))
      ∙ ap (λ z. goes_on (record t1 { daemon_type = z; if_impl = some impl })) v.daemon_type

  unfoldable pub with_limits : Settings → Settings
  with_limits t = record t {
    max_failures = s.max_failures;
    max_retries = s.max_retries;
    restart_on_logoff = false;
    wait_after_fail_secs = s.wait_after_fail_secs;
    stage_timeout = s.stage_timeout;
  }

  pub limits_lem :
      (c : Conf) (t : Settings) → Loads c d t → Loads (save_limits s c) d (with_limits t)
  unfolding parse_one_opt with_limits
  limits_lem c t start =
      let t1 : Settings = record t { max_failures = s.max_failures } in
      let c1 = add_number (codes "max-fail") s.max_failures c in
      let t2 : Settings = record t1 { max_retries = s.max_retries } in
      let c2 = add_number (codes "max-retries") s.max_retries c1 in
      let t3 : Settings = record t2 { restart_on_logoff = false } in
      let c3 = add_flag (codes "no-auto-reauth") (not s.restart_on_logoff) c2 in
      let t4 : Settings = record t3 { wait_after_fail_secs = s.wait_after_fail_secs } in
      let c4 = add_number (codes "wait-after-fail") s.wait_after_fail_secs c3 in
      number-step (codes "stage-timeout") s.stage_timeout c4 d t4
        (λ z. record t4 { stage_timeout = z }) v.stage_timeout (λ x. refl)
        (number-step (codes "wait-after-fail") s.wait_after_fail_secs c3 d t3
          (λ z. record t3 { wait_after_fail_secs = z }) v.wait_after_fail_secs (λ x. refl)
          (flag-step (codes "no-auto-reauth") (not s.restart_on_logoff) c2 d t2 (λ b. t3) refl refl
            (number-step (codes "max-retries") s.max_retries c1 d t1
              (λ z. record t1 { max_retries = z }) v.max_retries (λ x. refl)
              (number-step (codes "max-fail") s.max_failures c d t
                (λ z. record t { max_failures = z }) v.max_failures (λ x. refl) start))))

  unfoldable pub with_paths : Settings → Settings
  with_paths t = record t {
    proxy_on = is_set s.lan_ifname || t.proxy_on;
    lan_ifname = or_else s.lan_ifname t.lan_ifname;
    auth_round = s.auth_round;
    pidfile = or_else s.pidfile t.pidfile;
    logfile = or_else s.logfile t.logfile;
  }

  pub paths_lem : (c : Conf) (t : Settings) → Loads c d t → Loads (save_paths s c) d (with_paths t)
  unfolding parse_one_opt with_paths
  paths_lem c t start =
      let proxied : Option Bytes → Settings =
        λ o. record t { proxy_on = is_set o || t.proxy_on; lan_ifname = or_else o t.lan_ifname } in
      let t1 = proxied s.lan_ifname in
      let c1 = add_string (codes "proxy-lan-iface") s.lan_ifname c in
      let t2 : Settings = record t1 { auth_round = s.auth_round } in
      let c2 = add_number (codes "auth-round") s.auth_round c1 in
      let t3 : Settings = record t2 { pidfile = or_else s.pidfile t.pidfile } in
      let c3 = add_string (codes "pid-file") s.pidfile c2 in
      string-step (codes "log-file") 260 s.logfile c3 d t3
        (λ o. record t3 { logfile = or_else o t.logfile }) v.logfile (λ x. refl) refl
        (string-step (codes "pid-file") 260 s.pidfile c2 d t2
          (λ o. record t2 { pidfile = or_else o t.pidfile }) v.pidfile (λ x. refl) refl
          (number-step (codes "auth-round") s.auth_round c1 d t1 (λ z. record t1 { auth_round = z })
            v.auth_round (λ x. refl)
            (string-step (codes "proxy-lan-iface") 16 s.lan_ifname c d t proxied v.lan_ifname
              (λ x. refl) refl start)))

  -- A number that has to be more than 0.
  positive-step :
      (key : Bytes) (z : ℤ) (c : Conf) (t : Settings) (update : ℤ → Settings)
      → is_pos z ≡ true
      → ((x : Bytes) → parse_one_opt key (some x) t ≡ goes_on (positive t update (atoi x)))
      → Loads c d t
      → Loads (add_number key z c) d (update z)
  positive-step key z c t update h one start =
      number-step key z c d t (positive t update) (is_pos-IsCount z h) one start
      ∙ ap (λ b. goes_on (if b then update z else t)) h

  unfoldable pub with_checks : Settings → Settings
  with_checks t = record t {
    internet_check = s.internet_check;
    internet_check_url = or_else s.internet_check_url t.internet_check_url;
    internet_check_interval = s.internet_check_interval;
    internet_check_timeout = s.internet_check_timeout;
    internet_check_max_fail = s.internet_check_max_fail;
  }

  pub checks_lem :
      (c : Conf) (t : Settings) → Loads c d t → Loads (save_checks s c) d (with_checks t)
  unfolding parse_one_opt with_checks atoi
  checks_lem c t start =
      let t1 : Settings = record t { internet_check = s.internet_check } in
      let c1 = add_flag (codes "internet-check") s.internet_check c in
      let t2 : Settings = record t1 {
        internet_check_url = or_else s.internet_check_url t.internet_check_url;
      } in
      let c2 = add_string (codes "internet-check-url") s.internet_check_url c1 in
      let t3 : Settings = record t2 { internet_check_interval = s.internet_check_interval } in
      let c3 = add_number (codes "internet-check-interval") s.internet_check_interval c2 in
      let t4 : Settings = record t3 { internet_check_timeout = s.internet_check_timeout } in
      let c4 = add_number (codes "internet-check-timeout") s.internet_check_timeout c3 in
      positive-step (codes "internet-check-max-fail") s.internet_check_max_fail c4 t4
        (λ z. record t4 { internet_check_max_fail = z }) v.internet_check_max_fail (λ x. refl)
        (positive-step (codes "internet-check-timeout") s.internet_check_timeout c3 t3
          (λ z. record t3 { internet_check_timeout = z }) v.internet_check_timeout (λ x. refl)
          (positive-step (codes "internet-check-interval") s.internet_check_interval c2 t2
            (λ z. record t2 { internet_check_interval = z }) v.internet_check_interval (λ x. refl)
            (string-step (codes "internet-check-url") 256 s.internet_check_url c1 d t1
              (λ o. record t1 { internet_check_url = or_else o t.internet_check_url })
              v.internet_check_url (λ x. refl) refl
              (flag-step (codes "internet-check") s.internet_check c d t
                (λ b. record t { internet_check = b }) refl refl start))))
