-- ===== src/Examples/Machines.antt =====
-- The state machine of eap_state_machine.c on one configuration without plugins.
use minieap.Prelude.{
  ℕ, ◌≡◌, refl, true, false, List, [], ◌∷◌, ◌++◌, none, some, length, replicate, Bytes, arith, u8,
}
use minieap.Prelude.Int.{pos}
use minieap.Frame.{EthEapFrame, identity, md5_challenge}
use minieap.Alarm.{Sched}
use minieap.Builder.{EapConfig, packet_builder_new}
use minieap.Plugins.{packet_plugin_prepare_frame, packet_plugin_on_frame_received}
use minieap.Machine.World.{
  start_sent, success, failure, Callback, ProgConfig, World, Env, ok, then_do,
}
use minieap.Machine.Send.{state_mach_send_identity_response, state_mach_send_challenge_response}
use minieap.Machine.Handler.{eap_state_machine_init, switch, restart_auth}
use minieap.Machine.Run.{ic_fail, Event, received, watchdog_rings, restart_rings, check_rings, run}
use minieap.Machine.Safe.{Safe, IsEnv, Ready, IsReceived}
use minieap.Machine.Events.{start-Safe}
use minieap.Machine.Rounds.{Online, success-Online, restart-failure-fail_count, success-auth_round}
use minieap.Machine.Wire.{response_packet, Sends, identity_response-Sends, challenge_response-Sends}

abbrev client_mac : Bytes
client_mac = 2 ∷ 0 ∷ 0 ∷ 0 ∷ 0 ∷ 1 ∷ []

abbrev server : Bytes
server = 2 ∷ 0 ∷ 0 ∷ 0 ∷ 0 ∷ 9 ∷ []

abbrev credentials : EapConfig
credentials = record { username = b'm' ∷ b'e' ∷ []; password = b'p' ∷ b'w' ∷ [] }

-- Two rounds, three tries and two failures.
abbrev config : ProgConfig
config = record {
  auth_round = 2;
  max_retries = 3;
  max_failures = 2;
  wait_after_fail_secs = 30;
  restart_on_logoff = true;
  stage_timeout = 5;
  internet_check = false;
  internet_check_interval = 60;
  internet_check_max_fail = 3;
}

abbrev env : Env ℕ
env = record {
  cfg = config;
  eap_config = credentials;
  compute_hash = λ xs. replicate 16 (u8 (length xs));
  send_frame = λ sent bytes. true;
  active_plugins = [];
}

env-IsEnv : IsEnv env
unfolding packet_plugin_prepare_frame packet_plugin_on_frame_received
env-IsEnv = record {
  digest = λ xs. refl;
  username = omega arith;
  password = omega arith;
  prepares = λ f priv v. (record { ok = true; frame = f; priv = priv }, refl);
  receives = λ f priv v. (record { ok = true; priv = priv }, refl);
}

abbrev idle : Sched Callback
idle = record {
  alarm_list = [];
  alarm_list_add_temp = [];
  last_id = 0;
  ringing = false;
  last_set_time = pos 0;
  timer = 0;
}

-- The memory before the set-up.
abbrev fresh : World ℕ
fresh = record {
  state_last_count = 0;
  auth_round = 0;
  fail_count = 0;
  state_alarm_id = 0;
  local_mac = replicate 6 0;
  server_mac = replicate 6 0;
  state = start_sent;
  last_recv_frame = none;
  packet_builder = none;
  check_alarm_id = none;
  check_fail_count = 0;
  sched = idle;
  plugins = 0;
  sent = [];
}

-- The machine behind the first EAPOL-Start.
abbrev started : World ℕ
started = record fresh {
  local_mac = client_mac;
  server_mac = server;
  packet_builder = some packet_builder_new;
  auth_round = 1;
}

started-Ready : Ready started
started-Ready = record {
  builder = packet_builder_new;
  built = refl;
  header = record {
    dest_mac = refl;
    src_mac = refl;
    protocol = refl;
    eapol_len = refl;
    eap_len = refl;
  };
  local = refl;
  server = refl;
}

-- A frame of 60 bytes with the given code and type, and the identifier 7.
abbrev frame_of : (eap_code eap_type : ℕ) → EthEapFrame
frame_of eap_code eap_type = record {
  actual_len = 60;
  buffer_len = 60;
  content =
      client_mac
      ++ (server
          ++ (0x88 ∷ 0x8e ∷ 1 ∷ 0 ∷ 0 ∷ 5 ∷ eap_code ∷ 7 ∷ 0 ∷ 5 ∷ eap_type ∷ 16 ∷ replicate 36 3));
}

abbrev events : List Event
events =
    received (frame_of 1 1)
    ∷ watchdog_rings
    ∷ received (frame_of 1 4)
    ∷ received (frame_of 3 0)
    ∷ received (frame_of 4 0)
    ∷ restart_rings
    ∷ check_rings ic_fail
    ∷ []

is_received : (eap_code eap_type : ℕ) → IsReceived (frame_of eap_code eap_type)
is_received eap_code eap_type = record { padded = omega arith; held = omega arith }

start-Safe_example :
    Safe
      (λ _ w'. Ready w')
      (then_do (eap_state_machine_init env (some client_mac) fresh) λ _. run env events false)
start-Safe_example =
    start-Safe env env-IsEnv client_mac events false fresh refl refl (
      is_received 1 1,
      (tt, (is_received 1 4, (is_received 3 0, (is_received 4 0, (tt, (tt, tt)))))),
    )

identity_response-Sends_example :
    Sends
      (state_mach_send_identity_response env (some (frame_of 1 1)) started)
      started
      (response_packet server client_mac 7 identity (b'm' ∷ b'e' ∷ []))
identity_response-Sends_example =
    identity_response-Sends env env-IsEnv (frame_of 1 1) started started-Ready (omega arith) refl
      refl

challenge_response-Sends_example :
    Sends (state_mach_send_challenge_response env (some (frame_of 1 4)) started) started (
      response_packet server client_mac 7 md5_challenge
        (16 ∷ (replicate 16 19 ++ b'm' ∷ b'e' ∷ [])))
challenge_response-Sends_example =
    challenge_response-Sends env env-IsEnv (frame_of 1 4) started started-Ready (omega arith) refl
      refl

-- The machine in the last round.
abbrev last_round : World ℕ
last_round = record started { auth_round = 2 }

success-Online_example :
    (w' : World ℕ) × (switch env success none last_round ≡ ok true w') × Online w' × (w'.sent ≡ [])
success-Online_example = success-Online env none last_round (λ e. absurd (cc)) refl

-- The state that success in the first round of two leaves.
abbrev between : World ℕ
between = record last_round { state = success }

restart-failure-fail_count_example :
    Safe
      (λ _ w'. w'.fail_count ≡ 1)
      (then_do (restart_auth env (record started { fail_count = 1 })) λ _. switch env failure none)
restart-failure-fail_count_example =
    restart-failure-fail_count env env-IsEnv none (record started { fail_count = 1 }) started-Ready

success-auth_round_example :
    Safe
      (λ _ w'. (w'.state ≡ success) × (w'.auth_round ≡ 2) × (w'.fail_count ≡ 0))
      (switch env success none started)
success-auth_round_example =
    success-auth_round env env-IsEnv none started started-Ready (λ e. absurd (cc))

-- A client with the internet check, in SUCCESS with one failed probe.
abbrev checking : Env ℕ
checking = record env { cfg = record config { internet_check = true } }
