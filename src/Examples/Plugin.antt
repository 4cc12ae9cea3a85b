-- ===== src/Examples/Plugin.antt =====
-- The RJv3 plugin's second authentication and the frames it changes, on small inputs.
use minieap.Prelude.{
  ℕ, ◌≡◌, true, false, [], ◌∷◌, ◌++◌, some, none, arith, Bytes, codes, replicate, map,
}
use minieap.Prelude.Int.{pos}
use minieap.Frame.{EthEapFrame, eap_success}
use minieap.Rjv3.Prop.Layout.{Entry, prop_for}
use minieap.Rjv3.Keepalive.{Keepalive, Link}
use minieap.Rjv3.Options.{RjOptions, rjv3_parse_one_opt}
use minieap.Rjv3.Session.{RjPriv, RjCallback, send_keepalive, Net}
use minieap.Rjv3.Append.{Host}
use minieap.Rjv3.Append.Trailer.{rjv3_prepare_frame}
use minieap.Rjv3.Append.Serial.{fake_serial-none}
use minieap.Examples.Configuration.{no_options}

abbrev idle_keepalive : Keepalive RjCallback
idle_keepalive = record {
  alarm_id = none;
  echokey = 0;
  echono = 0;
  dest_mac = replicate 6 0;
  packet_builder = none;
  sched = record {
    alarm_list = [];
    alarm_list_add_temp = [];
    last_id = 0;
    ringing = false;
    last_set_time = pos 0;
    timer = 0;
  };
  sent = [];
}

abbrev new_plugin : RjPriv
new_plugin = record {
  options = no_options;
  succ_count = 0;
  dhcp_count = 0;
  secondary_auth_alarm_id = none;
  md5_request = none;
  duplicated_packet = none;
  keepalive = idle_keepalive;
  restarts = 0;
  scripts = [];
}

abbrev plugin_link : Link RjCallback
plugin_link = record {
  heartbeat_interval = pos 60;
  timed = send_keepalive;
  src_mac = some (replicate 6 1);
  send_frame = λ sent bytes. true;
  compute_hash = λ xs. xs;
}

-- No address yet, and an address with a gateway and a DNS server.
abbrev offline : Net
offline = record {
  ifname = some (codes "e0");
  ip_list = some [];
  gateway = none;
  dns_list = some (codes "10.0.0.2" ∷ []);
  inet_pton = λ text. some (10 ∷ 0 ∷ 0 ∷ 2 ∷ []);
  rand = 77;
}

abbrev leased : Net
leased = record offline {
  ip_list =
      some (record { family = 2; ip = 10 ∷ 0 ∷ 0 ∷ 9 ∷ []; mask = 255 ∷ 0 ∷ 0 ∷ 0 ∷ [] } ∷ []);
  gateway = some (10 ∷ 0 ∷ 0 ∷ 1 ∷ []);
}

-- The header of an EAP packet from the address 6 6 6 6 6 6, up to the type.
abbrev eap_bytes : (code : ℕ) → Bytes
eap_bytes code =
    replicate 6 1 ++ (replicate 6 6 ++ (0x88 ∷ 0x8e ∷ 1 ∷ 0 ∷ 0 ∷ 4 ∷ code ∷ 1 ∷ 0 ∷ 4 ∷ []))

-- A success with the property that holds the key of the heartbeat.
abbrev success_frame : EthEapFrame
success_frame = record {
  actual_len = 38;
  buffer_len = 38;
  content =
      eap_bytes eap_success
      ++ (0 ∷ 0 ∷ 0x13 ∷ 0x11 ∷ 1 ∷ 0 ∷ (replicate 6 0 ++ 255 ∷ 255 ∷ 255 ∷ 127 ∷ []));
}

-- A request.
abbrev request_frame : EthEapFrame
request_frame = record { actual_len = 23; buffer_len = 23; content = eap_bytes 1 ++ 1 ∷ [] }

abbrev second_auth : RjPriv
second_auth = record new_plugin {
  duplicated_packet = some success_frame;
  secondary_auth_alarm_id = some 4;
  dhcp_count = 2;
}

fake_serial-none_example :
    (options' : RjOptions) × (rjv3_parse_one_opt
        (codes "fake-serial")
        (replicate 70 b'7')
        no_options
      ≡ some (record { ok = true; options = options' }))
    × ((host : Host) (net : Net) (frame : EthEapFrame) (s : RjPriv)
        → s.options.fake_serial ≡ options'.fake_serial
        → rjv3_prepare_frame host net frame s ≡ none)
fake_serial-none_example = fake_serial-none (replicate 70 b'7') no_options (omega arith)

-- The DHCP flag takes two more bytes, and the version is added.
abbrev dhcp_flag : Entry
dhcp_flag = record { type = 0x18; content = 0 ∷ 0 ∷ 0 ∷ 1 ∷ [] }

abbrev longer_flag : Entry
longer_flag = record { type = 0x18; content = 9 ∷ 9 ∷ 9 ∷ 9 ∷ 9 ∷ 9 ∷ [] }

abbrev added : Entry
added = record { type = 0x6f; content = 0x52 ∷ 0x47 ∷ [] }

abbrev changing : RjOptions
changing = record no_options {
  cmd_prop_list = map prop_for (added ∷ []);
  cmd_prop_mod_list = map prop_for (longer_flag ∷ []);
}

abbrev start_frame : EthEapFrame
start_frame = record { actual_len = 4; buffer_len = 60; content = replicate 60 0 }
