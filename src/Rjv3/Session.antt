-- ===== src/Rjv3/Session.antt =====
-- packet_plugin_rjv3.c and packet_plugin_rjv3_priv.c: the plugin's state, the DHCP lease, the key
-- of the heartbeat and the reset; Auth has the received frames and the second authentication.
-- `none` is a fault, and a `RESULT` is a Boolean. The text messages of the server, which are only
-- printed, are left out.
pub mod Auth
pub mod Life
pub mod Timers
pub mod Lease
pub mod Success
pub mod Online
use minieap.Prelude.{
  codes, ℕ, zero, suc, ◌+◌, ◌-◌, ◌%◌, ◌^◌, Bool, true, false, not, ◌&&◌, List, [], ◌∷◌, ◌++◌,
  Option, none, some, ltb, leb, ◌==◌, if◌then◌else◌, length, take, drop, get_elem?, bit_and, bit_or,
  Bytes, not8, ◌<<◌,
}
use minieap.Prelude.Int.{ℤ, pos, negsuc, is_pos, ltb_ℤ, pos_part}
use minieap.Prelude.Maybe.{◌>>=◌}
use minieap.LinkedList.{lookup_data}
use minieap.Misc.{bit_reverse}
use minieap.Frame.{
  EthEapFrame, read_bytes, frame_duplicate, free_frame, frame_header_size, eapol_type_offset,
  eap_code_offset, eap_type_offset, src_mac_offset, eap_packet, eap_request, eap_success,
  eap_failure, md5_challenge,
}
use minieap.Alarm.{Sched, schedule_alarm, unschedule_alarm}
use minieap.Rjv3.Prop.{RjProp, prop_to_content_size}
use minieap.Rjv3.Prop.Parse.{parse_rjv3_buf_to_prop_list}
use minieap.Rjv3.Keepalive.{
  Keepalive, Link, Beat, Sent, rjv3_set_keepalive_echokey, rjv3_set_keepalive_echono,
  rjv3_set_keepalive_dest_mac, rjv3_keepalive_reset, rjv3_start_keepalive,
  rjv3_send_keepalive_timed,
}
use minieap.Rjv3.Options.{RjOptions}

-- The functions that the plugin gives to `schedule_alarm`.
pub data RjCallback : Type 0 where
  send_keepalive start_secondary_auth : RjCallback

-- `rjv3_priv` with the globals of the heartbeat, which hold the scheduler. `restarts` counts the
-- calls of `switch_to_state(EAP_STATE_START_SENT)`, and `scripts` are the commands that were run.
pub record RjPriv : Type 0 where
  pub options : RjOptions
  pub succ_count : ℕ
  pub dhcp_count : ℕ
  pub secondary_auth_alarm_id : Option ℕ
  pub md5_request : Option EthEapFrame
  pub duplicated_packet : Option EthEapFrame
  pub keepalive : Keepalive RjCallback
  pub restarts : ℕ
  pub scripts : List (Option Bytes)

-- IP_ADDR
pub record IpAddr : Type 0 where
  pub family : ℕ
  pub ip : Bytes
  pub mask : Bytes

pub record DhcpLease : Type 0 where
  pub ip : Bytes
  pub netmask : Bytes
  pub gateway : Bytes
  pub dns : Bytes

-- What the network functions of the system return at a moment; `none` is a failure.
pub record Net : Type 0 where
  pub ifname : Option Bytes
  pub ip_list : Option (List IpAddr)
  pub gateway : Option Bytes
  pub dns_list : Option (List Bytes)
  pub inet_pton : Bytes → Option Bytes
  pub rand : ℕ

abbrev pub af_inet : ℕ
af_inet = 2

abbrev pub Done : Type 0
Done = record { ok : Bool; after : RjPriv }

abbrev pub first_dns : Option (List Bytes) → Option (Option Bytes)
first_dns none = some none
first_dns (some []) = none
first_dns (some (dns ∷ rest)) = some (some dns)

-- The primary DNS address as text: the option, or the first of the system; an empty list is a
-- fault.
abbrev pub dns1_str : (fake_dns1 : Option Bytes) → Net → Option (Option Bytes)
dns1_str (some dns) net = some (some dns)
dns1_str none net = first_dns net.dns_list

abbrev pub lease_of : IpAddr → (gateway : Bytes) → (dns : Option Bytes) → Option DhcpLease
lease_of ipv4 gateway none = none
lease_of ipv4 gateway (some dns) = some (record {
  ip = take 4 ipv4.ip;
  netmask = take 4 ipv4.mask;
  gateway = take 4 gateway;
  dns = take 4 dns;
})

-- `find_ip_with_family`
abbrev pub find_ip : (family : ℕ) → List IpAddr → Option IpAddr
find_ip family list = lookup_data list family (λ f (a : IpAddr). a.family == f)

-- The outer `none` is a fault, the inner one a failure.
unfoldable pub rjv3_get_dhcp_lease : (fake_dns1 : Option Bytes) → Net → Option (Option DhcpLease)
unfolding lookup_data
rjv3_get_dhcp_lease fake_dns1 net = elim net.ifname [
  | none ↦ some none
  | some ifname ↦ elim net.ip_list [
    | none ↦ some none
    | some ips ↦ elim (find_ip af_inet ips) [
      | none ↦ some none
      | some ipv4 ↦ elim net.gateway [
        | none ↦ some none
        | some gateway ↦ (do
          dns1 ← dns1_str fake_dns1 net
          some (elim dns1 [ none ↦ none | some s ↦ lease_of ipv4 gateway (net.inet_pton s) ]))
      ]
    ]
  ]
]

-- Whether the comparison returns 0: a property of type 1 that has a content.
abbrev pub is_zero_size : ℤ → Bool
is_zero_size (pos n) = n == 0
is_zero_size (negsuc n) = false

abbrev pub rjv3_is_echokey_prop : (unused : ℕ) → RjProp → Bool
rjv3_is_echokey_prop unused prop =
    prop.type == 1 && not (is_zero_size (prop_to_content_size prop.len))

-- The four bytes of the key.
unfoldable pub echokey_of : (content : Bytes) → Option ℕ
echokey_of content = do
  a ← get_elem? content 6
  b ← get_elem? content 7
  c ← get_elem? content 8
  d ← get_elem? content 9
  some (
      bit_or
        (bit_or (bit_or (bit_reverse (not8 a) << 24) (bit_reverse (not8 b) << 16))
          (bit_reverse (not8 c) << 8))
        (bit_reverse (not8 d)))

module _ {C : Type 0} where
  unfoldable pub set_echo :
      (prop : Option RjProp) → (src_mac : Bytes) → (rand : ℕ) → Keepalive C → Option (Sent C)
  unfolding echokey_of rjv3_set_keepalive_echokey rjv3_set_keepalive_echono
      rjv3_set_keepalive_dest_mac
  set_echo none src_mac rand k = some (record { ok = false; after = k })
  set_echo (some prop) src_mac rand k = do
    key ← echokey_of prop.content
    some (record {
      ok = true;
      after =
          rjv3_set_keepalive_dest_mac src_mac
            (rjv3_set_keepalive_echono (bit_and rand 0xffff) (rjv3_set_keepalive_echokey key k));
    })

  -- The properties start where the type of an EAP header would be. The parser's result is not
  -- looked at, and a list that it gives up on is used up to there.
  unfoldable pub rjv3_process_result_prop : EthEapFrame → (rand : ℕ) → Keepalive C → Option (Sent C)
  unfolding parse_rjv3_buf_to_prop_list lookup_data set_echo
  rjv3_process_result_prop frame rand k = do
    srv_msg ←
        parse_rjv3_buf_to_prop_list [] (drop (frame_header_size - 1) frame.content)
          (frame.actual_len - (frame_header_size - 1)) true
    type ← get_elem? frame.content eapol_type_offset
    code ← get_elem? frame.content eap_code_offset
    src_mac ← read_bytes frame.content src_mac_offset 6
    if type == eap_packet && code == eap_success
        then set_echo (lookup_data srv_msg.list 0 rjv3_is_echokey_prop) src_mac rand k
        else some (record { ok = true; after = k })

-- `unschedule_alarm(PRIV->secondary_auth_alarm_id)` and the -1.
unfoldable pub cancel_secondary : RjPriv → RjPriv
unfolding unschedule_alarm
cancel_secondary s = elim s.secondary_auth_alarm_id [
  | none ↦ s
  | some id ↦ record s {
    keepalive = record s.keepalive { sched = unschedule_alarm id s.keepalive.sched };
    secondary_auth_alarm_id = none;
  }
]

unfoldable pub rjv3_reset_session : RjPriv → RjPriv
unfolding cancel_secondary rjv3_keepalive_reset free_frame
rjv3_reset_session s =
    let s = cancel_secondary s in
    record s {
      keepalive = rjv3_keepalive_reset s.keepalive;
      duplicated_packet = free_frame s.duplicated_packet;
      dhcp_count = 0;
      succ_count = 0;
      md5_request = free_frame s.md5_request;
    }

-- A value of an enumeration as an `int`.
abbrev pub is_dhcp_type : ℕ → ℤ → Bool
is_dhcp_type n (pos m) = m == n
is_dhcp_type n (negsuc m) = false

-- `packet_plugin_rjv3_new`: the memory is set to zero.
abbrev pub packet_plugin_rjv3_new : RjOptions → Keepalive RjCallback → RjPriv
packet_plugin_rjv3_new options keepalive = record {
  options = options;
  succ_count = 0;
  dhcp_count = 0;
  secondary_auth_alarm_id = none;
  md5_request = none;
  duplicated_packet = none;
  keepalive = keepalive;
  restarts = 0;
  scripts = [];
}
