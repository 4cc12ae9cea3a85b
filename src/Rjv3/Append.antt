-- ===== src/Rjv3/Append.antt =====
-- packet_plugin_rjv3_priv.c: what the plugin adds to a frame that is sent. `none` is a fault, and a
-- pointer outside its buffer counts as one.
pub mod Trailer
pub mod Layout
pub mod Serial
use minieap.Prelude.{
  codes, ℕ, zero, suc, ◌+◌, ◌-◌, ◌/◌, ◌%◌, ◌^◌, Bool, true, false, not, ◌&&◌, ◌||◌, List, [], ◌∷◌,
  ◌++◌, Option, none, some, ltb, leb, ◌==◌, if◌then◌else◌, length, take, drop, replicate, get_elem?,
  get_or, Bytes, bit_and,
}
use minieap.Prelude.Int.{ℤ, pos, negsuc, is_pos, ltb_ℤ, ◌+ℤ◌}
use minieap.Prelude.Maybe.{◌>>=◌}
use minieap.Frame.{
  EthEapFrame, read_bytes, write_bytes, append_to_frame, free_frame, eapol_type_offset,
  eap_type_offset, eap_packet, eapol_start, eapol_logoff, md5_challenge,
}
use minieap.Rjv3.Prop.{
  RjProp, append_rjv3_prop, modify_rjv3_prop_list, append_rjv3_prop_list_to_buffer, append_content,
  prop_magic,
}
use minieap.Rjv3.Crc.{crc16}
use minieap.Rjv3.Encode.{rj_encode}
use minieap.Rjv3.Options.{RjOptions, max_prop_len}
use minieap.Rjv3.Session.{RjPriv, Net, IpAddr, DhcpLease, rjv3_get_dhcp_lease, is_dhcp_type}

-- What the plugin takes from elsewhere: the hash functions, the credentials, the bytes that
-- `obtain_iface_mac` leaves and those that a disk gives as its serial number.
pub record Host : Type 0 where
  pub compute_pwd : (md5 username password : Bytes) → Bytes
  pub compute_v4 : (src : Bytes) → (len : ℕ) → Bytes
  pub username : Bytes
  pub password : Bytes
  pub local_mac : Bytes
  pub serial_no : Bytes

abbrev pub buf_size : ℕ
buf_size = 1512

-- IS_MD5_FRAME, with NULL for `none`
abbrev pub is_md5_frame : Option EthEapFrame → Option Bool
is_md5_frame none = some false
is_md5_frame (some frame) = do
  eapol_type ← get_elem? frame.content eapol_type_offset
  type ← get_elem? frame.content eap_type_offset
  some (eapol_type == eap_packet && type == md5_challenge)

unfoldable pub rjv3_set_dhcp_en : (dhcp_type : ℤ) → Bytes
rjv3_set_dhcp_en dhcp_type = 0 ∷ 0 ∷ 0 ∷ (if is_dhcp_type 0 dhcp_type then 0 else 1) ∷ []

abbrev pub content_of : Option EthEapFrame → Bytes
content_of none = []
content_of (some frame) = frame.content

-- MD5-Value stands behind the header and the byte with its size.
unfoldable pub rjv3_set_pwd_hash : Host → (request : Option EthEapFrame) → Option Bytes
rjv3_set_pwd_hash host request = do
  md5 ← is_md5_frame request
  some (
      if md5
      then take 16 (host.compute_pwd (drop 24 (content_of request)) host.username host.password)
      else replicate 16 0)

unfoldable pub rjv3_set_v3_hash : Host → (request : Option EthEapFrame) → Option Bytes
rjv3_set_v3_hash host request = do
  md5 ← is_md5_frame request
  if md5
      then (do
        size ← get_elem? (content_of request) 23
        some (take 0x80 (host.compute_v4 (drop 24 (content_of request)) size)))
      else some (take 0x80 (host.compute_v4 (replicate 16 0) 16))

-- The three addresses that the loop over the IPv6 addresses keeps.
pub record Ipv6 : Type 0 where
  pub ll_slaac : Bytes
  pub ll_temp : Bytes
  pub global : Bytes

abbrev pub af_inet6 : ℕ
af_inet6 = 10

unfoldable pub keep_ipv6 : IpAddr → Ipv6 → Ipv6
keep_ipv6 a kept =
    if a.family == af_inet6
    then (if bit_and (get_or a.ip 0 0) 0xf0 == 0x20
        then record kept { global = take 16 a.ip }
        else if get_or a.ip 0 0 == 0xfe && get_or a.ip 1 0 == 0x80
        then (if get_or a.ip 11 0 == 0xff && get_or a.ip 12 0 == 0xfe
            then record kept { ll_slaac = take 16 a.ip }
            else record kept { ll_temp = take 16 a.ip })
        else kept)
    else kept

unfoldable pub keep_all : List IpAddr → Ipv6 → Ipv6
unfolding keep_ipv6
keep_all [] kept = kept
keep_all (a ∷ list) kept = keep_all list (keep_ipv6 a kept)

unfoldable pub rjv3_set_ipv6_addr : Net → Ipv6
unfolding keep_all
rjv3_set_ipv6_addr net =
    let zeros : Ipv6 = record {
      ll_slaac = replicate 16 0;
      ll_temp = replicate 16 0;
      global = replicate 16 0;
    } in
    elim net.ifname [
      | none ↦ zeros
      | some ifname ↦ elim net.ip_list [ none ↦ zeros | some list ↦ keep_all list zeros ]
    ]

unfoldable pub rjv3_set_service_name : (cmd_opt : Option Bytes) → Option Bytes
rjv3_set_service_name cmd_opt = do name ← cmd_opt; write_bytes (replicate 0x20 0) 0 name

-- The text of the buffer of 46 bytes; `strlen` runs past a buffer that is full.
abbrev pub second_dns : List Bytes → Bytes
second_dns (first ∷ second ∷ rest) = second
second_dns list = []

abbrev pub dns_text : (fake_dns : Option Bytes) → Net → Bytes
dns_text (some fake) net = take 46 fake
dns_text none net = take 46 (elim net.dns_list [ none ↦ [] | some list ↦ second_dns list ])

unfoldable pub rjv3_set_secondary_dns : (fake_dns : Option Bytes) → Net → Option Bytes
rjv3_set_secondary_dns fake_dns net =
    if leb 46 (length (dns_text fake_dns net)) then none else some (dns_text fake_dns net)

abbrev pub serial_text : (fake_serial : Option Bytes) → Host → Bytes
serial_text (some fake) host = take max_prop_len fake
serial_text none host = host.serial_no

-- The buffer has 64 bytes.
unfoldable pub rjv3_set_hdd_serial : (fake_serial : Option Bytes) → Host → Option Bytes
rjv3_set_hdd_serial fake_serial host =
    write_bytes (replicate 0x40 0) 0 (serial_text fake_serial host)

-- The calls of `append_rjv3_prop` in a row. Its result is never negative.
unfoldable pub append_fields : List (ℕ × Bytes) → List RjProp → Option (List RjProp)
unfolding append_rjv3_prop
append_fields [] list = some list
append_fields ((type, content) ∷ fields) list = do
  r ← append_rjv3_prop list type content (pos (length content))
  append_fields fields r.list

unfoldable pub rjv3_append_common_fields :
    Host → Net → RjPriv → (append_pwd_hash : Bool) → Option (List RjProp)
unfolding rjv3_set_pwd_hash rjv3_set_secondary_dns rjv3_set_ipv6_addr rjv3_set_v3_hash
    rjv3_set_service_name rjv3_set_hdd_serial append_fields rjv3_set_dhcp_en
rjv3_append_common_fields host net s append_pwd_hash = do
  pwd_hash ← rjv3_set_pwd_hash host s.md5_request
  sec_dns ← rjv3_set_secondary_dns s.options.fake_dns2 net
  let ipv6 = rjv3_set_ipv6_addr net
  v3_hash ← rjv3_set_v3_hash host s.md5_request
  service ← rjv3_set_service_name s.options.service_name
  hdd_ser ← rjv3_set_hdd_serial s.options.fake_serial host
  ver_str ← s.options.ver_str
  append_fields
      ((0x18, rjv3_set_dhcp_en s.options.dhcp_type)
        ∷ (0x2d, take 6 host.local_mac)
        ∷ (0x2f, if append_pwd_hash then pwd_hash else [])
        ∷ (0x76, sec_dns)
        ∷ (0x35, 1 ∷ [])
        ∷ (0x36, ipv6.ll_slaac)
        ∷ (0x38, ipv6.ll_temp)
        ∷ (0x4e, ipv6.global)
        ∷ (0x4d, v3_hash)
        ∷ (0x39, service)
        ∷ (0x54, hdd_ser)
        ∷ (0x55, [])
        ∷ (0x62, 0 ∷ [])
        ∷ (0x70, 0x40 ∷ [])
        ∷ (0x6f, ver_str ++ 0 ∷ [])
        ∷ [])
      []

unfoldable pub rjv3_should_fill_dhcp_prop : RjPriv → Bool
rjv3_should_fill_dhcp_prop s =
    is_dhcp_type 3 s.options.dhcp_type || (is_dhcp_type 1 s.options.dhcp_type && leb 2 s.succ_count)

abbrev pub lease_bytes : Option DhcpLease → Bytes
lease_bytes none = replicate 16 0
lease_bytes (some lease) = lease.ip ++ (lease.netmask ++ (lease.gateway ++ lease.dns))

-- The first 21 bytes of DHCP_INFO_PROP.
unfoldable pub dhcp_prop : Net → RjPriv → Option Bytes
unfolding rjv3_get_dhcp_lease rjv3_should_fill_dhcp_prop
dhcp_prop net s = do
  lease ←
      if rjv3_should_fill_dhcp_prop s
      then rjv3_get_dhcp_lease s.options.fake_dns1 net
      else some none
  some (prop_magic ++ ((if is_dhcp_type 0 s.options.dhcp_type then 0 else 1) ∷ lease_bytes lease))

-- "8021x.exe" in 32 bytes.
abbrev pub prog_name : Bytes
prog_name = codes "8021x.exe" ++ replicate 23 0

unfoldable pub rjv3_append_priv_header : Net → RjPriv → EthEapFrame → Option EthEapFrame
unfolding dhcp_prop rj_encode crc16
rjv3_append_priv_header net s frame = do
  prop ← dhcp_prop net s
  crc ← crc16 prop 21
  encoded ← rj_encode (prop ++ crc / 256 ∷ crc % 256 ∷ []) 23
  f1 ← append_to_frame frame encoded
  f2 ← append_to_frame f1.1 prop_magic
  f3 ← append_to_frame f2.1 prog_name
  f4 ← append_to_frame f3.1 (0x01 ∷ 0x1f ∷ 0x01 ∷ 0x02 ∷ [])
  some f4.1
