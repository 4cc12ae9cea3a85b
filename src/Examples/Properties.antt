-- ===== src/Examples/Properties.antt =====
-- The RJv3 plugin's private properties, codes and heartbeat on small inputs.
use minieap.Prelude.{
  ℕ, ◌≡◌, refl, true, false, [], ◌∷◌, ◌++◌, map, none, some, arith, replicate, Bytes, get_or, not8,
  List, ◌+◌, ◌==◌,
}
use minieap.LinkedList.{lookup_data}
use minieap.Prelude.Int.{ℤ, ◌+ℤ◌, pos, pos_part, neg_part}
use minieap.Prelude.Maybe.{◌>>=◌}
use minieap.Misc.{bit_reverse}
use minieap.Alarm.{Sched}
use minieap.Frame.{EthEapFrame}
use minieap.Frame.Bounds.{IsFrame, used_bytes}
use minieap.Rjv3.Prop.FrameEnd.{append_rjv3_prop_to_frame-used_bytes, append_rjv3_prop_to_frame-cut}
use minieap.Rjv3.Prop.{
  RjProp, append_rjv3_prop_to_frame, modify_rjv3_prop, modify_rjv3_prop_list, find_rjv3_prop,
  append_rjv3_prop_list_to_buffer,
}
use minieap.Rjv3.Prop.Parse.{parse_rjv3_buf_to_prop_list}
use minieap.Rjv3.Prop.Layout.{Entry, prop_for, entry_bytes, wire}
use minieap.Rjv3.Prop.RoundTrip.{write-parse}
use minieap.Rjv3.Prop.Modify.{
  lens, refilled, modify_rjv3_prop_list-delta, find_rjv3_prop-modify_rjv3_prop,
}
use minieap.Rjv3.Prop.Edges.{parse-none, append_list-short}
use minieap.Rjv3.Encode.{rj_encode, rj_decode, rj_decode-rj_encode}
use minieap.Rjv3.Crc.{crc16tab, crc16}
use minieap.Rjv3.Crc.Division.{shift_bits, crc16tab-shift_bits}
use minieap.Rjv3.Keepalive.{Keepalive, Link}

-- The DHCP flag and an empty field.
abbrev dhcp : Entry
dhcp = record { type = 0x18; content = 0 ∷ 0 ∷ 0 ∷ 1 ∷ [] }

abbrev sec_domain : Entry
sec_domain = record { type = 0x55; content = [] }

write-parse_example :
    (append_rjv3_prop_list_to_buffer (map prop_for (dhcp ∷ sec_domain ∷ [])) (replicate 24 7) 24
      ≡ some
          (record { result = pos 20; buf = wire (dhcp ∷ sec_domain ∷ []) ++ 7 ∷ 7 ∷ 7 ∷ 7 ∷ [] }))
    × (parse_rjv3_buf_to_prop_list [] (wire (dhcp ∷ sec_domain ∷ [])) 20 false
        ≡ some (record { ok = true; list = map prop_for (dhcp ∷ sec_domain ∷ []) }))
write-parse_example =
    write-parse (dhcp ∷ sec_domain ∷ []) (replicate 24 7) 24
      ((omega arith, omega arith), ((omega arith, omega arith), tt)) (omega arith) (omega arith)
      (omega arith)

-- The DHCP flag is there and takes two more bytes; the second change finds no property.
abbrev changes : List RjProp
changes =
    prop_for (record { type = 0x18; content = 9 ∷ 9 ∷ 9 ∷ 9 ∷ 9 ∷ 9 ∷ [] })
    ∷ prop_for (record { type = 0x77; content = 1 ∷ [] })
    ∷ []

modify_rjv3_prop_list-delta_example :
    (r : record { list : List RjProp; result : ℤ }) × (modify_rjv3_prop_list
        (map prop_for (dhcp ∷ sec_domain ∷ []))
        changes
      ≡ some r)
    × (lens r.list + neg_part r.result
        ≡ lens (map prop_for (dhcp ∷ sec_domain ∷ [])) + pos_part r.result)
unfolding ◌+ℤ◌
modify_rjv3_prop_list-delta_example =
    modify_rjv3_prop_list-delta (map prop_for (dhcp ∷ sec_domain ∷ [])) changes
      (omega arith, (omega arith, tt))

find_rjv3_prop-modify_rjv3_prop_example :
    (r : record { list : List RjProp; result : ℤ }) × (modify_rjv3_prop
        (map prop_for (dhcp ∷ sec_domain ∷ []))
        0x55
        (7 ∷ 8 ∷ 9 ∷ [])
        (pos 2)
      ≡ some r)
    × (find_rjv3_prop r.list 0x55 ≡ some (refilled (7 ∷ 8 ∷ []) (prop_for sec_domain)))
    × ((other : ℕ)
        → (0x55 == other) ≡ false
        → find_rjv3_prop r.list other
          ≡ find_rjv3_prop (map prop_for (dhcp ∷ sec_domain ∷ [])) other)
unfolding find_rjv3_prop lookup_data
find_rjv3_prop-modify_rjv3_prop_example =
    find_rjv3_prop-modify_rjv3_prop (map prop_for (dhcp ∷ sec_domain ∷ [])) 0x55 (7 ∷ 8 ∷ 9 ∷ []) 2
      (omega arith)

-- A frame of 4 bytes with room for 12 or for 11 more.
abbrev roomy : EthEapFrame
roomy = record { actual_len = 4; buffer_len = 16; content = replicate 16 7 }

abbrev narrow : EthEapFrame
narrow = record { actual_len = 4; buffer_len = 15; content = replicate 15 7 }

append_rjv3_prop_to_frame-used_bytes_example :
    (g : EthEapFrame) × (append_rjv3_prop_to_frame (prop_for dhcp) roomy ≡ some g)
    × IsFrame g
    × (used_bytes g ≡ replicate 4 7 ++ entry_bytes dhcp)
append_rjv3_prop_to_frame-used_bytes_example =
    append_rjv3_prop_to_frame-used_bytes roomy dhcp (omega arith, omega arith)
      (record { allocated = omega arith; used = omega arith; small = omega arith }) (omega arith)

append_rjv3_prop_to_frame-cut_example :
    (g : EthEapFrame) × (append_rjv3_prop_to_frame (prop_for dhcp) narrow ≡ some g)
    × IsFrame g
    × (used_bytes g ≡ replicate 4 7 ++ 0x1a ∷ 12 ∷ 0 ∷ 0 ∷ 0x13 ∷ 0x11 ∷ 0x18 ∷ 6 ∷ [])
append_rjv3_prop_to_frame-cut_example =
    append_rjv3_prop_to_frame-cut narrow dhcp (omega arith, omega arith)
      (record { allocated = omega arith; used = omega arith; small = omega arith }) (omega arith)
      (omega arith)

parse-none_example :
    parse_rjv3_buf_to_prop_list [] (0x1a ∷ 12 ∷ 0 ∷ 0 ∷ 0x13 ∷ 0x11 ∷ 0x18 ∷ 6 ∷ 0 ∷ []) 9 false
    ≡ none
parse-none_example = parse-none 12 0x18 4 (0 ∷ []) (omega arith)

append_list-short_example :
    append_rjv3_prop_list_to_buffer (prop_for dhcp ∷ prop_for sec_domain ∷ []) (replicate 16 0) 16
    ≡ some (record { result = pos 11; buf = entry_bytes dhcp ++ replicate 4 0 })
append_list-short_example =
    append_list-short dhcp sec_domain (replicate 16 0) 16 (omega arith, omega arith)
      (omega arith, omega arith) (omega arith) (omega arith) (omega arith) (omega arith)

rj_decode-rj_encode_example :
    (rj_encode (1 ∷ 2 ∷ 3 ∷ []) 2 ≡ some (map (λ b. not8 (bit_reverse b)) (1 ∷ 2 ∷ []) ++ 3 ∷ []))
    × ((rj_encode (1 ∷ 2 ∷ 3 ∷ []) 2 >>= λ coded. rj_decode coded 2) ≡ some (1 ∷ 2 ∷ 3 ∷ []))
rj_decode-rj_encode_example =
    rj_decode-rj_encode (1 ∷ 2 ∷ 3 ∷ []) 2 (omega arith, (omega arith, (omega arith, tt)))
      (omega arith)

abbrev digits_1_to_9 : Bytes
digits_1_to_9 = b'1' ∷ b'2' ∷ b'3' ∷ b'4' ∷ b'5' ∷ b'6' ∷ b'7' ∷ b'8' ∷ b'9' ∷ []

-- The check value that the source's comment gives.
check_value : crc16 digits_1_to_9 9 ≡ some 0x31c3
unfolding crc16
check_value = refl

crc16tab-shift_bits_example : get_or crc16tab 0x80 0 ≡ shift_bits 8 0x8000
crc16tab-shift_bits_example = crc16tab-shift_bits 0x80 (omega arith)

abbrev no_events : Sched ℕ
no_events = record {
  alarm_list = [];
  alarm_list_add_temp = [];
  last_id = 4;
  ringing = false;
  last_set_time = pos 0;
  timer = 0;
}

abbrev beating : Keepalive ℕ
beating = record {
  alarm_id = some 4;
  echokey = 0x1234;
  echono = 0x0102;
  dest_mac = replicate 6 9;
  packet_builder = none;
  sched = no_events;
  sent = [];
}

abbrev link : Link ℕ
link = record {
  heartbeat_interval = pos 60;
  timed = 1;
  src_mac = some (replicate 6 1);
  send_frame = λ sent bytes. true;
  compute_hash = λ xs. xs;
}
