-- ===== src/Rjv3/Keepalive.antt =====
-- packet_plugin_rjv3_keepalive.c: the heartbeat frames. `C` is the type of the callbacks, and
-- `timed` is `rjv3_send_keepalive_timed` with the plugin as its argument.
pub mod Heartbeat
use minieap.Prelude.{
  ℕ, ◌+◌, ◌%◌, ◌^◌, ◌/◌, ◌*◌, Bool, true, false, List, [], ◌∷◌, ◌++◌, Option, none, some,
  if◌then◌else◌, length, take, replicate, bit_and, Bytes, u32, not8, ◌>>>◌,
}
use minieap.Prelude.Int.{ℤ, pos, is_pos}
use minieap.Prelude.Maybe.{◌>>=◌}
use minieap.Misc.{bit_reverse}
use minieap.Frame.{write_bytes, eapol_rj_proprietary_keepalive}
use minieap.Alarm.{Sched, schedule_alarm, unschedule_alarm}
use minieap.Builder.{
  PacketBuilder, builder_set_eth_field, builder_set_eap_fields, builder_build_packet,
  packet_builder_get, field_dst_mac, field_src_mac, field_eth_proto,
}

-- The globals of the file, with the builder and the scheduler that it reaches and the frames that
-- the network has taken. `none` is the -1 of the alarm and the NULL of the builder.
pub record Keepalive (C : Type 0) : Type 0 where
  pub alarm_id : Option ℕ
  pub echokey : ℕ
  pub echono : ℕ
  pub dest_mac : Bytes
  pub packet_builder : Option PacketBuilder
  pub sched : Sched C
  pub sent : List Bytes

-- What the file uses and does not change. `src_mac` is what the interface and `obtain_iface_mac`
-- give, `none` for a failure.
pub record Link (C : Type 0) : Type 0 where
  pub heartbeat_interval : ℤ
  pub timed : C
  pub src_mac : Option Bytes
  pub send_frame : List Bytes → Bytes → Bool
  pub compute_hash : Bytes → Bytes

-- A call that goes on, or ends the program.
pub data Beat (C : Type 0) : Type 0 where
  goes_on : Keepalive C → Beat C
  exits : Keepalive C → Beat C

-- `~bit_reverse((num >> 24) & 0xff)` and the three bytes below it.
abbrev pub reversed_bytes : (num : ℕ) → Bytes
reversed_bytes num =
    not8 (bit_reverse (bit_and (num >>> 24) 0xff))
    ∷ not8 (bit_reverse (bit_and (num >>> 16) 0xff))
    ∷ not8 (bit_reverse (bit_and (num >>> 8) 0xff))
    ∷ not8 (bit_reverse (bit_and num 0xff))
    ∷ []

-- `_template` after the writes at 6 and 16.
abbrev pub template : (num1 num2 : ℕ) → Bytes
template num1 num2 =
    0xFF
    ∷ 0xFF
    ∷ 0x37
    ∷ 0x77
    ∷ 0x7F
    ∷ 0x9F
    ∷ (reversed_bytes num1
        ++ (0xFF
            ∷ 0xFF
            ∷ 0x37
            ∷ 0x77
            ∷ 0x7F
            ∷ 0x9F
            ∷ (reversed_bytes num2 ++ (0xFF ∷ 0xFF ∷ 0x37 ∷ 0x77 ∷ 0x7F ∷ 0x3F ∷ 0xFF ∷ []))))

module _ {C : Type 0} where
  unfoldable pub rjv3_set_keepalive_echokey : ℕ → Keepalive C → Keepalive C
  rjv3_set_keepalive_echokey key k = record k { echokey = key }

  unfoldable pub rjv3_set_keepalive_echono : ℕ → Keepalive C → Keepalive C
  rjv3_set_keepalive_echono number k = record k { echono = number }

  unfoldable pub rjv3_set_keepalive_dest_mac : Bytes → Keepalive C → Keepalive C
  rjv3_set_keepalive_dest_mac mac k = record k { dest_mac = take 6 mac }

  -- The alarm is taken back and its identifier forgotten.
  unfoldable pub cancel : Keepalive C → Keepalive C
  cancel k = record k {
    sched = elim k.alarm_id [ none ↦ k.sched | some id ↦ unschedule_alarm id k.sched ];
    alarm_id = none;
  }

  unfoldable pub rjv3_keepalive_reset : Keepalive C → Keepalive C
  unfolding cancel
  rjv3_keepalive_reset k = record (cancel k) { echokey = 0; echono = 0; dest_mac = replicate 6 0 }

abbrev pub Sent : Type 0 → Type 0
Sent C = record { ok : Bool; after : Keepalive C }

module _ {C : Type 0} (link : Link C) where
  -- The frame that is built in 100 zero bytes and given to the network; `none` is a fault.
  unfoldable pub echo_frame :
      Keepalive C → (b : PacketBuilder) → (content : Bytes) → Option (Sent C)
  echo_frame k b content = do
    built ← builder_build_packet link.compute_hash b (replicate 100 0)
    buf ← write_bytes built.buffer 16 (0 ∷ 30 ∷ [])
    buf ← write_bytes buf (14 + 4) content
    len ← built.len
    let bytes = take (len + length content) buf
    let k = record k { packet_builder = some b }
    if link.send_frame k.sent bytes
        then some (record { ok = true; after = record k { sent = k.sent ++ bytes ∷ [] } })
        else some (record { ok = false; after = k })

  unfoldable pub send_echo_frame : (content : Bytes) → Keepalive C → Option (Sent C)
  unfolding echo_frame
  send_echo_frame content k =
      let got = packet_builder_get k.packet_builder in
      elim link.src_mac [
        | none ↦ some (record { ok = false; after = record k { packet_builder = some got } })
        | some src ↦ (do
          b ← builder_set_eap_fields eapol_rj_proprietary_keepalive 0 0 0 none (
              builder_set_eth_field field_eth_proto (0x88 ∷ 0x8e ∷ []) (
                builder_set_eth_field field_src_mac src
                  (builder_set_eth_field field_dst_mac k.dest_mac got)))
          echo_frame k b content)
      ]

  unfoldable pub rjv3_send_new_keepalive_frame : Keepalive C → Option (Sent C)
  unfolding send_echo_frame
  rjv3_send_new_keepalive_frame k =
      send_echo_frame (template (u32 (k.echokey + k.echono)) k.echono)
        (record k { echono = u32 (k.echono + 1) })

  abbrev pub next_alarm : (secs : ℤ) → Keepalive C → Keepalive C
  next_alarm secs k =
      let (sched, id) = schedule_alarm secs link.timed k.sched in
      record k { sched = sched; alarm_id = some id }

  unfoldable pub rjv3_start_keepalive : Keepalive C → Keepalive C
  unfolding cancel
  rjv3_start_keepalive k =
      if is_pos link.heartbeat_interval then next_alarm (pos 1) (cancel k) else cancel k

  unfoldable pub rjv3_send_keepalive_timed : Keepalive C → Option (Beat C)
  unfolding rjv3_send_new_keepalive_frame
  rjv3_send_keepalive_timed k =
      let k = record k { alarm_id = none } in
      if is_pos link.heartbeat_interval
      then (do
        r ← rjv3_send_new_keepalive_frame k
        if r.ok
            then some (goes_on (next_alarm link.heartbeat_interval r.after))
            else some (exits r.after))
      else some (goes_on k)
