-- ===== src/Rjv3/Session/Life.antt =====
-- The life of the plugin: a sequence of received frames and of rings of its alarms.
use minieap.Prelude.{ℕ, Bool, true, false, List, [], ◌∷◌, Option, none, some, if◌then◌else◌}
use minieap.Prelude.Maybe.{◌>>=◌}
use minieap.Frame.{EthEapFrame}
use minieap.Rjv3.Keepalive.{Link, Beat, rjv3_send_keepalive_timed}
use minieap.Rjv3.Session.{Net, RjCallback, RjPriv}
use minieap.Rjv3.Session.Auth.{link_of, rjv3_on_frame_received, rjv3_start_secondary_auth}

-- A moment of the plugin's life: a frame comes in, or one of its alarms rings, which is the one
-- that it holds. A heartbeat that cannot be sent ends the program.
pub data RjEvent : Type 0 where
  received : EthEapFrame → RjEvent
  secondary_auth_rings keepalive_rings : RjEvent

abbrev pub Lives : Type 0
Lives = record { exits : Bool; after : RjPriv }

abbrev pub beat_result : RjPriv → Beat RjCallback → Lives
beat_result s (Beat.goes_on k) = record { exits = false; after = record s { keepalive = k } }
beat_result s (Beat.exits k) = record { exits = true; after = record s { keepalive = k } }

module _ (link : Link RjCallback) where
  unfoldable pub on_secondary : (alarm : Option ℕ) → Net → RjPriv → Option Lives
  unfolding rjv3_start_secondary_auth
  on_secondary none net s = some (record { exits = false; after = s })
  on_secondary (some id) net s = do
    s ← rjv3_start_secondary_auth link net s
    some (record { exits = false; after = s })

  unfoldable pub on_keepalive : (alarm : Option ℕ) → RjPriv → Option Lives
  unfolding rjv3_send_keepalive_timed
  on_keepalive none s = some (record { exits = false; after = s })
  on_keepalive (some id) s = do
    b ← rjv3_send_keepalive_timed (link_of link s) s.keepalive
    some (beat_result s b)

  unfoldable pub handle : RjEvent → Net → RjPriv → Option Lives
  unfolding rjv3_on_frame_received on_secondary on_keepalive
  handle (received frame) net s = do
    r ← rjv3_on_frame_received link frame net s
    some (record { exits = false; after = r.after })
  handle secondary_auth_rings net s = on_secondary s.secondary_auth_alarm_id net s
  handle keepalive_rings net s = on_keepalive s.keepalive.alarm_id s

  -- The network may answer differently at each moment.
  unfoldable pub live : List (RjEvent × Net) → RjPriv → Option Lives
  unfolding handle
  live [] s = some (record { exits = false; after = s })
  live ((event, net) ∷ events) s = do
    r ← handle event net s
    let rest = live events r.after
    if r.exits then some r else rest
