-- ===== src/Rjv3/Session/Lease.antt =====
-- The wait for the DHCP lease comes to an end.
use minieap.Prelude.{
  ℕ, ◌+◌, ◌≡◌, refl, ap, true, false, List, [], ◌∷◌, Option, none, some, map, Bytes,
}
use minieap.Prelude.Int.{is_pos}
use minieap.Prelude.Maybe.{◌>>=◌}
use minieap.Frame.{EthEapFrame}
use minieap.Rjv3.Keepalive.{Keepalive, Link, Sent, rjv3_start_keepalive}
use minieap.Rjv3.Session.{
  RjPriv, RjCallback, Net, DhcpLease, rjv3_process_result_prop, rjv3_get_dhcp_lease,
}
use minieap.Rjv3.Session.Auth.{start_keepalive, wait_more, with_lease, rjv3_start_secondary_auth}
use minieap.Rjv3.Session.Life.{RjEvent, secondary_auth_rings, handle, live}

-- The network has no lease, with this option for the DNS address.
abbrev pub NoLease : (fake_dns1 : Option Bytes) → Net → Type 0
NoLease fake_dns1 net = rjv3_get_dhcp_lease fake_dns1 net ≡ some none

-- The properties of the frame can be read.
abbrev pub IsReadable : EthEapFrame → Type 0
IsReadable frame =
    (rand : ℕ) (k : Keepalive RjCallback)
    → (r : Sent RjCallback) × (rjv3_process_result_prop frame rand k ≡ some r)

-- The heartbeat has been started in place of the second authentication.
pub record GaveUp (s s' : RjPriv) : Type 0 where
  pub secondary : s'.secondary_auth_alarm_id ≡ none
  pub kept : s'.duplicated_packet ≡ none
  pub restarts : s'.restarts ≡ s.restarts
  pub heartbeat :
      is_pos s.options.heartbeat_interval ≡ true → (id : ℕ) × (s'.keepalive.alarm_id ≡ some id)

module _ (link : Link RjCallback) where
  pub start-lease :
      (lease : Option DhcpLease) (net : Net) (s : RjPriv)
      → rjv3_get_dhcp_lease s.options.fake_dns1 net ≡ some lease
      → rjv3_start_secondary_auth link net s
        ≡ with_lease link lease net (record s { secondary_auth_alarm_id = none })
  unfolding rjv3_start_secondary_auth
  start-lease lease net s e =
      ap (λ o. o >>= λ l. with_lease link l net (record s { secondary_auth_alarm_id = none })) e

  -- The state in which the program goes on waiting.
  abbrev waiting : RjPriv → RjPriv
  waiting s =
      wait_more link (record s { secondary_auth_alarm_id = none; dhcp_count = s.dhcp_count + 1 })

  pub start_keepalive-alarm :
      (s : RjPriv)
      → is_pos s.options.heartbeat_interval ≡ true
      → (id : ℕ) × ((start_keepalive link s).keepalive.alarm_id ≡ some id)
  unfolding start_keepalive rjv3_start_keepalive
  start_keepalive-alarm s e = rw e (_, refl)

  pub live-step :
      (event : RjEvent) (net : Net) (events : List (RjEvent × Net)) (s s' : RjPriv)
      → handle link event net s ≡ some (record { exits = false; after = s' })
      → live link ((event, net) ∷ events) s ≡ live link events s'
  unfolding live
  live-step event net events s s' e = rw e refl

  pub live-nil : (s : RjPriv) → live link [] s ≡ some (record { exits = false; after = s })
  unfolding live
  live-nil s = refl

  abbrev pub rings : List Net → List (RjEvent × Net)
  rings nets = map (λ net. (secondary_auth_rings, net)) nets
