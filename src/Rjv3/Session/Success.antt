-- ===== src/Rjv3/Session/Success.antt =====
-- What a success frame does, step by step.
use minieap.Prelude.{
  ◌+◌, ℕ, ◌≡◌, ◌≢◌, refl, ap, ◌∙◌, true, false, Option, none, some, if◌then◌else◌, ◌==◌, ◌&&◌,
  Bytes, bit_and, get_elem?, ltb, ≢→==, if-true, if-false,
}
use minieap.Prelude.Int.{pos, is_pos}
use minieap.Prelude.Maybe.{◌>>=◌}
use minieap.Frame.{
  EthEapFrame, frame_duplicate, eap_packet, eap_success, eap_failure, eap_request, md5_challenge,
}
use minieap.Alarm.{unschedule_alarm}
use minieap.Rjv3.Keepalive.{rjv3_keepalive_reset, Keepalive, Link}
use minieap.Rjv3.Session.{
  RjPriv, RjCallback, Net, rjv3_process_result_prop, cancel_secondary, rjv3_reset_session,
  is_dhcp_type,
}
use minieap.Rjv3.Session.Auth.{
  start_keepalive, online, first_success, by_code, by_dhcp_type, count_success,
  rjv3_process_success, rjv3_on_frame_received,
}
use minieap.Rjv3.Session.Life.{received, handle}

-- An EAP packet with this code, and a byte where the type stands.
pub record IsEap (code : ℕ) (frame : EthEapFrame) : Type 0 where
  pub type : ℕ
  pub at_eapol_type : get_elem? frame.content 15 ≡ some eap_packet
  pub at_code : get_elem? frame.content 18 ≡ some code
  pub at_type : get_elem? frame.content 22 ≡ some type

-- Neither success nor failure.
pub record IsOther (frame : EthEapFrame) : Type 0 where
  pub code : ℕ
  pub eap : IsEap code frame
  pub not_success : code ≢ eap_success
  pub not_failure : code ≢ eap_failure

-- The frame gives the heartbeat its key.
abbrev pub HasEchokey : (key : ℕ) → (mac : Bytes) → EthEapFrame → Type 0
HasEchokey key mac frame =
    (rand : ℕ) (k : Keepalive RjCallback)
    → rjv3_process_result_prop frame rand k
      ≡ some (record {
        ok = true;
        after = record k { echokey = key; echono = bit_and rand 0xffff; dest_mac = mac };
      })

-- The heartbeat runs with the key, to the address, and the next success is a first one.
pub record IsHeartbeat (key : ℕ) (mac : Bytes) (s r : RjPriv) : Type 0 where
  pub restarts : r.restarts ≡ s.restarts
  pub scripts : r.scripts ≡ s.scripts
  pub succ_count : r.succ_count ≡ 0
  pub echokey : r.keepalive.echokey ≡ key
  pub dest_mac : r.keepalive.dest_mac ≡ mac
  pub heartbeat : (id : ℕ) × (r.keepalive.alarm_id ≡ some id)

module _ (link : Link RjCallback) where
  pub received-success :
      (frame : EthEapFrame) (net : Net) (s : RjPriv)
      → IsEap eap_success frame
      → rjv3_on_frame_received link frame net s
        ≡ rjv3_process_success link frame net (record s { md5_request = none })
  unfolding rjv3_on_frame_received by_code
  received-success frame net s v = rw (v.at_eapol_type, v.at_code, v.at_type) refl

  pub received-other :
      (frame : EthEapFrame) (net : Net) (s : RjPriv)
      → IsOther frame
      → (m : Option EthEapFrame) × (handle link (received frame) net s
          ≡ some (record { exits = false; after = record s { md5_request = m } }))
  unfolding handle rjv3_on_frame_received by_code
  received-other frame net s v =
      let wanted = v.code == eap_request && v.eap.type == md5_challenge in
      (
        if wanted then some (frame_duplicate frame) else none,
        rw
            (
              v.eap.at_eapol_type,
              v.eap.at_code,
              v.eap.at_type,
              ≢→== v.code eap_success v.not_success,
              ≢→== v.code eap_failure v.not_failure,
            )
            refl,
      )

  pub by_dhcp_type-first :
      (frame : EthEapFrame) (net : Net) (t : RjPriv)
      → t.options.dhcp_type ≡ pos 1
      → t.succ_count ≡ 1
      → by_dhcp_type link frame net t ≡ first_success link frame net t
  unfolding by_dhcp_type
  by_dhcp_type-first frame net t double once =
      if-true _ _ (ap (is_dhcp_type 1) double) ∙ if-true _ _ (ap (λ n. ltb n 2) once)

  pub by_dhcp_type-second :
      (frame : EthEapFrame) (net : Net) (t : RjPriv)
      → t.options.dhcp_type ≡ pos 1
      → t.succ_count ≡ 2
      → by_dhcp_type link frame net t ≡ online link frame net (rjv3_reset_session t)
  unfolding by_dhcp_type
  by_dhcp_type-second frame net t double twice =
      if-true _ _ (ap (is_dhcp_type 1) double) ∙ if-false _ _ (ap (λ n. ltb n 2) twice)

  pub handle-success :
      (frame : EthEapFrame) (net : Net) (s r : RjPriv)
      → IsEap eap_success frame
      → by_dhcp_type link frame net (count_success link (record s { md5_request = none }))
        ≡ some (record { ok = true; after = r })
      → handle link (received frame) net s ≡ some (record { exits = false; after = r })
  unfolding handle rjv3_process_success
  handle-success frame net s r v e =
      ap (λ o. o >>= λ d. some (record { exits = false; after = d.after }))
        (received-success frame net s v ∙ e)

  pub online-key :
      (frame : EthEapFrame) (net : Net) (key : ℕ) (mac : Bytes) (t : RjPriv)
      → HasEchokey key mac frame
      → is_pos t.options.heartbeat_interval ≡ true
      → online link frame net t
        ≡ some (record {
          ok = true;
          after = start_keepalive link (record t {
            keepalive = record t.keepalive {
              echokey = key;
              echono = bit_and net.rand 0xffff;
              dest_mac = mac;
            };
          });
        })
  unfolding online
  online-key frame net key mac t has on = rw (has net.rand t.keepalive, on) refl

-- What `cancel_secondary` leaves.
pub cancel_form :
    (s : RjPriv)
    → (k : Keepalive RjCallback) × (cancel_secondary s
        ≡ record s { keepalive = k; secondary_auth_alarm_id = none })
cancel_form s = by_alarm s.secondary_auth_alarm_id refl
  where
    by_alarm :
        (o : Option ℕ)
        → s.secondary_auth_alarm_id ≡ o
        → (k : Keepalive RjCallback) × (cancel_secondary s
            ≡ record s { keepalive = k; secondary_auth_alarm_id = none })
    by_alarm none e = (
      s.keepalive,
      unfold cancel_secondary in
          rw (e, cancel_secondary) (ap (λ o. record s { secondary_auth_alarm_id = o }) e),
    )
    by_alarm (some id) e = (
      record s.keepalive { sched = unschedule_alarm id s.keepalive.sched },
      unfold cancel_secondary in rw (e, cancel_secondary) refl,
    )

pub cancel_none : (s : RjPriv) → s.secondary_auth_alarm_id ≡ none → cancel_secondary s ≡ s
unfolding cancel_secondary
cancel_none s e = rw (e, cancel_secondary) (ap (λ o. record s { secondary_auth_alarm_id = o }) e)

-- The state at a success, and after the session is reset.
pub count_success_lem :
    (link : Link RjCallback) (s : RjPriv)
    → (k : Keepalive RjCallback) × (count_success link s
        ≡ record s { keepalive = k; secondary_auth_alarm_id = none; succ_count = s.succ_count + 1 })
unfolding count_success
count_success_lem link s =
    let (k, e) = cancel_form (record s { keepalive = rjv3_keepalive_reset s.keepalive }) in
    (k, ap (λ (c : RjPriv). record c { succ_count = c.succ_count + 1 }) e)

pub reset_session_lem :
    (s : RjPriv)
    → (k : Keepalive RjCallback) × (rjv3_reset_session s ≡ record s {
      keepalive = rjv3_keepalive_reset k;
      secondary_auth_alarm_id = none;
      duplicated_packet = none;
      dhcp_count = 0;
      succ_count = 0;
      md5_request = none;
    })
unfolding rjv3_reset_session
reset_session_lem s =
    let (k, e) = cancel_form s in
    (
      k,
      ap
          (λ (c : RjPriv). record c {
            keepalive = rjv3_keepalive_reset c.keepalive;
            duplicated_packet = none;
            dhcp_count = 0;
            succ_count = 0;
            md5_request = none;
          })
          e,
    )
