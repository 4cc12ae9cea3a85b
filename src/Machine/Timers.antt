-- ===== src/Machine/Timers.antt =====
-- The alarms that eap_state_machine.c and internet_check.c start and stop, and the reset.
use minieap.Prelude.{[], ◌∷◌, none, some, if◌then◌else◌, Bytes}
use minieap.Prelude.Int.{pos}
use minieap.Frame.{free_frame}
use minieap.Alarm.{schedule_alarm, unschedule_alarm}
use minieap.Machine.World.{unknown, state_watchdog, internet_check_timed, ProgConfig, World}

abbrev pub bcast_addr : Bytes
bcast_addr = 0x01 ∷ 0x80 ∷ 0xc2 ∷ 0x00 ∷ 0x00 ∷ 0x03 ∷ []

module _ {P : Type 0} where
  unfoldable pub disable_state_watchdog : World P → World P
  disable_state_watchdog w = record w {
    sched = unschedule_alarm w.state_alarm_id w.sched;
    state_alarm_id = 0;
  }

  unfoldable pub reset_state_watchdog : ProgConfig → World P → World P
  reset_state_watchdog cfg w =
      let (sched, id) =
        schedule_alarm (pos cfg.stage_timeout) state_watchdog
          (unschedule_alarm w.state_alarm_id w.sched) in
      record w { sched = sched; state_alarm_id = id }

  -- `none` is the -1 of `g_alarm_id`.
  unfoldable pub internet_check_stop : World P → World P
  internet_check_stop w = record w {
    sched = elim w.check_alarm_id [ none ↦ w.sched | some id ↦ unschedule_alarm id w.sched ];
    check_alarm_id = none;
    check_fail_count = 0;
  }

  unfoldable pub internet_check_start : ProgConfig → World P → World P
  internet_check_start cfg w =
      let stopped = internet_check_stop w in
      if cfg.internet_check
      then (let (sched, id) =
            schedule_alarm (pos cfg.internet_check_interval) internet_check_timed stopped.sched in
          record stopped { sched = sched; check_alarm_id = some id })
      else stopped

  unfoldable pub internet_check_reschedule : ProgConfig → World P → World P
  internet_check_reschedule cfg w =
      let (sched, id) =
        schedule_alarm (pos cfg.internet_check_interval) internet_check_timed w.sched in
      record w { sched = sched; check_alarm_id = some id }

  unfoldable pub eap_state_machine_reset : World P → World P
  unfolding free_frame
  eap_state_machine_reset w =
      let stopped = internet_check_stop (disable_state_watchdog w) in
      record stopped {
        last_recv_frame = free_frame stopped.last_recv_frame;
        state_last_count = 0;
        state = unknown;
        auth_round = 1;
        fail_count = 0;
        server_mac = bcast_addr;
      }
