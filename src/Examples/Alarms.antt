-- ===== src/Examples/Alarms.antt =====
-- The scheduler of util/sched_alarm.c with callbacks that are numbers. A call is noted, and
-- schedules the next number in 5 seconds.
use minieap.Prelude.{ℕ, ◌+◌, ◌≡◌, refl, true, false, List, [], ◌∷◌, ◌++◌, arith}
use minieap.Prelude.Int.{pos, ◌-ℤ◌}
use minieap.Alarm.{
  AlarmEvent, Sched, State, schedule_alarm, unschedule_alarm, begin_ring, end_ring,
  alarm_sig_handler, int_max,
}
use minieap.Alarm.Calls.{IsSched}
use minieap.Alarm.Invariant.{scheduled, done}
use minieap.Alarm.Ring.{due, call_each, Respects, cleaned, alarm_sig_handler-due}
use minieap.Alarm.Timer.{IsLeast, end_ring-timer, schedule_alarm-late, schedule-unschedule-due}

abbrev event_of : (id secs : ℕ) → AlarmEvent ℕ
event_of id secs = record { remaining = pos secs; id = id; marked_delete = false; func = id }

abbrev two_events : Sched ℕ
two_events = record {
  alarm_list = event_of 1 3 ∷ event_of 2 7 ∷ [];
  alarm_list_add_temp = [];
  last_id = 2;
  ringing = false;
  last_set_time = pos 3;
  timer = 3;
}

two_events-IsSched : IsSched two_events
two_events-IsSched = record {
  ordered = (omega arith, (omega arith, omega arith));
  idle = λ e. refl;
}

abbrev note_and_schedule : ℕ → State ℕ (List ℕ) → State ℕ (List ℕ)
note_and_schedule f s = record {
  sched = (schedule_alarm (pos 5) (f + 1) s.sched).0;
  world = f ∷ s.world;
}

note_and_schedule-Respects : Respects note_and_schedule
note_and_schedule-Respects f s = scheduled (pos 5) (f + 1) done refl

abbrev before : State ℕ (List ℕ)
before = record { sched = two_events; world = [] }

-- One event is due after 3 seconds: it is called, the other has 4 seconds left, and the new one 5.
ring_once : alarm_sig_handler note_and_schedule before ≡ record {
  sched = record {
    alarm_list =
        event_of 2 4 ∷ record { remaining = pos 5; id = 3; marked_delete = false; func = 2 } ∷ [];
    alarm_list_add_temp = [];
    last_id = 3;
    ringing = false;
    last_set_time = pos 4;
    timer = 4;
  };
  world = 1 ∷ [];
}
unfolding alarm_sig_handler ◌-ℤ◌ schedule_alarm
ring_once = refl

alarm_sig_handler-due_example :
    alarm_sig_handler note_and_schedule before
    ≡ cleaned (
        call_each note_and_schedule
          (due 3 two_events.alarm_list)
          (record { sched = begin_ring two_events; world = [] }))
alarm_sig_handler-due_example =
    alarm_sig_handler-due note_and_schedule note_and_schedule-Respects before two_events-IsSched
      refl 3 refl

-- Two events with time left, at the end of a ring.
abbrev in_ring : Sched ℕ
in_ring = record two_events { ringing = true; timer = 0 }

in_ring-IsSched : IsSched in_ring
in_ring-IsSched = record { ordered = (omega arith, (omega arith, omega arith)); idle = λ e. refl }

end_ring-timer_example : IsLeast (end_ring in_ring).alarm_list int_max (end_ring in_ring).timer
unfolding end_ring
end_ring-timer_example = end_ring-timer in_ring (refl, (refl, tt))

-- The timer has 2 of its seconds left.
abbrev late : State ℕ (List ℕ)
late = record { sched = record two_events { timer = 2 }; world = [] }

schedule_alarm-late_example :
    let t = record late { sched = (schedule_alarm (pos 9) 8 late.sched).0 } in
    (t.sched.timer ≡ 2)
    × (alarm_sig_handler note_and_schedule t ≡ cleaned (record t { sched = begin_ring t.sched }))
schedule_alarm-late_example =
    schedule_alarm-late note_and_schedule note_and_schedule-Respects late 8 2 9
      (record { ordered = (omega arith, (omega arith, omega arith)); idle = λ e. refl }) refl refl
      (omega arith) (omega arith) (omega arith, (omega arith, tt))

schedule-unschedule-due_example :
    let (t, id) = schedule_alarm (pos 4) 8 in_ring in
    due 6 (end_ring (unschedule_alarm id t)).alarm_list
    ≡ due 6 (end_ring in_ring).alarm_list ++ 8 ∷ []
schedule-unschedule-due_example =
    schedule-unschedule-due in_ring 8 4 6 in_ring-IsSched refl refl (omega arith)
