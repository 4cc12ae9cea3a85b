-- ===== src/Alarm/Lookup.antt =====
-- Which events a call of `schedule_alarm` or `unschedule_alarm` outside a ring adds and removes.
use minieap.Prelude.{
  ℕ, ◌+◌, ◌<◌, ◌≡◌, refl, false, List, [], ◌∷◌, ◌++◌, Option, none, some, arith, ◌==◌,
  if◌then◌else◌, append-nil,
}
use minieap.Prelude.Int.{ℤ}
use minieap.LinkedList.{remove_data, lookup_data}
use minieap.LinkedList.Sequence.{insert_data-append}
use minieap.Alarm.{AlarmEvent, Sched, schedule_alarm, unschedule_alarm, alarm_event_id_node_cmpfunc}
use minieap.Alarm.Calls.{Ascending, Ascending-le, IsSched}

module _ {F : Type 0} where
  -- The event with a number in the first list.
  pub find : ℕ → Sched F → Option (AlarmEvent F)
  find id s = lookup_data s.alarm_list id alarm_event_id_node_cmpfunc

  lookup_data-remove_id :
      (id j : ℕ) (xs : List (AlarmEvent F))
      → lookup_data (remove_data xs id alarm_event_id_node_cmpfunc) j alarm_event_id_node_cmpfunc
        ≡ (if id == j then none else lookup_data xs j alarm_event_id_node_cmpfunc)
  unfolding lookup_data remove_data
  lookup_data-remove_id id j [] = ground arith
  lookup_data-remove_id id j (x ∷ xs) = ground (arith, lookup_data-remove_id id j xs)

  -- Outside a ring `unschedule_alarm` takes out the event with that number and no other.
  pub find-unschedule_alarm :
      (id j : ℕ) (s : Sched F)
      → s.ringing ≡ false
      → find j (unschedule_alarm id s) ≡ (if id == j then none else find j s)
  unfolding find unschedule_alarm
  find-unschedule_alarm id j s idle = rw idle (lookup_data-remove_id id j s.alarm_list)

  lookup_data-snoc :
      (j lo hi : ℕ) (xs : List (AlarmEvent F)) (x : AlarmEvent F)
      → hi < x.id
      → Ascending lo xs hi
      → lookup_data (xs ++ x ∷ []) j alarm_event_id_node_cmpfunc
        ≡ (if j == x.id then some x else lookup_data xs j alarm_event_id_node_cmpfunc)
  unfolding lookup_data
  lookup_data-snoc j lo hi [] x p h = refl
  lookup_data-snoc j lo hi (y ∷ ys) x p h =
      ground (arith, lookup_data-snoc j y.id hi ys x p h.1, Ascending-le y.id ys hi h.1)

  -- Outside a ring `schedule_alarm` returns a number that no event has, adds one event under it
  -- with the given time, and leaves the others.
  pub find-schedule_alarm :
      (secs : ℤ) (func : F) (j : ℕ) (s : Sched F)
      → IsSched s
      → s.ringing ≡ false
      → let (t, id) = schedule_alarm secs func s in
        find j t ≡ (
          if j == id
          then some (record { remaining = secs; id = id; marked_delete = false; func = func })
          else find j s)
  unfolding find schedule_alarm
  find-schedule_alarm secs func j s v idle =
      rw (idle, insert_data-append)
        (lookup_data-snoc j 0 s.last_id s.alarm_list
          (record { remaining = secs; id = s.last_id + 1; marked_delete = false; func = func })
          (omega arith) (rw (v.idle idle, append-nil) at v.ordered))
