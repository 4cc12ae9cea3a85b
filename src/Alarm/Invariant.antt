-- ===== src/Alarm/Invariant.antt =====
-- The invariant of the scheduler, under its operations and under the steps of a ring.
use mathlib.Core.List.{map-append}
use minieap.Prelude.{
  ℕ, ◌+◌, ◌≤◌, ◌<◌, ◌≡◌, refl, ap₂, ◌∙◌, true, false, List, [], ◌∷◌, ◌++◌, map, arith, Bool-cases,
  inl, inr, All, All-append, append-nil, append_assoc,
}
use minieap.Prelude.Int.{ℤ}
use minieap.LinkedList.Sequence.{insert_data-append, list_concat-append}
use minieap.Alarm.{
  AlarmEvent, Sched, schedule_alarm, unschedule_alarm, alarm_valid_cmpfunc,
  alarm_mark_as_delete_single, alarm_event_id_node_cmpfunc, begin_ring, end_ring,
  update_remaining_single, set_alarm,
}
use minieap.Alarm.Calls.{
  Ascending, Ascending-snoc, Ascending-map, Ascending-map_left, Ascending-remove_data,
  update_each-map, IsSched,
}

module _ {F : Type 0} where
  mark_keeps_id : (id : ℕ) (x : AlarmEvent F) → (alarm_mark_as_delete_single id x).id ≡ x.id
  mark_keeps_id id x = ground arith

  pub schedule_alarm-IsSched :
      (secs : ℤ) (func : F) (s : Sched F) → IsSched s → IsSched (schedule_alarm secs func s).0
  unfolding schedule_alarm
  schedule_alarm-IsSched secs func s v = elim (Bool-cases s.ringing) [
    | inl ringing ↦ rw ringing (record {
      ordered =
          rw
            (
              insert_data-append s.alarm_list_add_temp new,
              ← append_assoc s.alarm_list s.alarm_list_add_temp (new ∷ []),
            )
            appended;
      idle = λ e. absurd (cc);
    })
    | inr idle ↦ rw idle (record {
      ordered =
          rw (v.idle idle, append-nil, insert_data-append s.alarm_list new)
            (Ascending-snoc 0 s.alarm_list s.last_id new (omega arith)
              (rw (v.idle idle, append-nil) at v.ordered));
      idle = λ e. v.idle idle;
    })
  ]
    where
      new : AlarmEvent F
      new = record { remaining = secs; id = s.last_id + 1; marked_delete = false; func = func }

      appended : Ascending 0 ((s.alarm_list ++ s.alarm_list_add_temp) ++ new ∷ []) (s.last_id + 1)
      appended =
          Ascending-snoc 0 (s.alarm_list ++ s.alarm_list_add_temp) s.last_id new (omega arith)
            v.ordered

  pub unschedule_alarm-IsSched :
      (id : ℕ) (s : Sched F) → IsSched s → IsSched (unschedule_alarm id s)
  unfolding unschedule_alarm
  unschedule_alarm-IsSched id s v = elim (Bool-cases s.ringing) [
    | inl ringing ↦ rw ringing (record {
      ordered =
          rw
            (
              update_each-map (alarm_mark_as_delete_single id) s.alarm_list,
              update_each-map (alarm_mark_as_delete_single id) s.alarm_list_add_temp,
              ← map-append (alarm_mark_as_delete_single id) s.alarm_list s.alarm_list_add_temp,
            )
            (Ascending-map (alarm_mark_as_delete_single id) (mark_keeps_id id) 0
              (s.alarm_list ++ s.alarm_list_add_temp) s.last_id v.ordered);
      idle = λ e. absurd (cc);
    })
    | inr idle ↦ rw idle (record {
      ordered =
          Ascending-remove_data id alarm_event_id_node_cmpfunc 0 s.alarm_list s.alarm_list_add_temp
            s.last_id v.ordered;
      idle = λ e. v.idle idle;
    })
  ]

  pub begin_ring-IsSched : (s : Sched F) → IsSched s → IsSched (begin_ring s)
  unfolding begin_ring
  begin_ring-IsSched s v = record {
    ordered = rw (update_each-map (update_remaining_single s.last_set_time) s.alarm_list) (
        Ascending-map_left (update_remaining_single s.last_set_time) (λ x. refl) 0 s.alarm_list
          s.alarm_list_add_temp s.last_id v.ordered);
    idle = λ e. absurd (cc);
  }

  pub end_ring-IsSched : (s : Sched F) → IsSched s → IsSched (end_ring s)
  unfolding end_ring set_alarm
  end_ring-IsSched s v = record {
    ordered =
        rw (append-nil, list_concat-append)
          (Ascending-remove_data tt alarm_valid_cmpfunc 0 s.alarm_list s.alarm_list_add_temp
            s.last_id v.ordered);
    idle = λ e. refl;
  }

-- A row of calls of `schedule_alarm` and `unschedule_alarm` leads from `s` to `t`.
pub data Calls {F : Type 0} (s : Sched F) : Sched F → Type 0 where
  done : Calls s s
  scheduled :
      {t u : Sched F} (secs : ℤ) (func : F)
      → Calls s t
      → u ≡ (schedule_alarm secs func t).0
      → Calls s u
  unscheduled : {t u : Sched F} (id : ℕ) → Calls s t → u ≡ unschedule_alarm id t → Calls s u

module _ {F : Type 0} where
  pub Calls-IsSched : {s t : Sched F} → IsSched s → Calls s t → IsSched t
  Calls-IsSched v done = v
  Calls-IsSched v (scheduled {t = t} secs func c e) =
      rw e (schedule_alarm-IsSched secs func t (Calls-IsSched v c))
  Calls-IsSched v (unscheduled {t = t} id c e) =
      rw e (unschedule_alarm-IsSched id t (Calls-IsSched v c))

  -- What a row of calls leaves of the event: all but the mark.
  abbrev pub timed : AlarmEvent F → record { remaining : ℤ; id : ℕ; func : F }
  timed x = record { remaining = x.remaining; id = x.id; func = x.func }

  pub map-timed-mark :
      (id : ℕ) (xs : List (AlarmEvent F))
      → map timed (map (alarm_mark_as_delete_single id) xs) ≡ map timed xs
  map-timed-mark id [] = refl
  map-timed-mark id (x ∷ xs) = ap₂ ◌∷◌ (ground arith) (map-timed-mark id xs)

  -- In a ring the first list keeps its nodes, and all that is in the second is newer than `last`.
  pub record InRing (list : List (record { remaining : ℤ; id : ℕ; func : F })) (last : ℕ)
      (s : Sched F) : Type 0 where
    pub rings : s.ringing ≡ true
    pub same : map timed s.alarm_list ≡ list
    pub later : last ≤ s.last_id
    pub fresh : All (λ x. last < x.id) s.alarm_list_add_temp

module _ {F : Type 0} (list : List (record { remaining : ℤ; id : ℕ; func : F })) (last : ℕ) where
  schedule_alarm-InRing :
      (secs : ℤ) (func : F) (s : Sched F)
      → InRing list last s
      → InRing list last (schedule_alarm secs func s).0
  unfolding schedule_alarm
  schedule_alarm-InRing secs func s h = rw (h.rings) (record {
    rings = refl;
    same = h.same;
    later = omega arith;
    fresh =
        rw (insert_data-append s.alarm_list_add_temp new) (
          All-append (λ x. last < x.id) s.alarm_list_add_temp (new ∷ []) h.fresh (omega arith, tt));
  })
    where
      new : AlarmEvent F
      new = record { remaining = secs; id = s.last_id + 1; marked_delete = false; func = func }

  All-mark :
      (id : ℕ) (xs : List (AlarmEvent F))
      → All (λ x. last < x.id) xs
      → All (λ x. last < x.id) (map (alarm_mark_as_delete_single id) xs)
  All-mark id [] h = tt
  All-mark id (x ∷ xs) h = (rw (mark_keeps_id id x) h.0, All-mark id xs h.1)

  unschedule_alarm-InRing :
      (id : ℕ) (s : Sched F) → InRing list last s → InRing list last (unschedule_alarm id s)
  unfolding unschedule_alarm
  unschedule_alarm-InRing id s h = rw (h.rings) (record {
    rings = refl;
    same =
        rw (update_each-map (alarm_mark_as_delete_single id) s.alarm_list)
          (map-timed-mark id s.alarm_list ∙ h.same);
    later = h.later;
    fresh =
        rw (update_each-map (alarm_mark_as_delete_single id) s.alarm_list_add_temp)
          (All-mark id s.alarm_list_add_temp h.fresh);
  })

  pub Calls-InRing : {s t : Sched F} → InRing list last s → Calls s t → InRing list last t
  Calls-InRing h done = h
  Calls-InRing h (scheduled {t = t} secs func c e) =
      rw e (schedule_alarm-InRing secs func t (Calls-InRing h c))
  Calls-InRing h (unscheduled {t = t} id c e) =
      rw e (unschedule_alarm-InRing id t (Calls-InRing h c))
