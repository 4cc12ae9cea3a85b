-- ===== src/Alarm/Timer.antt =====
-- The one timer behind the list of events: for which second it is set, and when an event is called.
use mathlib.Core.Path.{subst}
use minieap.Prelude.{
  ℕ, ◌+◌, ◌≤◌, ◌<◌, ◌≡◌, refl, sym, ap, ap₂, ◌∙◌, true, false, not, ◌&&◌, ◌⊎◌, List, [], ◌∷◌, ◌++◌,
  map, arith, ltb, Bool-cases, inl, inr, if◌then◌else◌, All, All-append, append-nil,
}
use minieap.Prelude.Int.{ℤ, pos, negsuc, pos_part, is_pos, ltb_ℤ}
use minieap.LinkedList.{remove_data, list_concat}
use minieap.LinkedList.Sequence.{list_concat-append, insert_data-append}
use minieap.Alarm.{
  AlarmEvent, Sched, State, int_max, is_zero, to_unsigned, min_from, find_min_remaining, end_ring,
  set_alarm, schedule_alarm, unschedule_alarm, begin_ring, alarm_sig_handler,
  alarm_mark_as_delete_single, alarm_valid_cmpfunc,
}
use minieap.Alarm.Calls.{Ascending, Ascending-le, IsSched, update_each-map}
use minieap.Alarm.Ring.{due, Respects, call_each, cleaned, alarm_sig_handler-due}
use minieap.Alarm.Invariant.{schedule_alarm-IsSched}

-- Some element has the property.
abbrev pub Any : {F : Type 0} → (AlarmEvent F → Type 0) → List (AlarmEvent F) → Type 0
Any P [] = ⊥
Any P (x ∷ xs) = P x ⊎ Any P xs

abbrev pub HasTime : {F : Type 0} → AlarmEvent F → Type 0
HasTime x = is_pos x.remaining ≡ true

-- `k` is the least of `bound` and the times of the events.
pub record IsLeast {F : Type 0} (xs : List (AlarmEvent F)) (bound k : ℕ) : Type 0 where
  pub positive : 0 < k
  pub bounded : k ≤ bound
  pub lower : All (λ x. k ≤ pos_part x.remaining) xs
  pub attained : (k ≡ bound) ⊎ Any (λ x. x.remaining ≡ pos k) xs

abbrev least : ℤ → ℕ → ℕ
least r m = if ltb (pos_part r) m then pos_part r else m

least_step :
    (r : ℤ) (m : ℕ)
    → is_pos r ≡ true
    → (if not (is_zero r) && ltb_ℤ r (pos m) then r else pos m) ≡ pos (least r m)
least_step (pos n) m h = ground arith
least_step (negsuc n) m h = absurd (cc)

module _ {F : Type 0} where
  IsLeast-cons :
      (x : AlarmEvent F) (xs : List (AlarmEvent F)) (m k : ℕ)
      → is_pos x.remaining ≡ true
      → IsLeast xs (least x.remaining m) k
      → IsLeast (x ∷ xs) m k
  IsLeast-cons x xs m k h l = record {
    positive = l.positive;
    bounded = ground (arith, l.bounded);
    lower = (ground (arith, l.bounded), l.lower);
    attained = elim l.attained [ inl e ↦ here e | inr a ↦ inr (inr a) ];
  }
    where
      here : k ≡ least x.remaining m → (k ≡ m) ⊎ Any (λ y. y.remaining ≡ pos k) (x ∷ xs)
      here e = elim (Bool-cases (ltb (pos_part x.remaining) m)) [
        | inl less ↦ inr (inl (ground arith))
        | inr more ↦ inl (ground arith)
      ]

  min_from-IsLeast :
      (xs : List (AlarmEvent F)) (m : ℕ)
      → 0 < m
      → All HasTime xs
      → (k : ℕ) × (min_from xs (pos m) ≡ pos k) × IsLeast xs m k
  unfolding min_from
  min_from-IsLeast [] m p h =
      (m, refl, record { positive = p; bounded = omega arith; lower = tt; attained = inl refl })
  min_from-IsLeast (x ∷ xs) m p h =
      let (k, e, l) = min_from-IsLeast xs (least x.remaining m) (ground (arith, h.0)) h.1 in
      (k, ap (min_from xs) (least_step x.remaining m h.0) ∙ e, IsLeast-cons x xs m k h.0 l)

  -- Behind a ring whose events all have time left, the timer is set for the first of them.
  pub end_ring-timer :
      (s : Sched F)
      → All HasTime (end_ring s).alarm_list
      → IsLeast (end_ring s).alarm_list int_max (end_ring s).timer
  unfolding end_ring find_min_remaining set_alarm
  end_ring-timer s h =
      let list =
        list_concat (remove_data s.alarm_list tt alarm_valid_cmpfunc) s.alarm_list_add_temp in
      let (k, e, l) = min_from-IsLeast list int_max (omega arith) h in
      subst (λ (t : ℤ). IsLeast list int_max (to_unsigned t)) (sym e) l

due-none :
    {F : Type 0} (k : ℕ) (xs : List (AlarmEvent F))
    → All (λ x. k < pos_part x.remaining) xs
    → due k xs ≡ []
unfolding due
due-none k [] h = refl
due-none k (x ∷ xs) h = ground (arith, h.0, due-none k xs h.1)

module _ {F W : Type 0} (call : F → State F W → State F W) (respects : Respects call) where
  -- Where every event was given more than the `k` seconds that the timer has left, one more event
  -- makes the ring after `k` seconds call nothing: the seconds before the call are not counted.
  pub schedule_alarm-late :
      (s : State F W) (f : F) (k m : ℕ)
      → IsSched s.sched
      → s.sched.ringing ≡ false
      → s.sched.timer ≡ k
      → 0 < k
      → k < m
      → All (λ x. k < pos_part x.remaining) s.sched.alarm_list
      → let t = record s { sched = (schedule_alarm (pos m) f s.sched).0 } in
        (t.sched.timer ≡ k)
        × (alarm_sig_handler call t ≡ cleaned (record t { sched = begin_ring t.sched }))
  schedule_alarm-late s f k m v idle sk k0 km all =
      let t : State F W = record s { sched = (schedule_alarm (pos m) f s.sched).0 } in
      (
        timer_kept,
        alarm_sig_handler-due call respects t (schedule_alarm-IsSched (pos m) f s.sched v)
              still_idle k time_kept
            ∙ ap (λ fs. cleaned (call_each call fs (record t { sched = begin_ring t.sched })))
                (due-none k t.sched.alarm_list later)
            ∙ unfold call_each in refl,
      )
    where
      timer_kept : (schedule_alarm (pos m) f s.sched).0.timer ≡ k
      timer_kept = unfold schedule_alarm in rw idle (ground arith)

      time_kept : (schedule_alarm (pos m) f s.sched).0.last_set_time ≡ pos k
      time_kept = unfold schedule_alarm in rw idle (ground arith)

      still_idle : (schedule_alarm (pos m) f s.sched).0.ringing ≡ false
      still_idle = unfold schedule_alarm in ground arith

      later : All (λ x. k < pos_part x.remaining) (schedule_alarm (pos m) f s.sched).0.alarm_list
      later =
          unfold schedule_alarm in
          rw (idle, insert_data-append)
            (All-append (λ x. k < pos_part x.remaining) s.sched.alarm_list _ all (km, tt))

module _ {F : Type 0} where
  due-append : (n : ℕ) (xs ys : List (AlarmEvent F)) → due n (xs ++ ys) ≡ due n xs ++ due n ys
  unfolding due
  due-append n [] ys = refl
  due-append n (x ∷ xs) ys = ground (arith, due-append n xs ys)

  mark_none :
      (id lo hi : ℕ) (xs : List (AlarmEvent F))
      → Ascending lo xs hi
      → hi < id
      → map (alarm_mark_as_delete_single id) xs ≡ xs
  mark_none id lo hi [] h p = refl
  mark_none id lo hi (x ∷ xs) h p =
      ap₂ ◌∷◌ (ground (arith, Ascending-le x.id xs hi h.1)) (mark_none id x.id hi xs h.1 p)

  due-end_ring :
      (m : ℕ) (s : Sched F)
      → due m (end_ring s).alarm_list
        ≡ due m (remove_data s.alarm_list tt alarm_valid_cmpfunc) ++ due m s.alarm_list_add_temp
  unfolding end_ring
  due-end_ring m s =
      rw list_concat-append
        (due-append m (remove_data s.alarm_list tt alarm_valid_cmpfunc) s.alarm_list_add_temp)

  -- An event that is scheduled and cancelled in one ring is in the list behind it, and is called
  -- when its time is up.
  pub schedule-unschedule-due :
      (s : Sched F) (f : F) (n m : ℕ)
      → IsSched s
      → s.ringing ≡ true
      → s.alarm_list_add_temp ≡ []
      → n ≤ m
      → let (t, id) = schedule_alarm (pos n) f s in
        due m (end_ring (unschedule_alarm id t)).alarm_list
        ≡ due m (end_ring s).alarm_list ++ f ∷ []
  schedule-unschedule-due s f n m v ringing none_new nm =
      due-end_ring m u
      ∙ ap₂ (λ xs ys. due m (remove_data xs tt alarm_valid_cmpfunc) ++ due m ys) u_list u_new
      ∙ ap₂ (λ xs ys. xs ++ ys) (sym kept) called
    where
      u : Sched F
      u = let (t, id) = schedule_alarm (pos n) f s in unschedule_alarm id t

      u_list : u.alarm_list ≡ s.alarm_list
      u_list =
          unfold schedule_alarm unschedule_alarm in
          rw (ringing, update_each-map)
            (mark_none (s.last_id + 1) 0 s.last_id s.alarm_list
              (rw (none_new, append-nil) at v.ordered) (omega arith))

      event : AlarmEvent F
      event = record { remaining = pos n; id = s.last_id + 1; marked_delete = true; func = f }

      u_new : u.alarm_list_add_temp ≡ event ∷ []
      u_new = unfold schedule_alarm unschedule_alarm in rw (ringing, none_new) (ground arith)

      kept : due m (end_ring s).alarm_list ≡ due m (remove_data s.alarm_list tt alarm_valid_cmpfunc)
      kept = due-end_ring m s ∙ rw none_new (unfold due in append-nil _)

      called : due m (event ∷ []) ≡ f ∷ []
      called = unfold due in ground arith
