-- ===== src/Alarm/Ring.antt =====
-- `alarm_sig_handler`: which callbacks a ring calls, and what it leaves in the list.
use native.Mathlib.Numerals.{add-one}
use minieap.Prelude.{
  ℕ, zero, suc, ◌+◌, ◌<◌, ◌≡◌, refl, sym, ap, ◌∙◌, true, false, List, [], ◌∷◌, ◌++◌, map, Option,
  none, some, arith, leb, Bool-cases, inl, inr, if◌then◌else◌, length, get_elem?, drop, length-map,
  All,
}
use minieap.Prelude.Int.{ℤ, pos, pos_part, is_pos, is_pos-sub}
use minieap.Alarm.{
  AlarmEvent, Sched, State, update_remaining_single, fire_single, fire_from, begin_ring, end_ring,
  alarm_sig_handler,
}
use minieap.Alarm.Calls.{IsSched, update_each-map}
use minieap.Alarm.Invariant.{Calls, InRing, Calls-InRing, timed}

-- What a call leaves of an event of the first list.
abbrev Timed : Type 0 → Type 0
Timed F = record { remaining : ℤ; id : ℕ; func : F }

-- The callbacks of the events whose time is up once `secs` more seconds have passed.
unfoldable pub due : {F : Type 0} → ℕ → List (AlarmEvent F) → List F
due secs [] = []
due secs (x ∷ xs) = if leb (pos_part x.remaining) secs then x.func ∷ due secs xs else due secs xs

expired : {F : Type 0} → List (Timed F) → List F
expired [] = []
expired (x ∷ xs) = if is_pos x.remaining then expired xs else x.func ∷ expired xs

expired-due :
    {F : Type 0} (secs : ℕ) (xs : List (AlarmEvent F))
    → expired (map timed (map (update_remaining_single (pos secs)) xs)) ≡ due secs xs
unfolding expired due
expired-due secs [] = refl
expired-due secs (x ∷ xs) = ground (arith, is_pos-sub x.remaining secs, expired-due secs xs)

drop-cons {ℓ} :
    {A : Type ℓ} (xs : List A) (i : ℕ) (x : A) (suf : List A)
    → drop i xs ≡ x ∷ suf
    → (get_elem? xs i ≡ some x) × (drop (suc i) xs ≡ suf)
drop-cons [] zero x suf e = absurd (cc)
drop-cons [] (suc i) x suf e = absurd (cc)
drop-cons (y ∷ ys) zero x suf e = (cc, cc)
drop-cons (y ∷ ys) (suc i) x suf e = drop-cons ys i x suf e

get_elem?-timed :
    {F : Type 0} (xs : List (AlarmEvent F)) (i : ℕ) (r : Timed F)
    → get_elem? (map timed xs) i ≡ some r
    → (x : AlarmEvent F) × (get_elem? xs i ≡ some x) × (timed x ≡ r)
get_elem?-timed [] i r e = absurd (cc)
get_elem?-timed (x ∷ xs) zero r e = (x, refl, cc)
get_elem?-timed (x ∷ xs) (suc i) r e = get_elem?-timed xs i r e

abbrev pub IsLive : {F : Type 0} → AlarmEvent F → Type 0
IsLive x = (is_pos x.remaining ≡ true) × (x.marked_delete ≡ false)

-- The state of the scheduler behind a ring that began with `last` as its last event number.
pub record IsCleaned {F : Type 0} (last : ℕ) (s : Sched F) : Type 0 where
  pub live : List (AlarmEvent F)
  pub new : List (AlarmEvent F)
  pub split : s.alarm_list ≡ live ++ new
  pub live-IsLive : All IsLive live
  pub newer : All (λ x. last < x.id) new
  pub idle : s.ringing ≡ false
  pub valid : IsSched s

abbrev pub cleaned : {F W : Type 0} → State F W → State F W
cleaned s = record s { sched = end_ring s.sched }

module _ {F W : Type 0} (call : F → State F W → State F W) where
  -- The callbacks of a list, each called once, in order.
  unfoldable pub call_each : List F → State F W → State F W
  call_each [] s = s
  call_each (f ∷ fs) s = call_each fs (call f s)

  -- A callback changes the scheduler by its two functions only.
  abbrev pub Respects : Type 0
  Respects = (f : F) (s : State F W) → Calls s.sched (call f s).sched

  module _ (respects : Respects) (list : List (Timed F)) (last : ℕ) where
    fire_single-InRing :
        (o : Option (AlarmEvent F)) (s : State F W)
        → InRing list last s.sched
        → InRing list last (fire_single call o s).sched
    unfolding fire_single
    fire_single-InRing none s h = h
    fire_single-InRing (some x) s h = elim (Bool-cases (is_pos x.remaining)) [
      | inl later ↦ rw later h
      | inr now ↦ rw now (Calls-InRing list last h (respects x.func s))
    ]

    expired-fire_single :
        (x : AlarmEvent F) (suf : List (Timed F)) (s : State F W)
        → call_each (expired suf) (fire_single call (some x) s)
          ≡ call_each (expired (timed x ∷ suf)) s
    unfolding fire_single call_each expired
    expired-fire_single x suf s = elim (Bool-cases (is_pos x.remaining)) [
      | inl later ↦ rw later
      | inr now ↦ rw now
    ]

    fire_from-expired :
        (suf : List (Timed F)) (i : ℕ) (s : State F W)
        → InRing list last s.sched
        → drop i list ≡ suf
        → fire_from call (length suf) i s ≡ call_each (expired suf) s
    unfolding fire_from call_each expired
    fire_from-expired [] i s h e = refl
    fire_from-expired (r ∷ suf) i s h e =
        let (here, next) = drop-cons list i r suf e in
        let (x, found, same) =
          get_elem?-timed s.sched.alarm_list i r (ap (λ l. get_elem? l i) h.same ∙ here) in
        ap (λ o. fire_from call (length suf) (i + 1) (fire_single call o s)) found
        ∙ fire_from-expired suf (i + 1) (fire_single call (some x) s)
            (fire_single-InRing (some x) s h) (rw add-one next)
        ∙ expired-fire_single x suf s
        ∙ ap (λ y. call_each (expired (y ∷ suf)) s) same

  module _ (respects : Respects) (s : State F W) (v : IsSched s.sched)
      (quiet : s.sched.ringing ≡ false) where
    abbrev started : State F W
    started = record s { sched = begin_ring s.sched }

    abbrev nodes : List (Timed F)
    nodes = map timed (map (update_remaining_single s.sched.last_set_time) s.sched.alarm_list)

    started-InRing : InRing nodes s.sched.last_id started.sched
    unfolding begin_ring
    started-InRing = record {
      rings = refl;
      same =
          ap (map timed)
            (update_each-map (update_remaining_single s.sched.last_set_time) s.sched.alarm_list);
      later = omega arith;
      fresh = rw (v.idle quiet) tt;
    }

    -- A ring calls the callbacks of the events that are due, each once and in the order of the
    -- list, whatever they schedule and cancel, and then cleans the lists.
    pub alarm_sig_handler-due :
        (secs : ℕ)
        → s.sched.last_set_time ≡ pos secs
        → alarm_sig_handler call s ≡ cleaned (call_each (due secs s.sched.alarm_list) started)
    unfolding alarm_sig_handler
    alarm_sig_handler-due secs e = ap cleaned (
        ap (λ n. fire_from call n 0 started)
          (sym (length-map (begin_ring s.sched).alarm_list timed) ∙ ap length (started-InRing.same))
        ∙ fire_from-expired respects nodes s.sched.last_id nodes 0 started started-InRing refl
        ∙ ap (λ fs. call_each fs started)
            (ap (λ t. expired (map timed (map (update_remaining_single t) s.sched.alarm_list))) e
              ∙ expired-due secs s.sched.alarm_list))
