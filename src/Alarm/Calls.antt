-- ===== src/Alarm/Calls.antt =====
-- What the calls of `schedule_alarm` and `unschedule_alarm` do to the lists, in and out of a ring.
use minieap.Prelude.{
  ℕ, ◌≤◌, ◌<◌, ◌≡◌, refl, ap, Bool, false, List, [], ◌∷◌, ◌++◌, map, arith, Bool-cases, inl, inr,
}
use minieap.LinkedList.{remove_data}
use minieap.Alarm.{AlarmEvent, Sched, update_each}

module _ {F : Type 0} where
  pub update_each-map :
      (f : AlarmEvent F → AlarmEvent F) (xs : List (AlarmEvent F)) → update_each f xs ≡ map f xs
  unfolding update_each
  update_each-map f [] = refl
  update_each-map f (x ∷ xs) = ap (λ t. f x ∷ t) (update_each-map f xs)

  -- The event numbers of a list rise, from above `lo` to at most `hi`.
  abbrev pub Ascending : ℕ → List (AlarmEvent F) → ℕ → Type 0
  Ascending lo [] hi = lo ≤ hi
  Ascending lo (x ∷ xs) hi = (lo < x.id) × Ascending x.id xs hi

  pub Ascending-weaken :
      (lo : ℕ) (xs : List (AlarmEvent F)) (hi lo' hi' : ℕ)
      → lo' ≤ lo
      → hi ≤ hi'
      → Ascending lo xs hi
      → Ascending lo' xs hi'
  Ascending-weaken lo [] hi lo' hi' p q h = omega arith
  Ascending-weaken lo (x ∷ xs) hi lo' hi' p q h =
      (omega arith, Ascending-weaken x.id xs hi x.id hi' (omega arith) q h.1)

  pub Ascending-snoc :
      (lo : ℕ) (xs : List (AlarmEvent F)) (hi : ℕ) (x : AlarmEvent F)
      → hi < x.id
      → Ascending lo xs hi
      → Ascending lo (xs ++ x ∷ []) x.id
  Ascending-snoc lo [] hi x p h = (omega arith, omega arith)
  Ascending-snoc lo (y ∷ ys) hi x p h = (h.0, Ascending-snoc y.id ys hi x p h.1)

  pub Ascending-map :
      (f : AlarmEvent F → AlarmEvent F)
      → ((x : AlarmEvent F) → (f x).id ≡ x.id)
      → (lo : ℕ) (xs : List (AlarmEvent F)) (hi : ℕ) → Ascending lo xs hi
      → Ascending lo (map f xs) hi
  Ascending-map f same lo [] hi h = h
  Ascending-map f same lo (x ∷ xs) hi h =
      (rw (same x) h.0, rw (same x) (Ascending-map f same x.id xs hi h.1))

  pub Ascending-map_left :
      (f : AlarmEvent F → AlarmEvent F)
      → ((x : AlarmEvent F) → (f x).id ≡ x.id)
      → (lo : ℕ) (xs ys : List (AlarmEvent F)) (hi : ℕ) → Ascending lo (xs ++ ys) hi
      → Ascending lo (map f xs ++ ys) hi
  Ascending-map_left f same lo [] ys hi h = h
  Ascending-map_left f same lo (x ∷ xs) ys hi h =
      (rw (same x) h.0, rw (same x) (Ascending-map_left f same x.id xs ys hi h.1))

  pub Ascending-remove_data {κ} :
      {E : Type κ} (e : E) (cmp : E → AlarmEvent F → Bool) (lo : ℕ) (xs ys : List (AlarmEvent F))
      (hi : ℕ)
      → Ascending lo (xs ++ ys) hi
      → Ascending lo (remove_data xs e cmp ++ ys) hi
  unfolding remove_data
  Ascending-remove_data e cmp lo [] ys hi h = h
  Ascending-remove_data e cmp lo (x ∷ xs) ys hi h = elim (Bool-cases (cmp e x)) [
    | inl hit ↦ rw hit (
        Ascending-weaken x.id (remove_data xs e cmp ++ ys) hi lo hi (omega arith) (omega arith)
          (Ascending-remove_data e cmp x.id xs ys hi h.1))
    | inr miss ↦ rw miss (h.0, Ascending-remove_data e cmp x.id xs ys hi h.1)
  ]

  pub Ascending-le : (lo : ℕ) (xs : List (AlarmEvent F)) (hi : ℕ) → Ascending lo xs hi → lo ≤ hi
  Ascending-le lo [] hi h = h
  Ascending-le lo (x ∷ xs) hi h = omega (arith, Ascending-le x.id xs hi h.1, h.0)

-- The invariant: event numbers rise through both lists, none is above the last one given out, and
-- the second list is in use only during a ring.
pub record IsSched {F : Type 0} (s : Sched F) : Type 0 where
  pub ordered : Ascending 0 (s.alarm_list ++ s.alarm_list_add_temp) s.last_id
  pub idle : s.ringing ≡ false → s.alarm_list_add_temp ≡ []
