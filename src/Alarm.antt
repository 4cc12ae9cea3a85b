-- ===== src/Alarm.antt =====
-- util/sched_alarm.c, the POSIX side: a list of timed callbacks over one `alarm()` timer.
pub mod Ring
pub mod Invariant
pub mod Calls
pub mod Timer
pub mod Lookup
use minieap.Prelude.{
  ℕ, zero, suc, ◌+◌, ◌-◌, ◌^◌, Bool, true, false, not, ◌&&◌, List, [], ◌∷◌, Option, none, some, leb,
  ◌==◌, if◌then◌else◌, length, get_elem?,
}
use minieap.Prelude.Int.{ℤ, pos, negsuc, ◌-ℤ◌, is_pos, ltb_ℤ}
use minieap.LinkedList.{insert_data, list_concat, list_destroy, remove_data, list_traverse}

-- `func` stands for the function and its `user` argument.
pub record AlarmEvent (F : Type 0) : Type 0 where
  pub remaining : ℤ
  pub id : ℕ
  pub marked_delete : Bool
  pub func : F

-- The globals of the file. `timer` is the state of `alarm()`: the seconds to the next signal, and
-- 0 when none is pending. Event numbers have no upper bound.
pub record Sched (F : Type 0) : Type 0 where
  pub alarm_list : List (AlarmEvent F)
  pub alarm_list_add_temp : List (AlarmEvent F)
  pub last_id : ℕ
  pub ringing : Bool
  pub last_set_time : ℤ
  pub timer : ℕ

abbrev pub int_max : ℕ
int_max = 2147483647

-- The argument of `alarm()` is an `unsigned int`.
abbrev pub to_unsigned : ℤ → ℕ
to_unsigned (pos n) = n
to_unsigned (negsuc n) = 2 ^ 32 - (n + 1)

abbrev pub is_zero : ℤ → Bool
is_zero (pos n) = n == 0
is_zero (negsuc n) = false

module _ {F : Type 0} where
  unfoldable pub set_alarm : ℤ → Sched F → Sched F
  set_alarm time s = record s { timer = to_unsigned time; last_set_time = time }

  unfoldable pub min_from : List (AlarmEvent F) → (min : ℤ) → ℤ
  min_from [] min = min
  min_from (curr ∷ rest) min =
      min_from rest
        (if not (is_zero curr.remaining) && ltb_ℤ curr.remaining min then curr.remaining else min)

  unfoldable pub find_min_remaining : List (AlarmEvent F) → ℤ
  unfolding min_from
  find_min_remaining list = min_from list (pos int_max)

  abbrev pub update_remaining_single : ℤ → AlarmEvent F → AlarmEvent F
  update_remaining_single secs event = record event { remaining = event.remaining -ℤ secs }

  -- Whether the comparison says "match", that is, whether the event is to be cleaned.
  abbrev pub alarm_valid_cmpfunc : Unit {0} → AlarmEvent F → Bool
  alarm_valid_cmpfunc unused event = not (is_pos event.remaining && not event.marked_delete)

  abbrev pub alarm_mark_as_delete_single : ℕ → AlarmEvent F → AlarmEvent F
  alarm_mark_as_delete_single id event =
      if event.id == id then record event { marked_delete = true } else event

  abbrev pub alarm_event_id_node_cmpfunc : ℕ → AlarmEvent F → Bool
  alarm_event_id_node_cmpfunc id event = id == event.id

  -- `list_traverse` with a function that only writes the node's content.
  unfoldable pub update_each :
      (AlarmEvent F → AlarmEvent F) → List (AlarmEvent F) → List (AlarmEvent F)
  unfolding list_traverse
  update_each f list =
      (list_traverse {0, 0} list (λ event user. record { content = f event; user = user }) tt).list

  unfoldable pub unschedule_alarm : ℕ → Sched F → Sched F
  unfolding update_each remove_data
  unschedule_alarm id s =
      if s.ringing
      then record s {
        alarm_list = update_each (alarm_mark_as_delete_single id) s.alarm_list;
        alarm_list_add_temp = update_each (alarm_mark_as_delete_single id) s.alarm_list_add_temp;
      }
      else record s { alarm_list = remove_data s.alarm_list id alarm_event_id_node_cmpfunc }

  -- Allocation succeeds. `alarm(0)` stops the timer and returns what was left of it.
  unfoldable pub schedule_alarm : ℤ → F → Sched F → Sched F × ℕ
  unfolding set_alarm insert_data
  schedule_alarm secs func s =
      let id = s.last_id + 1 in
      let event : AlarmEvent F = record {
        remaining = secs;
        id = id;
        marked_delete = false;
        func = func;
      } in
      let curr_remaining = if s.timer == 0 then int_max else s.timer in
      let time = if ltb_ℤ (pos curr_remaining) secs then pos curr_remaining else secs in
      if s.ringing
      then (
        record s { last_id = id; alarm_list_add_temp = insert_data s.alarm_list_add_temp event },
        id,
      )
      else (
        record (set_alarm time s) { last_id = id; alarm_list = insert_data s.alarm_list event },
        id,
      )

  unfoldable pub sched_alarm_destroy : Sched F → Sched F
  unfolding list_destroy
  sched_alarm_destroy s = record s {
    timer = 0;
    last_set_time = pos 0;
    alarm_list = list_destroy s.alarm_list;
    alarm_list_add_temp = list_destroy s.alarm_list_add_temp;
    ringing = false;
  }

  -- The handler of SIGALRM is installed once; the model has it installed from the start.
  unfoldable pub sched_alarm_init : Sched F → Sched F
  unfolding sched_alarm_destroy
  sched_alarm_init s = sched_alarm_destroy s

module _ {F : Type 0} where
  -- The handler up to the calls; the signal has used the timer up.
  unfoldable pub begin_ring : Sched F → Sched F
  unfolding update_each
  begin_ring s = record s {
    ringing = true;
    timer = 0;
    alarm_list = update_each (update_remaining_single s.last_set_time) s.alarm_list;
  }

  -- The handler behind the calls.
  unfoldable pub end_ring : Sched F → Sched F
  unfolding remove_data list_concat set_alarm find_min_remaining
  end_ring s =
      let live = remove_data s.alarm_list tt alarm_valid_cmpfunc in
      let list = list_concat live s.alarm_list_add_temp in
      record (set_alarm (find_min_remaining list) s) {
        alarm_list = list;
        alarm_list_add_temp = [];
        ringing = false;
      }

-- The scheduler and all other state that a callback may change.
pub record State (F : Type 0) (W : Type 0) : Type 0 where
  pub sched : Sched F
  pub world : W

module _ {F W : Type 0} (call : F → State F W → State F W) where
  unfoldable pub fire_single : Option (AlarmEvent F) → State F W → State F W
  fire_single none s = s
  fire_single (some event) s = if is_pos event.remaining then s else call event.func s

  -- The traversal of `g_alarm_list`: at each of its nodes the event as it then stands.
  unfoldable pub fire_from : (rounds index : ℕ) → State F W → State F W
  unfolding fire_single
  fire_from zero index s = s
  fire_from (suc rounds) index s =
      fire_from rounds (index + 1) (fire_single (get_elem? s.sched.alarm_list index) s)

  unfoldable pub alarm_sig_handler : State F W → State F W
  unfolding begin_ring fire_from end_ring
  alarm_sig_handler s =
      let started : State F W = record s { sched = begin_ring s.sched } in
      let fired = fire_from (length started.sched.alarm_list) 0 started in
      record fired { sched = end_ring fired.sched }
