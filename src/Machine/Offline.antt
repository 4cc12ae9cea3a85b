-- ===== src/Machine/Offline.antt =====
-- The consecutive failures of the internet check of util/internet_check.c.
use minieap.Prelude.{none, ◌+◌}
use minieap.Machine.World.{World, Env}
use minieap.Machine.Timers.{internet_check_reschedule}
use minieap.Machine.Safe.{Safe, IsEnv}

module _ {P : Type 0} (env : Env P) (e : IsEnv env) where
  -- A failed probe that is not the last one.
  abbrev counted : World P → World P
  counted w =
      internet_check_reschedule env.cfg
        (record w { check_alarm_id = none; check_fail_count = w.check_fail_count + 1 })
