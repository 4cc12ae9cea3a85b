-- ===== src/Rjv3/Session/Timers.antt =====
-- The plugin never waits for a second authentication while the heartbeat runs, and keeps the
-- success frame as long as it waits.
use minieap.Prelude.{ℕ, ◌≡◌, Option, none, some}
use minieap.Prelude.Maybe.{◌>>=◌}
use minieap.Frame.{EthEapFrame}
use minieap.Rjv3.Session.{RjPriv}

-- The alarm of the second authentication, against that of the heartbeat and the frame that is kept.
pub data Waits (heartbeat : Option ℕ) (kept : Option EthEapFrame) : Option ℕ → Type 0 where
  idle : Waits heartbeat kept none
  waiting :
      {id : ℕ} (frame : EthEapFrame)
      → heartbeat ≡ none
      → kept ≡ some frame
      → Waits heartbeat kept (some id)

-- While the alarm of the second authentication is set, that of the heartbeat is not, and the
-- success frame is there.
abbrev pub IsSound : RjPriv → Type 0
IsSound s = Waits s.keepalive.alarm_id s.duplicated_packet s.secondary_auth_alarm_id

-- The property holds of what the call gives, if it does not fault.
pub data Ensures {A : Type 0} (P : A → Type 0) : Option A → Type 0 where
  faults : Ensures P none
  returns : {a : A} → P a → Ensures P (some a)

pub Ensures-bind :
    {A B : Type 0} {P : B → Type 0} (o : Option A) (f : A → Option B)
    → ((a : A) → Ensures P (f a))
    → Ensures P (o >>= f)
Ensures-bind none f h = faults
Ensures-bind (some a) f h = h a

pub Ensures-after :
    {A B : Type 0} {P : B → Type 0} {Q : A → Type 0} {o : Option A} (f : A → Option B)
    → Ensures Q o
    → ((a : A) → Q a → Ensures P (f a))
    → Ensures P (o >>= f)
Ensures-after f faults h = faults
Ensures-after f (returns {a} q) h = h a q
