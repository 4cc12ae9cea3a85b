-- ===== src/Machine/World.antt =====
-- The state of eap_state_machine.c with the globals that its functions reach, and the outcome of a
-- call: a result, the end of the program by `exit`, or a fault.
use minieap.Prelude.{ℕ, Bool, List, Option, none, some, Bytes}
use minieap.Frame.{EthEapFrame}
use minieap.Alarm.{Sched}
use minieap.Builder.{EapConfig, PacketBuilder}
use minieap.Plugins.{PacketPlugin}

-- EAP_STATE
pub data EapState : Type 0 where
  unknown preparing waiting_for_client_start start_sent waiting_for_client_identity : EapState
  identity_sent waiting_for_client_challenge challenge_sent success failure : EapState

-- The number of a state in the enumeration, plus one.
abbrev pub code : EapState → ℕ
code unknown = 0
code preparing = 1
code waiting_for_client_start = 2
code start_sent = 3
code waiting_for_client_identity = 4
code identity_sent = 5
code waiting_for_client_challenge = 6
code challenge_sent = 7
code success = 8
code failure = 9

-- The functions that are given to `schedule_alarm`.
pub data Callback : Type 0 where
  state_watchdog restart_auth internet_check_timed : Callback

-- The fields of PROG_CONFIG that the machine reads. Their values are taken to be at least 0.
pub record ProgConfig : Type 0 where
  pub auth_round : ℕ
  pub max_retries : ℕ
  pub max_failures : ℕ
  pub wait_after_fail_secs : ℕ
  pub restart_on_logoff : Bool
  pub stage_timeout : ℕ
  pub internet_check : Bool
  pub internet_check_interval : ℕ
  pub internet_check_max_fail : ℕ

-- STATE_MACH_PRIV, the globals of internet_check.c, the scheduler, the state of the plugins, and
-- the frames that the network has been given.
pub record World (P : Type 0) : Type 0 where
  pub state_last_count : ℕ
  pub auth_round : ℕ
  pub fail_count : ℕ
  pub state_alarm_id : ℕ
  pub local_mac : Bytes
  pub server_mac : Bytes
  pub state : EapState
  pub last_recv_frame : Option EthEapFrame
  pub packet_builder : Option PacketBuilder
  pub check_alarm_id : Option ℕ
  pub check_fail_count : ℕ
  pub sched : Sched Callback
  pub plugins : P
  pub sent : List Bytes

-- What the machine uses and does not change. `compute_hash` is the digest of md5.c, and
-- `send_frame` says whether the network takes a frame after those that it was given before.
pub record Env (P : Type 0) : Type 0 where
  pub cfg : ProgConfig
  pub eap_config : EapConfig
  pub compute_hash : Bytes → Bytes
  pub send_frame : List Bytes → Bytes → Bool
  pub active_plugins : List (PacketPlugin P)

pub data Outcome (P : Type 0) (A : Type 0) : Type 0 where
  ok : A → World P → Outcome P A
  exited : World P → Outcome P A
  fault : Outcome P A

abbrev pub M : Type 0 → Type 0 → Type 0
M P A = World P → Outcome P A

module _ {P : Type 0} where
  infixl 5 ◌>>=◌ ◌>>◌
  abbrev pub then_do : {A B : Type 0} → Outcome P A → (A → M P B) → Outcome P B
  then_do (ok a w) f = f a w
  then_do (exited w) f = exited w
  then_do fault f = fault

  abbrev pub ◌>>=◌ : {A B : Type 0} → M P A → (A → M P B) → M P B
  ◌>>=◌ m f w = then_do (m w) f

  abbrev pub ◌>>◌ : {A B : Type 0} → M P A → M P B → M P B
  ◌>>◌ m k w = then_do (m w) (λ _. k)

  abbrev pub pure : {A : Type 0} → A → M P A
  pure a w = ok a w

  abbrev pub get : M P (World P)
  get w = ok w w

  abbrev pub modify : (World P → World P) → M P (Unit {0})
  modify f w = ok tt (f w)

  abbrev pub exit : {A : Type 0} → M P A
  exit w = exited w

  -- A read that fails is a fault.
  abbrev pub need : {A : Type 0} → Option A → M P A
  need none w = fault
  need (some a) w = ok a w
