-- ===== src/Machine/Counts.antt =====
-- What the machine counts: the tries in a state, the failed authentications and the rounds.
use minieap.Prelude.{◌+◌, ◌≡◌}
use minieap.Machine.World.{
  EapState, start_sent, identity_sent, challenge_sent, World, Outcome, exited,
}
use minieap.Machine.Safe.{Safe, Ready}

-- The call ends the program.
abbrev pub Exits : {P A : Type 0} → Outcome P A → Type 0
Exits {P} o = (w : World P) × (o ≡ exited w)

-- The states in which the machine waits for the server.
abbrev pub IsWaiting : EapState → Type 0
IsWaiting start_sent = Unit
IsWaiting identity_sent = Unit
IsWaiting challenge_sent = Unit
IsWaiting _ = ⊥

-- What a try in a state leaves.
record Tried {P : Type 0} (w w' : World P) : Type 0 where
  ready : Ready w'
  state : w'.state ≡ w.state
  last_recv_frame : w'.last_recv_frame ≡ w.last_recv_frame
  state_last_count : w'.state_last_count ≡ w.state_last_count + 1
