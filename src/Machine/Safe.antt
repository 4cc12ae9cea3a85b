-- ===== src/Machine/Safe.antt =====
-- Outcomes that are no fault, and what the machine's state and surroundings have to be for that.
use minieap.Prelude.{
  Bool, true, false, if◌then◌else◌, ◌≤◌, ◌<◌, ◌≡◌, Option, none, some, length, Bytes,
}
use minieap.Frame.{EthEapFrame}
use minieap.Frame.Bounds.{IsFrame}
use minieap.Builder.{PacketBuilder}
use minieap.Builder.Header.{IsHeader}
use minieap.Plugins.{
  Prepared, Received, packet_plugin_prepare_frame, packet_plugin_on_frame_received,
}
use minieap.Machine.World.{
  EapState, start_sent, identity_sent, challenge_sent, success, failure, World, Env, M, Outcome, ok,
  exited, then_do,
}

-- The call returns in a state with `Q`, or ends the program.
pub data Safe {P A : Type 0} (Q : A → World P → Type 0) : Outcome P A → Type 0 where
  returns : {a : A} {w : World P} → Q a w → Safe Q (ok a w)
  ends : {w : World P} → Safe Q (exited w)

module _ {P A : Type 0} {Q : A → World P → Type 0} where
  pub bind :
      {B : Type 0} {R : B → World P → Type 0} {o : Outcome P A} {f : A → M P B}
      → Safe Q o
      → ((a : A) (w : World P) → Q a w → Safe R (f a w))
      → Safe R (then_do o f)
  bind (returns q) next = next _ _ q
  bind ends next = ends

  -- Whatever a test gives.
  pub either : (b : Bool) {o o' : Outcome P A} → Safe Q o → Safe Q o' → Safe Q (if b then o else o')
  either true yes_safe no_safe = yes_safe
  either false yes_safe no_safe = no_safe

  pub mono :
      {R : A → World P → Type 0} {o : Outcome P A}
      → Safe Q o
      → ((a : A) (w : World P) → Q a w → R a w)
      → Safe R o
  mono (returns q) weaken = returns (weaken _ _ q)
  mono ends weaken = ends

-- A frame of the network holds the 60 bytes that Ethernet pads a frame to.
pub record IsReceived (f : EthEapFrame) : Type 0 where
  pub padded : 60 ≤ f.actual_len
  pub held : f.actual_len ≤ length f.content

-- What the machine relies on: the digest has its size, the credentials fit the buffers, and the
-- plugins stay inside the frames that they are given.
pub record IsEnv {P : Type 0} (env : Env P) : Type 0 where
  pub digest : (xs : Bytes) → length (env.compute_hash xs) ≡ 16
  pub username : length env.eap_config.username ≤ 64
  pub password : length env.eap_config.password < 64
  pub prepares :
      (f : EthEapFrame) (priv : P)
      → IsFrame f
      → (r : Prepared P) × (packet_plugin_prepare_frame env.active_plugins f priv ≡ some r)
  pub receives :
      (f : EthEapFrame) (priv : P)
      → IsReceived f
      → (r : Received P) × (packet_plugin_on_frame_received env.active_plugins f priv ≡ some r)

-- The builder is there, and the addresses have their sizes.
pub record IsReady (packet_builder : Option PacketBuilder) (local_mac server_mac : Bytes)
    : Type 0 where
  pub builder : PacketBuilder
  pub built : packet_builder ≡ some builder
  pub header : IsHeader builder.frame_header
  pub local : length local_mac ≡ 6
  pub server : length server_mac ≡ 6

abbrev pub Ready : {P : Type 0} → World P → Type 0
Ready w = IsReady w.packet_builder w.local_mac w.server_mac

-- A frame that can be answered.
abbrev pub IsRequest : Option EthEapFrame → Type 0
IsRequest none = ⊥
IsRequest (some f) = 60 ≤ length f.content

-- What a state needs for its transition to be made once more: a function in the table, and a
-- frame where the transition answers one.
abbrev pub CanRepeat : EapState → Option EthEapFrame → Type 0
CanRepeat start_sent frame = Unit
CanRepeat identity_sent frame = IsRequest frame
CanRepeat challenge_sent frame = IsRequest frame
CanRepeat success frame = Unit
CanRepeat failure frame = Unit
CanRepeat _ frame = ⊥

-- The invariant between two events.
pub record IsWorld {P : Type 0} (w : World P) : Type 0 where
  pub ready : Ready w
  pub can_repeat : CanRepeat w.state w.last_recv_frame
