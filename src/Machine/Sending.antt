-- ===== src/Machine/Sending.antt =====
-- A frame that is built stays inside its buffer on the way to the network, and the send leaves
-- the machine's state alone.
use minieap.Prelude.{
  ℕ, ◌≤◌, ◌≡◌, refl, ◌∙◌, false, Bool-cases, inl, inr, some, if◌then◌else◌, length, take, replicate,
  Bytes, arith, length-replicate,
}
use minieap.Frame.{EthEapFrame}
use minieap.Frame.Bounds.{IsFrame}
use minieap.Builder.{PacketBuilder, Built, builder_build_packet}
use minieap.Builder.Header.{IsHeader}
use minieap.Builder.Packet.{built}
use minieap.Plugins.{Prepared}
use minieap.Machine.World.{World, Env, ok}
use minieap.Machine.Safe.{Safe, returns, mono, IsEnv, Ready}
use minieap.Machine.Send.{
  frame_buf_size, set_builder, response_of, send, prepare_and_send, build_and_send,
}

-- What a sender leaves as it was.
pub record Kept {P : Type 0} (w w' : World P) : Type 0 where
  pub state : w'.state ≡ w.state
  pub last_recv_frame : w'.last_recv_frame ≡ w.last_recv_frame
  pub state_last_count : w'.state_last_count ≡ w.state_last_count
  pub auth_round : w'.auth_round ≡ w.auth_round
  pub fail_count : w'.fail_count ≡ w.fail_count
  pub ready : Ready w'

-- A buffer of the right size with no more bytes in use than it has.
pub record IsBuilt (b : Built) : Type 0 where
  pub size : length b.buffer ≡ frame_buf_size
  pub used : ℕ
  pub len : b.len ≡ some used
  pub inside : used ≤ frame_buf_size

abbrev pub zeros : Bytes
zeros = replicate frame_buf_size 0

pub length-zeros : length zeros ≡ frame_buf_size
length-zeros = length-replicate {A = ℕ} frame_buf_size 0

module _ {P : Type 0} (env : Env P) (e : IsEnv env) where
  response_of-IsFrame : (b : Built) → IsBuilt b → IsFrame (response_of env b)
  response_of-IsFrame b v =
      rw v.len (record { allocated = omega (arith, v.size); used = v.inside; small = omega arith })

  send-Safe : (f : EthEapFrame) (w : World P) → Ready w → Safe (λ _ w'. Kept w w') (send env f w)
  send-Safe f w v = elim (Bool-cases (env.send_frame w.sent (take f.actual_len f.content))) [
    | inl taken ↦ rw taken (
        returns (record {
          state = refl;
          last_recv_frame = refl;
          state_last_count = refl;
          auth_round = refl;
          fail_count = refl;
          ready = v;
        }))
    | inr refused ↦ rw refused (
        returns (record {
          state = refl;
          last_recv_frame = refl;
          state_last_count = refl;
          auth_round = refl;
          fail_count = refl;
          ready = v;
        }))
  ]

  sent_part-Safe :
      (r : Prepared P) (w w' : World P)
      → Kept w w'
      → Safe (λ _ w''. Kept w w'') ((if r.ok then send env r.frame else (λ v. ok false v)) w')
  sent_part-Safe r w w' k = elim (Bool-cases r.ok) [
    | inl done ↦ rw done (
        mono (send-Safe r.frame w' k.ready) λ a w'' h. record {
          state = h.state ∙ k.state;
          last_recv_frame = h.last_recv_frame ∙ k.last_recv_frame;
          state_last_count = h.state_last_count ∙ k.state_last_count;
          auth_round = h.auth_round ∙ k.auth_round;
          fail_count = h.fail_count ∙ k.fail_count;
          ready = h.ready;
        })
    | inr failed ↦ rw failed (returns k)
  ]

  prepare_and_send-Safe :
      (b : Built) (w : World P)
      → IsBuilt b
      → Ready w
      → Safe (λ _ w'. Kept w w') (prepare_and_send env b w)
  unfolding prepare_and_send
  prepare_and_send-Safe b w v ready =
      let (r, prepared) = e.prepares (response_of env b) w.plugins (response_of-IsFrame b v) in
      rw (prepared) (
        sent_part-Safe r w (record w { plugins = r.priv })
          (record {
            state = refl;
            last_recv_frame = refl;
            state_last_count = refl;
            auth_round = refl;
            fail_count = refl;
            ready = ready;
          }))

  pub build_and_send-Safe :
      (b : PacketBuilder) (out : Built) (w : World P)
      → builder_build_packet env.compute_hash b zeros ≡ some out
      → IsBuilt out
      → IsHeader b.frame_header
      → Ready w
      → Safe (λ _ w'. Kept w w') (build_and_send env b w)
  unfolding build_and_send
  build_and_send-Safe b out w built v header ready = rw built (
      mono
        (prepare_and_send-Safe out (set_builder b w) v (record {
          builder = b;
          built = refl;
          header = header;
          local = ready.local;
          server = ready.server;
        }))
        λ a w' k. record {
          state = k.state;
          last_recv_frame = k.last_recv_frame;
          state_last_count = k.state_last_count;
          auth_round = k.auth_round;
          fail_count = k.fail_count;
          ready = k.ready;
        })
