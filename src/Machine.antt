-- ===== src/Machine.antt =====
-- eap_state_machine.c. `World` has the state and the effects of a step, `Timers` and `Send` the
-- helpers, `Switch` the transitions, `Handler` and `Run` the entry points; the others are proofs.
pub mod World
pub mod Timers
pub mod Send
pub mod Switch
pub mod Handler
pub mod Run
pub mod Safe
pub mod Sending
pub mod Responses
pub mod Switching
pub mod Events
pub mod Counts
pub mod Rounds
pub mod Offline
pub mod Wire
