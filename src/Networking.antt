-- ===== src/Networking.antt =====
-- packages/networking/src/lib.rs: the errors of a transport. A text that the source formats from
-- numbers or takes from a library is the parameter of its constructor.
pub mod Stun
pub mod Frames
pub mod Probe
pub mod Report
pub mod Traversal
pub mod Nat
use open_cade.Prelude.{ℕ, Bool, true, false, List, ◌∷◌, []}
use open_cade.Prelude.Text.{Text, text_eq, codes}

pub data TransportError : Type 0 where
  invalid_player backpressure closed peer_unavailable peer_mismatch stun_timeout : TransportError
  frame_too_large : ℕ → TransportError
  serialization io relay invalid_configuration invalid_stun_response : Text → TransportError
  timeout : (received_frames expected_frames : ℕ) → TransportError
  hole_punch_timeout : (attempts : ℕ) → TransportError
