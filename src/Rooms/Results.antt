-- ===== src/Rooms/Results.antt =====
-- Inversion of the steps of a handler, and the state machine as the handlers call it.
use open_cade.Prelude.{◌≡◌, ◌⊎◌, arith}
use open_cade.Protocol.{RoomState, waiting, challenging, connecting, playing, finished, cancelled}
use open_cade.RoomState.{RoomEvent, accept, start, finish, cancel, decline, transition}
pub use open_cade.Prelude.Outcome.{through_first, fail_if-ok, Outcome-cases}
use open_cade.Rooms.{ok, apply}

pub apply-accept :
    (s t : RoomState)
    → apply s accept ≡ ok t
    → ((s ≡ waiting) ⊎ (s ≡ challenging)) × (t ≡ connecting)
unfolding transition
apply-accept s t h = ground arith

pub apply-start : (s t : RoomState) → apply s start ≡ ok t → (s ≡ connecting) × (t ≡ playing)
unfolding transition
apply-start s t h = ground arith

pub apply-finish : (s t : RoomState) → apply s finish ≡ ok t → (s ≡ playing) × (t ≡ finished)
unfolding transition
apply-finish s t h = ground arith

-- An event that abandons a room.
pub data IsAbandon : RoomEvent → Type 0 where
  by_cancel : IsAbandon cancel
  by_decline : IsAbandon decline

abandons_cancel : (s t : RoomState) → apply s cancel ≡ ok t → t ≡ cancelled
unfolding transition
abandons_cancel s t h = ground arith

abandons_decline : (s t : RoomState) → apply s decline ≡ ok t → t ≡ cancelled
unfolding transition
abandons_decline s t h = ground arith

pub apply-IsAbandon :
    (s t : RoomState) {e : RoomEvent} → IsAbandon e → apply s e ≡ ok t → t ≡ cancelled
apply-IsAbandon s t by_cancel h = abandons_cancel s t h
apply-IsAbandon s t by_decline h = abandons_decline s t h
