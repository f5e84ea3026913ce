-- ===== src/RoomState.antt =====
-- apps/server/src/room_state.rs: the events of a room, and its states in the database.
pub mod Laws
pub mod Tests
use open_cade.Prelude.{none, some, Option, ◌≡◌, refl, if◌then◌else◌}
use open_cade.Prelude.Text.{Text, codes, text_eq}
use open_cade.Protocol.{
  RoomState, waiting, ready, challenging, connecting, playing, finished, cancelled,
}

pub data RoomEvent : Type 0 where
  accept start finish cancel decline : RoomEvent

pub data Transition : Type 0 where
  ok : RoomState → Transition
  invalid : RoomState → RoomEvent → Transition

-- `Cancel | Decline` from every state but the last two
abandon : RoomState → RoomEvent → Transition
abandon finished e = invalid finished e
abandon cancelled e = invalid cancelled e
abandon _ e = ok cancelled

unfoldable pub transition : RoomState → RoomEvent → Transition
unfolding abandon
transition waiting accept = ok connecting
transition challenging accept = ok connecting
transition connecting start = ok playing
transition playing finish = ok finished
transition s cancel = abandon s cancel
transition s decline = abandon s decline
transition s e = invalid s e

-- `none` is the error of an unknown state.
unfoldable pub from_database : Text → Option RoomState
from_database v =
    if text_eq v (codes "WAITING")
    then some waiting
    else if text_eq v (codes "READY")
    then some ready
    else if text_eq v (codes "CHALLENGING")
    then some challenging
    else if text_eq v (codes "CONNECTING")
    then some connecting
    else if text_eq v (codes "PLAYING")
    then some playing
    else if text_eq v (codes "FINISHED")
    then some finished
    else if text_eq v (codes "CANCELLED")
    then some cancelled
    else none

unfoldable pub to_database : RoomState → Text
to_database waiting = codes "WAITING"
to_database ready = codes "READY"
to_database challenging = codes "CHALLENGING"
to_database connecting = codes "CONNECTING"
to_database playing = codes "PLAYING"
to_database finished = codes "FINISHED"
to_database cancelled = codes "CANCELLED"
