-- ===== src/RoomState/Tests.antt =====
-- The state machine of a room at concrete inputs: apps/server/src/room_state.rs.
use open_cade.Prelude.{◌≡◌, ◌≤◌, ◌↔◌, ◌+◌, [], ◌∷◌}
use open_cade.Protocol.{waiting, connecting}
use open_cade.RoomState.{accept, start, cancel, ok, transition}
use open_cade.RoomState.Laws.{Edge, progress, run, transition-iff-Edge, run_bounded}

transition-iff-Edge_example :
    (transition waiting accept ≡ ok connecting) ↔ Edge waiting accept connecting
transition-iff-Edge_example = transition-iff-Edge waiting connecting accept

run_bounded_example :
    progress waiting + (run waiting (accept ∷ start ∷ accept ∷ cancel ∷ [])).1
    ≤ progress (run waiting (accept ∷ start ∷ accept ∷ cancel ∷ [])).0
run_bounded_example = run_bounded waiting (accept ∷ start ∷ accept ∷ cancel ∷ [])
