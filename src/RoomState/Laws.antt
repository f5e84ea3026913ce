-- ===== src/RoomState/Laws.antt =====
-- The state machine of a room: apps/server/src/room_state.rs.
use open_cade.Prelude.Text.{Text, codes, text_eq, text_eq_sound}
use open_cade.Prelude.{
  List, [], ◌∷◌, ◌+◌, sym, subst, ◌∙◌, ℕ, ◌<◌, ◌≤◌, ◌≡◌, ◌↔◌, ◌⊎◌, refl, inl, inr, some, arith,
}
use open_cade.Protocol.{
  RoomState, waiting, ready, challenging, connecting, playing, finished, cancelled,
}
use open_cade.RoomState.{
  RoomEvent, accept, start, finish, cancel, decline, Transition, ok, invalid, transition,
  from_database, to_database,
}

-- How far a room is. Terminal states are the furthest.
abbrev pub progress : RoomState → ℕ
progress waiting = 0
progress ready = 0
progress challenging = 0
progress connecting = 1
progress playing = 2
progress finished = 3
progress cancelled = 3

pub data IsTerminal : RoomState → Type 0 where
  is_finished : IsTerminal finished
  is_cancelled : IsTerminal cancelled

-- The state machine as a diagram.
pub data Edge : RoomState → RoomEvent → RoomState → Type 0 where
  open_accept : Edge waiting accept connecting
  challenge_accept : Edge challenging accept connecting
  begin : Edge connecting start playing
  finish_match : Edge playing finish finished
  cancels : {s : RoomState} → ¬ IsTerminal s → Edge s cancel cancelled
  declines : {s : RoomState} → ¬ IsTerminal s → Edge s decline cancelled

pub live : {s : RoomState} → progress s < 3 → ¬ IsTerminal s
live h is_finished = omega arith
live h is_cancelled = omega arith

Edge-sound : {s t : RoomState} {e : RoomEvent} → Edge s e t → transition s e ≡ ok t
unfolding transition
Edge-sound open_accept = refl
Edge-sound challenge_accept = refl
Edge-sound begin = refl
Edge-sound finish_match = refl
Edge-sound {s = finished} (cancels h) = absurd (h is_finished)
Edge-sound {s = cancelled} (cancels h) = absurd (h is_cancelled)
Edge-sound (cancels h) = refl
Edge-sound {s = finished} (declines h) = absurd (h is_finished)
Edge-sound {s = cancelled} (declines h) = absurd (h is_cancelled)
Edge-sound (declines h) = refl

-- An event either follows an edge or is refused with the state and the event.
transition_cases :
    (s : RoomState) (e : RoomEvent)
    → ((t : RoomState) × (transition s e ≡ ok t) × Edge s e t) ⊎ (transition s e ≡ invalid s e)
unfolding transition
transition_cases waiting accept = inl (connecting, refl, open_accept)
transition_cases challenging accept = inl (connecting, refl, challenge_accept)
transition_cases connecting start = inl (playing, refl, begin)
transition_cases playing finish = inl (finished, refl, finish_match)
transition_cases finished cancel = inr refl
transition_cases cancelled cancel = inr refl
transition_cases _ cancel = inl (cancelled, refl, cancels (live (omega arith)))
transition_cases finished decline = inr refl
transition_cases cancelled decline = inr refl
transition_cases _ decline = inl (cancelled, refl, declines (live (omega arith)))
transition_cases s e = inr refl

Edge-complete : {s t : RoomState} {e : RoomEvent} → transition s e ≡ ok t → Edge s e t
Edge-complete {s} {t} {e} h = elim (transition_cases s e) [
  | inl (u, p, edge) ↦
      let same : ok u ≡ ok t = sym p ∙ h in
      let states : u ≡ t = cc in subst (λ v. Edge s e v) states edge
  | inr p ↦ cc
]

-- `transition` accepts an event with a new state exactly where the diagram has that edge.
pub transition-iff-Edge : (s t : RoomState) (e : RoomEvent) → (transition s e ≡ ok t) ↔ Edge s e t
transition-iff-Edge s t e = (Edge-complete, Edge-sound)

-- An edge leads on.
pub Edge-advances : {s t : RoomState} {e : RoomEvent} → Edge s e t → progress s < progress t
Edge-advances open_accept = omega arith
Edge-advances challenge_accept = omega arith
Edge-advances begin = omega arith
Edge-advances finish_match = omega arith
Edge-advances {s = finished} (cancels h) = absurd (h is_finished)
Edge-advances {s = cancelled} (cancels h) = absurd (h is_cancelled)
Edge-advances (cancels h) = omega arith
Edge-advances {s = finished} (declines h) = absurd (h is_finished)
Edge-advances {s = cancelled} (declines h) = absurd (h is_cancelled)
Edge-advances (declines h) = omega arith

-- Events in turn: a refused one leaves the state. The count is of those that were accepted.
after : RoomState → Transition → RoomState
after s (ok t) = t
after s (invalid _ _) = s

accepted : Transition → ℕ
accepted (ok t) = 1
accepted (invalid _ _) = 0

pub run : RoomState → List RoomEvent → RoomState × ℕ
unfolding after accepted
run s [] = (s, 0)
run s (e ∷ es) =
    let (t, n) = run (after s (transition s e)) es in (t, accepted (transition s e) + n)

-- For any sequence of events, the number of those that are accepted and the progress of the first
-- state (0 before a room connects, 1 as it connects, 2 as it plays, 3 once it is over) are
-- together at most the progress of the last state.
pub run_bounded :
    (s : RoomState) (es : List RoomEvent) → progress s + (run s es).1 ≤ progress (run s es).0
unfolding run
run_bounded s [] = omega arith
run_bounded s (e ∷ es) = elim (transition_cases s e) [
  | inl (t, p, edge) ↦ rw p (omega (arith, Edge-advances edge, run_bounded t es))
  | inr p ↦ rw p (omega (arith, run_bounded s es))
]

pub progress_le : (s : RoomState) → progress s ≤ 3
progress_le waiting = omega arith
progress_le _ = omega arith

pub run-le-three : (s : RoomState) (es : List RoomEvent) → (run s es).1 ≤ 3
run-le-three s es = omega (arith, run_bounded s es, progress_le (run s es).0)

from_database_cases : (v : Text) (s : RoomState) → from_database v ≡ some s → v ≡ to_database s
unfolding from_database to_database
from_database_cases v s h = ground (
  arith,
  text_eq_sound v (codes "WAITING"),
  text_eq_sound v (codes "READY"),
  text_eq_sound v (codes "CHALLENGING"),
  text_eq_sound v (codes "CONNECTING"),
  text_eq_sound v (codes "PLAYING"),
  text_eq_sound v (codes "FINISHED"),
  text_eq_sound v (codes "CANCELLED"),
)

from_database-to_database : (s : RoomState) → from_database (to_database s) ≡ some s
unfolding from_database to_database text_eq
from_database-to_database waiting = refl
from_database-to_database _ = refl

-- A state is read back from the database exactly from the text that it is stored as.
pub from_database_iff :
    (v : Text) (s : RoomState) → (from_database v ≡ some s) ↔ (v ≡ to_database s)
from_database_iff v s = (from_database_cases v s, λ e. rw e (from_database-to_database s))
