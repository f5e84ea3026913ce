-- ===== src/Rooms/Invariant.antt =====
-- When the rows of a room agree with its state: apps/server/src/routes/rooms.rs and its tables.
use open_cade.Prelude.{
  All, any, List, [], ◌∷◌, ◌==◌, false, ℕ, ◌≤◌, ◌≡◌, ◌≢◌, true, Option, some, length,
}
use open_cade.Protocol.{
  RoomState, waiting, ready, challenging, connecting, playing, finished, cancelled,
}
use open_cade.Rooms.{AttemptState, active, succeeded, Room, is_member, Participant}
use open_cade.Prelude.Assoc.{Assoc, contains_key, nat_eq}
use open_cade.Rooms.Exit.{count_ended}

-- The attempt's state against the room's.
abbrev pub Tracks : RoomState → AttemptState → Type 0
Tracks finished a = a ≡ succeeded
Tracks cancelled a = (a ≢ active) × (a ≢ succeeded)
Tracks _ a = a ≡ active

-- The number of members.
abbrev pub Seats : RoomState → ℕ → Type 0
Seats waiting n = n ≡ 1
Seats challenging n = n ≡ 1
Seats connecting n = n ≡ 2
Seats playing n = n ≡ 2
Seats finished n = n ≡ 2
Seats _ n = n ≤ 2

-- The keys of the participants are members.
abbrev pub Within : List ℕ → Assoc ℕ Participant → Type 0
Within ms ps = All (λ kv. any (λ m. m == kv.0) ms ≡ true) ps

abbrev pub Distinct : Assoc ℕ Participant → Type 0
Distinct [] = Unit
Distinct ((u, p) ∷ ps) = (contains_key u ps ≡ false) × Distinct ps

-- Every member is a participant.
abbrev pub Covers : Assoc ℕ Participant → List ℕ → Type 0
Covers ps ms = All (λ m. contains_key m ps ≡ true) ms

-- The native processes that were launched: none before the room connects, both in a match, and both
-- have ended when it is finished.
abbrev pub Launches : RoomState → List ℕ → Assoc ℕ Participant → Type 0
Launches waiting ms ps = ps ≡ []
Launches challenging ms ps = ps ≡ []
Launches connecting ms ps = Within ms ps × Distinct ps
Launches playing ms ps = (length ps ≡ 2) × Covers ps ms
Launches finished ms ps = (length ps ≡ 2) × (count_ended ps ≡ 2)
Launches _ ms ps = Unit

-- A room that is not over has a deadline.
abbrev pub Due : RoomState → Option ℕ → Type 0
Due ready o = Unit
Due finished o = Unit
Due cancelled o = Unit
Due _ o = (d : ℕ) × (o ≡ some d)

pub record IsConsistent (r : Room) : Type 0 where
  pub two_players : r.max_players ≡ 2
  pub host_inside : is_member r.host_user_id r ≡ true
  pub tracks : Tracks r.state r.attempt.attempt_state
  pub seats : Seats r.state (length r.members)
  pub launches : Launches r.state r.members r.participants
  pub due : Due r.state r.state_deadline_at
