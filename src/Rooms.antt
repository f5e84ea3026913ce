-- ===== src/Rooms.antt =====
-- apps/server/src/routes/rooms.rs and its tables (apps/server/migrations): the rows of one room, and
-- the database. A transaction holds the room's row lock, so it is one step; one that returns an
-- error is rolled back. Times are seconds of the database's clock.
pub mod Results
pub mod Lifecycle
pub mod Launch
pub mod Exit
pub mod Challenges
pub mod Invariant
pub mod Preserved
pub mod Grants
pub mod Spent
pub mod Inversion
pub mod Participants
pub mod Runtime
pub mod Ending
pub mod Agreed
pub mod Resolved
pub mod Steps
pub mod Deadline
pub mod Transact
pub mod Whole
pub mod Contested
pub mod Served
pub mod Tickets
pub mod Admitted
pub mod Tests
use open_cade.Prelude.{
  [], ◌++◌, some, ◌∷◌, ◌==◌, none, false, true, if◌then◌else◌, any, List, ℕ, Option, Bool,
}
use open_cade.RoomState.{RoomEvent, Transition, transition, ok as moved, invalid}
use open_cade.Protocol.{RoomState}
use open_cade.Prelude.Assoc.{Assoc, nat_eq, lookup, insert}
pub use open_cade.Prelude.Outcome.{ok, err, ◌>>=◌, ◌>>◌, fail_if}
use open_cade.Prelude.Outcome.{Outcome}
use open_cade.Prelude.Int.{ℤ}
use open_cade.Prelude.Text.{Text}

-- `AppError`, by status; the texts are not modelled.
pub data AppError : Type 0 where
  unauthorized forbidden bad_request not_found conflict internal version_unsupported rate_limited :
      AppError

abbrev pub Result {ℓ} : Type ℓ → Type ℓ
Result A = Outcome AppError A

-- match_attempts
pub data AttemptState : Type 0 where
  active succeeded failed attempt_cancelled attempt_expired : AttemptState

pub data FailureCode : Type 0 where
  native_exit_before_start state_deadline_exceeded : FailureCode

pub record Attempt : Type 0 where
  pub attempt_state : AttemptState
  pub failure_code : Option FailureCode
  pub deadline_at : Option ℕ
  pub finished_at : Option ℕ

-- challenges
pub data ChallengeState : Type 0 where
  pending accepted declined challenge_cancelled challenge_expired : ChallengeState

pub record Challenge : Type 0 where
  pub challenge_id : ℕ
  pub challenger_id : ℕ
  pub challenged_id : ℕ
  pub challenge_state : ChallengeState
  pub challenge_expires_at : ℕ

-- match_runtime_participants
pub record Participant : Type 0 where
  pub ended_at : Option ℕ
  pub exit_code : Option ℤ

-- matches
pub record Match : Type 0 where
  pub match_started_at : ℕ
  pub match_ended_at : Option ℕ

-- room_events, the newest first, each with its actor
pub data EventType : Type 0 where
  room_created room_accepted room_playing room_failed room_finished room_cancelled : EventType
  room_deadline_expired challenge_created challenge_accepted challenge_cancelled_event
        challenge_declined room_invite_created room_invite_joined :
      EventType

-- A row of `rooms` with the rows that refer to it. The column `state` holds `to_database` of the
-- state, and a room has one attempt and at most one challenge, which are made with it. `members`
-- are in the order of `joined_at`.
pub record Room : Type 0 where
  pub game_id : Text
  pub host_user_id : ℕ
  pub state : RoomState
  pub max_players : ℕ
  pub state_deadline_at : Option ℕ
  pub members : List ℕ
  pub attempt : Attempt
  pub challenge : Option Challenge
  pub participants : Assoc ℕ Participant
  pub match_row : Option Match
  pub ready_preflights : ℕ
  pub barrier_launch_at : Option ℕ
  pub events : List (Option ℕ × EventType)

pub data Role : Type 0 where
  host guest : Role

-- `SocketAddr`, as far as the handlers look at it.
pub record Endpoint : Type 0 where
  pub address : ℕ
  pub port : ℕ
  pub is_unspecified : Bool
  pub is_multicast : Bool

-- match_launch_grants
pub record LaunchGrant : Type 0 where
  pub token_hash : Text
  pub room_id : ℕ
  pub grant_game_id : Text
  pub local_user_id : ℕ
  pub peer_user_id : ℕ
  pub role : Role
  pub local_endpoint : Endpoint
  pub peer_endpoint : Endpoint
  pub input_delay_frames : ℕ
  pub grant_expires_at : ℕ
  pub consumed_at : Option ℕ

-- `notify_user`: the member, the room, and the state that it is told
pub record Notice : Type 0 where
  pub to_user : ℕ
  pub about_room : ℕ
  pub told : RoomState

pub record Database : Type 0 where
  pub rooms : Assoc ℕ Room
  pub grants : List LaunchGrant
  pub rooms_created : ℕ
  pub notices : List Notice

abbrev pub is_member : ℕ → Room → Bool
is_member user r = any (λ m. m == user) r.members

-- `COALESCE(x, y)`
abbrev pub coalesce {ℓ} : {A : Type ℓ} → Option A → A → A
coalesce none y = y
coalesce (some x) y = x

-- The answer of a handler that returns a room: `RoomPayload`.
pub record RoomPayload : Type 0 where
  pub payload_id : ℕ
  pub payload_game_id : Text
  pub payload_host_id : ℕ
  pub payload_guest_id : Option ℕ
  pub payload_state : RoomState

first_other : ℕ → List ℕ → Option ℕ
first_other host_id [] = none
first_other host_id (m ∷ ms) = if m == host_id then first_other host_id ms else some m

-- `room_payload`: only a member sees a room.
unfoldable pub room_payload : Database → ℕ → ℕ → Result RoomPayload
unfolding first_other
room_payload db room_id requesting_user = elim (lookup room_id db.rooms) [
  | none ↦ err not_found
  | some r ↦
      if is_member requesting_user r
      then ok (record {
        payload_id = room_id;
        payload_game_id = r.game_id;
        payload_host_id = r.host_user_id;
        payload_guest_id = first_other r.host_user_id r.members;
        payload_state = r.state;
      })
      else err not_found
]

notices_to : ℕ → RoomState → List ℕ → List Notice
notices_to room_id told [] = []
notices_to room_id told (m ∷ ms) =
    record { to_user = m; about_room = room_id; told = told } ∷ notices_to room_id told ms

pub tell_all : Result RoomPayload → ℕ → Database → Database
tell_all (err e) room_id db = db
tell_all (ok p) room_id db = elim (lookup room_id db.rooms) [
  | none ↦ db
  | some r ↦ record db { notices = notices_to room_id p.payload_state r.members ++ db.notices }
]

-- `notify_room_state`, after the commit
unfoldable pub notify_room_state : Database → ℕ → ℕ → Database × Result RoomPayload
unfolding notices_to tell_all
notify_room_state db room_id requesting_user =
    let payload = room_payload db room_id requesting_user in (tell_all payload room_id db, payload)

-- A handler's transaction on a room, `locked_room` first, and the notice after its commit.
unfoldable pub transact : Database → ℕ → ℕ → (Room → Result Room) → Database × Result RoomPayload
transact db room_id user body = elim (lookup room_id db.rooms) [
  | none ↦ (db, err not_found)
  | some r ↦ elim (body r) [
    | err e ↦ (db, err e)
    | ok r' ↦ notify_room_state (record db { rooms = insert room_id r' db.rooms }) room_id user
  ]
]

-- `transition(..).map_err(|error| AppError::Conflict(..))`
abbrev pub apply : RoomState → RoomEvent → Result RoomState
apply s e = elim (transition s e) [ moved t ↦ ok t | invalid _ _ ↦ err conflict ]

-- An UPDATE of the attempt `AND state = 'ACTIVE'`.
abbrev pub is_active : AttemptState → Bool
is_active active = true
is_active _ = false

abbrev pub or_else {ℓ} : {A : Type ℓ} → Option A → Option A → Option A
or_else none y = y
or_else (some x) y = some x

-- The attempt is closed if it is active; `code` is set where the statement sets one.
unfoldable pub close_attempt : AttemptState → Option FailureCode → ℕ → Attempt → Attempt
close_attempt target code now a =
    if is_active a.attempt_state
    then record a {
      attempt_state = target;
      failure_code = or_else code a.failure_code;
      deadline_at = none;
      finished_at = some (coalesce a.finished_at now);
    }
    else a
