-- ===== src/Rooms/Challenges.antt =====
-- apps/server/src/routes/challenges.rs: a challenge opens a room for two given users.
use open_cade.Prelude.{
  ◌*◌, ℕ, [], ◌∷◌, ◌++◌, ◌+◌, Bool, true, false, ◌&&◌, not, Option, none, some, ◌==◌, leb, ltb,
  if◌then◌else◌, any,
}
use open_cade.Prelude.Assoc.{Assoc, insert, nat_eq}
use open_cade.Prelude.Text.{Text, is_blank}
use open_cade.Protocol.{RoomState, challenging, cancelled}
use open_cade.RoomState.{accept}
use open_cade.Rooms.{
  bad_request, forbidden, not_found, conflict, rate_limited, internal, is_member, Result, ok, err,
  ◌>>=◌, ◌>>◌, fail_if, active, attempt_cancelled, Challenge, ChallengeState, pending, accepted,
  declined, challenge_cancelled, challenge_created, challenge_accepted, challenge_cancelled_event,
  challenge_declined, Room, Database, apply, close_attempt, is_active,
}
use open_cade.Rooms.Lifecycle.{connect_seconds, is_waiting_for, expire_challenge}

abbrev pub challenge_seconds : ℕ
challenge_seconds = 5 * 60

-- The caller's waiting room for the game is given up: its attempt keeps its deadline, and the room
-- too.
unfoldable pub supersede : ℕ → Text → ℕ → Room → Room
supersede user game now r =
    if is_waiting_for user game r
    then record r {
      state = cancelled;
      attempt =
          if is_active (r.attempt.attempt_state)
          then record (r.attempt) { attempt_state = attempt_cancelled; finished_at = some now }
          else r.attempt;
    }
    else r

unfoldable pub map_rooms : (Room → Room) → Assoc ℕ Room → Assoc ℕ Room
map_rooms f [] = []
map_rooms f ((id, r) ∷ rs) = (id, f r) ∷ map_rooms f rs

-- The partial unique index: a pending challenge of this pair.
abbrev pub is_pending : ChallengeState → Bool
is_pending pending = true
is_pending _ = false

abbrev pub is_pair : ℕ → ℕ → Option Challenge → Bool
is_pair user other none = false
is_pair user other (some c) =
    is_pending c.challenge_state && c.challenger_id == user && c.challenged_id == other

unfoldable pub has_pending : ℕ → ℕ → Assoc ℕ Room → Bool
has_pending user other rs = any (λ kv. is_pair user other (kv.1).challenge) rs

unfoldable pub challenge_room : ℕ → ℕ → ℕ → Text → ℕ → Room
challenge_room user other challenge_id game now = record {
  game_id = game;
  host_user_id = user;
  state = challenging;
  max_players = 2;
  state_deadline_at = some (now + challenge_seconds);
  members = user ∷ [];
  attempt = record {
    attempt_state = active;
    failure_code = none;
    deadline_at = some (now + challenge_seconds);
    finished_at = none;
  };
  challenge = some (record {
    challenge_id = challenge_id;
    challenger_id = user;
    challenged_id = other;
    challenge_state = pending;
    challenge_expires_at = now + challenge_seconds;
  });
  participants = [];
  match_row = none;
  ready_preflights = 0;
  barrier_launch_at = none;
  events = (some user, challenge_created) ∷ [];
}

-- `recent` is the count of the caller's challenges of the last ten minutes; the tests on users and
-- games are queries on other tables. `id` and `challenge_id` are fresh.
unfoldable pub create_challenge :
    (ℕ → Bool) → (Text → Bool) → ℕ → ℕ → ℕ → Text → ℕ → ℕ → ℕ → Database → Result Database
create_challenge user_exists game_exists recent user other game id challenge_id now db = do
  fail_if (is_blank game) bad_request
  fail_if (other == user) bad_request
  fail_if (not (user_exists other)) not_found
  fail_if (not (game_exists game)) not_found
  fail_if (leb 10 recent) rate_limited
  let swept = map_rooms (expire_challenge now) db.rooms
  let freed = map_rooms (supersede user game now) swept
  fail_if (has_pending user other freed) conflict
  ok (record db { rooms = insert id (challenge_room user other challenge_id game now) freed })

-- `require_pending`
unfoldable pub require_pending : Challenge → ℕ → Result (Unit {0})
require_pending c now =
    fail_if (not (is_pending c.challenge_state && ltb now c.challenge_expires_at)) conflict

abbrev pub is_accepted : ChallengeState → Bool
is_accepted accepted = true
is_accepted _ = false

abbrev pub is_challenging : RoomState → Bool
is_challenging challenging = true
is_challenging _ = false

-- `accept_challenge` on the challenge's room. The insertion of a member twice is a database error.
-- `none`: it is accepted already, which changes nothing.
unfoldable pub accept_challenge_body : ℕ → ℕ → Challenge → Room → Result (Option Room)
unfolding require_pending
accept_challenge_body user now c r = do
  fail_if (not (c.challenged_id == user)) forbidden
  if is_accepted c.challenge_state then ok none else do
    require_pending c now
    fail_if (not (is_challenging r.state)) conflict
    fail_if (is_member user r) internal
    next ← apply r.state accept
    ok (
        some (record r {
          state = next;
          state_deadline_at = some (now + connect_seconds);
          attempt = record (r.attempt) { deadline_at = some (now + connect_seconds) };
          members = r.members ++ user ∷ [];
          challenge = some (record c { challenge_state = accepted });
          events = (some user, challenge_accepted) ∷ r.events;
        }))

-- `resolve_challenge` on the challenge's room: a decline, or a cancellation by the challenger. It
-- asks for no state of the room.
unfoldable pub resolve_challenge_body : ℕ → ℕ → Bool → Challenge → Room → Result Room
unfolding require_pending close_attempt
resolve_challenge_body user now is_cancel c r = do
  fail_if (not (if is_cancel then c.challenger_id == user else c.challenged_id == user)) forbidden
  require_pending c now
  ok (record r {
    state = cancelled;
    state_deadline_at = none;
    challenge =
        some (record c { challenge_state = if is_cancel then challenge_cancelled else declined });
    attempt = close_attempt attempt_cancelled none now r.attempt;
    events =
        (some user, if is_cancel then challenge_cancelled_event else challenge_declined) ∷ r.events;
  })

-- `locked_challenge`: the challenge by its id, with its room.
unfoldable pub find_challenge : ℕ → Assoc ℕ Room → Option (ℕ × Challenge × Room)
find_challenge id [] = none
find_challenge id ((room_id, r) ∷ rs) =
    let rest = find_challenge id rs in
    elim (r.challenge) [
      | none ↦ rest
      | some c ↦ if c.challenge_id == id then some (room_id, c, r) else rest
    ]

unfoldable pub accept_challenge : ℕ → ℕ → ℕ → Database → Result Database
accept_challenge user id now db = elim (find_challenge id db.rooms) [
  | none ↦ err not_found
  | some (room_id, c, r) ↦ do
    outcome ← accept_challenge_body user now c r
    ok (elim outcome [
      | none ↦ db
      | some r' ↦ record db {
        rooms = insert room_id r' (map_rooms (supersede user r.game_id now) db.rooms);
      }
    ])
]

unfoldable pub resolve_challenge : ℕ → ℕ → ℕ → Bool → Database → Result Database
resolve_challenge user id now is_cancel db = elim (find_challenge id db.rooms) [
  | none ↦ err not_found
  | some (room_id, c, r) ↦ do
    r' ← resolve_challenge_body user now is_cancel c r
    ok (record db { rooms = insert room_id r' db.rooms })
]
