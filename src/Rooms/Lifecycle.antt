-- ===== src/Rooms/Lifecycle.antt =====
-- apps/server/src/routes/rooms.rs: `create_room`, `accept_room`, `change_room_state` and the
-- deadline of apps/server/src/lifecycle.rs.
use open_cade.Prelude.{
  ◌*◌, ℕ, List, [], ◌∷◌, ◌++◌, ◌+◌, Bool, true, false, ◌&&◌, ◌||◌, not, Option, none, some, ◌==◌,
  leb, length, if◌then◌else◌,
}
use open_cade.Prelude.Assoc.{Assoc, lookup, insert, nat_eq}
use open_cade.Prelude.Text.{Text, text_eq, is_blank}
use open_cade.Protocol.{RoomState, waiting, challenging, connecting, playing, finished, cancelled}
use open_cade.RoomState.{RoomEvent, accept, cancel, decline}
use open_cade.Rooms.{
  bad_request, forbidden, not_found, conflict, Result, ok, err, ◌>>=◌, ◌>>◌, fail_if, Attempt,
  active, attempt_cancelled, attempt_expired, state_deadline_exceeded, Challenge, pending,
  challenge_cancelled, challenge_expired, Participant, Match, room_created, room_accepted,
  room_cancelled, room_deadline_expired, Room, Database, is_member, coalesce, RoomPayload,
  room_payload, notify_room_state, transact, apply, close_attempt, is_active,
}

abbrev pub day : ℕ
day = 24 * 3600

abbrev pub connect_seconds : ℕ
connect_seconds = 120

-- A room as `create_room` inserts it.
unfoldable pub new_room : ℕ → Text → ℕ → ℕ → Room
new_room user game max_players now = record {
  game_id = game;
  host_user_id = user;
  state = waiting;
  max_players = max_players;
  state_deadline_at = some (now + day);
  members = user ∷ [];
  attempt = record {
    attempt_state = active;
    failure_code = none;
    deadline_at = some (now + day);
    finished_at = none;
  };
  challenge = none;
  participants = [];
  match_row = none;
  ready_preflights = 0;
  barrier_launch_at = none;
  events = (some user, room_created) ∷ [];
}

abbrev pub is_waiting : RoomState → Bool
is_waiting waiting = true
is_waiting _ = false

-- `host_user_id = $1 AND game_id = $2 AND state = 'WAITING'`
unfoldable pub is_waiting_for : ℕ → Text → Room → Bool
is_waiting_for user game r = r.host_user_id == user && text_eq r.game_id game && is_waiting r.state

unfoldable pub find_waiting : ℕ → Text → Assoc ℕ Room → Option ℕ
find_waiting user game [] = none
find_waiting user game ((id, r) ∷ rs) =
    if is_waiting_for user game r then some id else find_waiting user game rs

-- `game_exists` is the query on the catalogue, `id` the fresh UUID of the room. The unique index
-- on waiting rooms makes the second look-up, after a lost race, the same as the first.
unfoldable pub create_room :
    (Text → Bool) → ℕ → Text → ℕ → ℕ → ℕ → Database → Database × Result RoomPayload
create_room game_exists user game max_players id now db =
    if is_blank game || not (max_players == 2)
    then (db, err bad_request)
    else if not (game_exists game)
    then (db, err not_found)
    else elim (find_waiting user game db.rooms) [
      | some existing ↦ (db, room_payload db existing user)
      | none ↦
          let db' : Database = record db {
            rooms = insert id (new_room user game max_players now) db.rooms;
            rooms_created = db.rooms_created + 1;
          } in
          (db', room_payload db' id user)
    ]

abbrev pub is_started : RoomState → Bool
is_started connecting = true
is_started playing = true
is_started finished = true
is_started _ = false

-- `INSERT .. ON CONFLICT DO NOTHING`
unfoldable pub add_member : ℕ → Room → List ℕ
add_member user r = if is_member user r then r.members else r.members ++ user ∷ []

-- What `accept_room` writes.
unfoldable pub seat : ℕ → ℕ → RoomState → Room → Room
seat user now next r = record r {
  members = add_member user r;
  state = next;
  state_deadline_at = some (now + connect_seconds);
  attempt = record (r.attempt) { deadline_at = some (now + connect_seconds) };
  events = (some user, room_accepted) ∷ r.events;
}

-- The part of `accept_room` from the row lock to the commit. `none` is the answer to a user who is
-- in the room already, which changes nothing.
unfoldable pub accept_body : ℕ → ℕ → Room → Result (Option Room)
accept_body user now r = do
  fail_if (r.host_user_id == user) forbidden
  if is_member user r && is_started r.state then ok none else do
    fail_if (leb r.max_players (length r.members)) conflict
    next ← apply r.state accept
    ok (some (seat user now next r))

unfoldable pub accept_room : ℕ → ℕ → ℕ → Database → Database × Result RoomPayload
accept_room user id now db = elim (lookup id db.rooms) [
  | none ↦ (db, err not_found)
  | some r ↦ elim (accept_body user now r) [
    | err e ↦ (db, err e)
    | ok none ↦ (db, room_payload db id user)
    | ok (some r') ↦ notify_room_state (record db { rooms = insert id r' db.rooms }) id user
  ]
]

abbrev pub is_cancelled : RoomState → Bool
is_cancelled cancelled = true
is_cancelled _ = false

-- `UPDATE challenges .. WHERE room_id = $1 AND state = 'PENDING'`
unfoldable pub settle_challenge : Challenge → Challenge → Challenge
settle_challenge c c' = elim (c.challenge_state) [ pending ↦ c' | _ ↦ c ]

abbrev pub map_option {ℓ κ} : {A : Type ℓ} {B : Type κ} → (A → B) → Option A → Option B
map_option f none = none
map_option f (some a) = some (f a)

-- `SET ended_at = COALESCE(ended_at, now())`, for a match and for every participant
unfoldable pub end_match : ℕ → Match → Match
end_match now m = record m { match_ended_at = some (coalesce m.match_ended_at now) }

unfoldable pub end_all : ℕ → Assoc ℕ Participant → Assoc ℕ Participant
end_all now [] = []
end_all now ((u, p) ∷ ps) =
    (u, record p { ended_at = some (coalesce p.ended_at now) }) ∷ end_all now ps

-- What `change_room_state` writes when the room is cancelled.
unfoldable pub cancel_rows : ℕ → Room → Room
unfolding settle_challenge end_match end_all close_attempt
cancel_rows now r = record r {
  challenge =
      map_option (λ c. settle_challenge c (record c { challenge_state = challenge_cancelled }))
        r.challenge;
  attempt = close_attempt attempt_cancelled none now r.attempt;
  match_row = map_option (end_match now) r.match_row;
  participants = end_all now r.participants;
}

-- `change_room_state` from the row lock to the commit.
unfoldable pub change_room_state : ℕ → ℕ → RoomEvent → Bool → Room → Result Room
unfolding cancel_rows
change_room_state user now event host_only r = do
  fail_if (host_only && not (r.host_user_id == user)) forbidden
  fail_if (not host_only && not (is_member user r)) forbidden
  next ← apply r.state event
  let moved = record r { state = next; state_deadline_at = none }
  let settled = if is_cancelled next then cancel_rows now moved else moved
  ok (record settled { events = (some user, room_cancelled) ∷ r.events })

unfoldable pub decline_room : ℕ → ℕ → ℕ → Database → Database × Result RoomPayload
decline_room user id now db = transact db id user (change_room_state user now decline false)

unfoldable pub cancel_room : ℕ → ℕ → ℕ → Database → Database × Result RoomPayload
cancel_room user id now db = transact db id user (change_room_state user now cancel false)

-- The first statement of `reconcile_expired`, on the challenge of a room.
unfoldable pub expire_challenge : ℕ → Room → Room
unfolding settle_challenge
expire_challenge now r = record r {
  challenge =
      map_option
        (λ c.
          if leb c.challenge_expires_at now
          then settle_challenge c (record c { challenge_state = challenge_expired })
          else c)
        r.challenge;
}

-- `state IN ('WAITING', 'CHALLENGING', 'CONNECTING', 'PLAYING') AND state_deadline_at <= now()`
abbrev pub can_expire : RoomState → Bool
can_expire waiting = true
can_expire challenging = true
can_expire connecting = true
can_expire playing = true
can_expire _ = false

abbrev pub is_past : Option ℕ → ℕ → Bool
is_past none now = false
is_past (some d) now = leb d now

-- The UPDATE of the attempt in `reconcile_expired`.
unfoldable pub expire_attempt : ℕ → Attempt → Attempt
expire_attempt now a =
    if is_active a.attempt_state
    then record {
      attempt_state = attempt_expired;
      failure_code = some state_deadline_exceeded;
      deadline_at = none;
      finished_at = some now;
    }
    else a

-- `reconcile_expired` on one room that it picks.
unfoldable pub expire_room : ℕ → Room → Room
unfolding settle_challenge end_match end_all expire_attempt
expire_room now r =
    if can_expire r.state && is_past r.state_deadline_at now
    then record r {
      state = cancelled;
      state_deadline_at = none;
      attempt = expire_attempt now r.attempt;
      challenge =
          map_option (λ c. settle_challenge c (record c { challenge_state = challenge_expired }))
            r.challenge;
      match_row = map_option (end_match now) r.match_row;
      participants = end_all now r.participants;
      events = (none, room_deadline_expired) ∷ r.events;
    }
    else r
