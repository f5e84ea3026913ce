-- ===== src/Rooms/Launch.antt =====
-- apps/server/src/routes/rooms.rs: launch grants, and `confirm_native_launch`.
use open_cade.Prelude.{
  ◌*◌, ℕ, List, [], ◌∷◌, ◌+◌, Bool, true, false, ◌&&◌, ◌||◌, not, Option, none, some, ◌==◌, ltb,
  length, if◌then◌else◌, any, retain,
}
use open_cade.Prelude.Assoc.{lookup, insert, nat_eq}
use open_cade.Prelude.Text.{Text, text_eq}
use open_cade.Protocol.{RoomState, connecting, playing}
use open_cade.RoomState.{start}
use open_cade.Rooms.{
  bad_request, unauthorized, forbidden, not_found, conflict, Result, ok, err, ◌>>=◌, ◌>>◌, fail_if,
  Match, room_playing, Room, Database, Endpoint, LaunchGrant, host, guest, is_member, RoomPayload,
  notify_room_state, apply, is_active,
}
use open_cade.Rooms.Lifecycle.{connect_seconds, is_past}

abbrev pub retroarch_alpha_port : ℕ
retroarch_alpha_port = 55435

abbrev pub grant_seconds : ℕ
grant_seconds = 90

abbrev pub play_seconds : ℕ
play_seconds = 4 * 3600

-- `none` is an endpoint that does not parse as a numeric `IP:port`.
pub record GrantRequest : Type 0 where
  pub requested_local : Option Endpoint
  pub requested_peer : Option Endpoint
  pub requested_delay : ℕ
  pub campaign_mode : Bool

abbrev pub or_bad_request {ℓ} : {A : Type ℓ} → Option A → Result A
or_bad_request none = err bad_request
or_bad_request (some a) = ok a

unfoldable pub is_usable : Endpoint → Endpoint → ℕ → Bool
is_usable a b delay = not (
    not (a.port == retroarch_alpha_port)
    || not (b.port == retroarch_alpha_port)
    || a.is_unspecified
    || a.is_multicast
    || b.is_unspecified
    || b.is_multicast
    || ltb 15 delay)

abbrev pub is_connecting : RoomState → Bool
is_connecting connecting = true
is_connecting _ = false

abbrev pub is_playing : RoomState → Bool
is_playing playing = true
is_playing _ = false

-- The first member of the room other than the user, if the user is a member too.
peer_of : ℕ → List ℕ → Option ℕ
peer_of user [] = none
peer_of user (m ∷ ms) = if m == user then peer_of user ms else some m

unfoldable pub find_peer : ℕ → Room → Option ℕ
unfolding peer_of
find_peer user r = if is_member user r then peer_of user r.members else none

abbrev pub or_forbidden {ℓ} : {A : Type ℓ} → Option A → Result A
or_forbidden none = err forbidden
or_forbidden (some a) = ok a

-- `create_launch_grant` from the row lock on: the grant that is inserted. `hash` is `hash_token` of
-- the fresh token.
unfoldable pub grant_body :
    Text → ℕ → ℕ → ℕ → Endpoint → Endpoint → GrantRequest → Room → Result LaunchGrant
unfolding find_peer
grant_body hash user id now a b request r = do
  fail_if (not (is_connecting r.state)) conflict
  fail_if
      (request.campaign_mode && not (is_past r.barrier_launch_at now && r.ready_preflights == 2))
      conflict
  peer ← or_forbidden (find_peer user r)
  ok (record {
    token_hash = hash;
    room_id = id;
    grant_game_id = r.game_id;
    local_user_id = user;
    peer_user_id = peer;
    role = if user == r.host_user_id then host else guest;
    local_endpoint = a;
    peer_endpoint = b;
    input_delay_frames = request.requested_delay;
    grant_expires_at = now + grant_seconds;
    consumed_at = none;
  })

unfoldable pub extend_attempt : ℕ → Room → Room
extend_attempt now r = record r {
  attempt = record (r.attempt) { deadline_at = some (now + connect_seconds) };
}

unfoldable pub store_grant :
    Database → ℕ → ℕ → Room → Result LaunchGrant → Database × Result (Unit {0})
store_grant db id now r (err e) = (db, err e)
store_grant db id now r (ok g) =
    (record db { rooms = insert id (extend_attempt now r) db.rooms; grants = g ∷ db.grants }, ok tt)

-- `create_launch_grant` from the row lock on.
unfoldable pub grant_at :
    Text
    → ℕ
    → ℕ
    → ℕ
    → GrantRequest
    → Database
    → Result (Endpoint × Endpoint)
    → Database × Result (Unit {0})
unfolding store_grant
grant_at hash user id now request db (err e) = (db, err e)
grant_at hash user id now request db (ok (a, b)) = elim (lookup id db.rooms) [
  | none ↦ (db, err not_found)
  | some r ↦ store_grant db id now r (grant_body hash user id now a b request r)
]

-- The two endpoints of a request, if they are usable.
unfoldable pub endpoints_of : GrantRequest → Result (Endpoint × Endpoint)
endpoints_of request = do
  a ← or_bad_request request.requested_local
  b ← or_bad_request request.requested_peer
  fail_if (not (is_usable a b request.requested_delay)) bad_request
  ok (a, b)

-- The answer, the token and its expiry, is left out.
unfoldable pub create_launch_grant :
    Text → ℕ → ℕ → ℕ → GrantRequest → Database → Database × Result (Unit {0})
create_launch_grant hash user id now request db =
    grant_at hash user id now request db (endpoints_of request)

abbrev pub is_unconsumed : Option ℕ → Bool
is_unconsumed none = true
is_unconsumed (some _) = false

-- `token_hash = $1 AND local_user_id = $2 AND expires_at > now() AND consumed_at IS NULL`
unfoldable pub is_consumable : Text → ℕ → ℕ → LaunchGrant → Bool
is_consumable hash user now g =
    text_eq g.token_hash hash
    && g.local_user_id == user
    && ltb now g.grant_expires_at
    && is_unconsumed g.consumed_at

-- The UPDATE on the table. The hash is its primary key, so it meets one grant at most.
unfoldable pub consume : Text → ℕ → ℕ → List LaunchGrant → List LaunchGrant × Option LaunchGrant
consume hash user now [] = ([], none)
consume hash user now (g ∷ gs) =
    let used = record g { consumed_at = some now } in
    let (gs', found) = consume hash user now gs in
    if is_consumable hash user now g then (used ∷ gs, some used) else (g ∷ gs', found)

abbrev pub or_unauthorized {ℓ} : {A : Type ℓ} → Option A → Result A
or_unauthorized none = err unauthorized
or_unauthorized (some a) = ok a

-- `hash_token` is a parameter: SHA-256 is not the program's.
unfoldable pub consume_launch_grant :
    (Text → Text) → Text → ℕ → ℕ → Database → Database × Result LaunchGrant
consume_launch_grant hash_token grant user now db =
    if ltb (length grant) 32 || ltb 256 (length grant)
    then (db, err bad_request)
    else let (gs, found) = consume (hash_token grant) user now db.grants in
      (record db { grants = gs }, or_unauthorized found)

-- `room_id = $1 AND local_user_id = $2`, and with a consumed grant that has not run out
unfoldable pub is_grant_of : ℕ → ℕ → LaunchGrant → Bool
is_grant_of id user g = g.room_id == id && g.local_user_id == user

unfoldable pub is_authorized : ℕ → ℕ → ℕ → List LaunchGrant → Bool
is_authorized id user now gs =
    any
      (λ g.
        is_grant_of id user g && not (is_unconsumed g.consumed_at) && ltb now g.grant_expires_at)
      gs

abbrev pub is_ended : Option ℕ → Bool
is_ended none = false
is_ended (some _) = true

abbrev pub start_match : ℕ → Option Match → Option Match
start_match now (some m) = some m
start_match now none = some (record { match_started_at = now; match_ended_at = none })

-- The last member's launch starts the match.
unfoldable pub begin_play : ℕ → ℕ → Room → Result Room
begin_play user now r =
    if is_connecting r.state && length r.members == 2 && length r.participants == length r.members
    then (do
      next ← apply r.state start
      ok (record r {
        state = next;
        state_deadline_at = some (now + play_seconds);
        match_row = start_match now r.match_row;
        attempt =
            if is_active (r.attempt.attempt_state)
            then record (r.attempt) { deadline_at = some (now + play_seconds) }
            else r.attempt;
        events = (some user, room_playing) ∷ r.events;
      }))
    else ok r

-- A launch: it was confirmed before, or the room with the launch entered.
pub data Launched : Type 0 where
  again : Launched
  entered : Room → Launched

unfoldable pub launch_body : ℕ → ℕ → ℕ → List LaunchGrant → Room → Result Launched
launch_body user id now gs r = do
  fail_if (not (is_connecting r.state || is_playing r.state)) conflict
  fail_if (not (is_member user r)) forbidden
  elim (lookup user r.participants) [
    | some p ↦ if is_ended p.ended_at then err conflict else ok again
    | none ↦ do
      fail_if (not (is_authorized id user now gs)) conflict
      r' ← begin_play user now (record r {
        participants = insert user (record { ended_at = none; exit_code = none }) r.participants;
      })
      ok (entered r')
  ]

unfoldable pub confirm_native_launch : ℕ → ℕ → ℕ → Database → Database × Result RoomPayload
confirm_native_launch user id now db = elim (lookup id db.rooms) [
  | none ↦ (db, err not_found)
  | some r ↦ elim (launch_body user id now db.grants r) [
    | err e ↦ (db, err e)
    | ok again ↦ notify_room_state db id user
    | ok (entered r') ↦
        notify_room_state
          (record db {
            rooms = insert id r' db.rooms;
            grants = retain (λ g. not (is_grant_of id user g)) db.grants;
          })
          id user
  ]
]
