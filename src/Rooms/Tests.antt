-- ===== src/Rooms/Tests.antt =====
-- The rooms at concrete inputs: user 1 challenges user 2, who enters by the room and leaves the
-- challenge pending; both launch and exit, and the match is over.
use open_cade.Rooms.{
  err, ok, Room, Challenge, pending, LaunchGrant, Endpoint, host, Database, succeeded, unauthorized,
}
use open_cade.Rooms.Lifecycle.{cancel_room, accept_body, seat, add_member, create_room, accept_room}
use open_cade.Prelude.Text.{codes, text_eq, Text}
use open_cade.Prelude.Assoc.{lookup, insert, nat_eq, text_eq_instance}
use open_cade.Prelude.{◌≡◌, ℕ, List, [], ◌∷◌, some, none, Option, refl, true, false}
use open_cade.Prelude.Int.{pos}
use open_cade.Protocol.{connecting, finished, cancelled}
use open_cade.RoomState.{transition}
use open_cade.RoomState.Laws.{IsTerminal, is_finished}
use open_cade.Rooms.Launch.{
  consume, is_consumable, is_authorized, is_grant_of, launch_body, entered, begin_play,
  GrantRequest, create_launch_grant, consume_launch_grant, confirm_native_launch,
}
use open_cade.Rooms.Exit.{exit_body, exit_from, finish_play, end_participant, count_ended}
use open_cade.Rooms.Challenges.{challenge_room, require_pending, resolve_challenge_body}
use open_cade.Rooms.Inversion.{put, fresh, playing_room, finished_room}
use open_cade.Rooms.Invariant.{IsConsistent}
use open_cade.Rooms.Steps.{
  accepts, launches, exits, Reached, challenged, next, reached-IsConsistent, Follows, step-Follows,
}
use open_cade.Rooms.Resolved.{resolve_challenge_body-unguarded}
use open_cade.Rooms.Grants.{consume-Allows, Allows}
use open_cade.Rooms.Spent.{
  Granted, start, stores, launches as launches_again, consume_launch_grant-once,
}
use open_cade.Rooms.Served.{empty_database, next as serve, accepts as enters}

abbrev pub address : Endpoint
address = record { address = 7; port = 55435; is_unspecified = false; is_multicast = false }

-- A grant of room 9.
abbrev pub grant_for : ℕ → ℕ → Option ℕ → LaunchGrant
grant_for user peer used = record {
  token_hash = user ∷ [];
  room_id = 9;
  grant_game_id = codes "game";
  local_user_id = user;
  peer_user_id = peer;
  role = host;
  local_endpoint = address;
  peer_endpoint = address;
  input_delay_frames = 2;
  grant_expires_at = 90;
  consumed_at = used;
}

abbrev grants : List LaunchGrant
grants = grant_for 1 2 none ∷ grant_for 2 1 none ∷ []

abbrev used : List LaunchGrant
used = grant_for 1 2 (some 12) ∷ grant_for 2 1 (some 13) ∷ []

grant_consumed : (consume (1 ∷ []) 1 12 grants).1 ≡ some (grant_for 1 2 (some 12))
unfolding consume is_consumable text_eq
grant_consumed = refl

-- The token of 32 bytes is its own hash, and user 2 stores a grant of another one and launches.
abbrev token : Text
token = codes "0123456789abcdef0123456789abcdef"

abbrev other_token : Text
other_token = codes "fedcba9876543210fedcba9876543210"

abbrev given : Database
given = record {
  rooms = [];
  grants = record (grant_for 1 2 none) { token_hash = token } ∷ [];
  rooms_created = 0;
  notices = [];
}

abbrev same_text : Text → Text
same_text text = text

abbrev taken : Database
taken = (consume_launch_grant same_text token 1 12 given).0

abbrev request : GrantRequest
request = record {
  requested_local = some address;
  requested_peer = some address;
  requested_delay = 2;
  campaign_mode = false;
}

abbrev later_on : Database
later_on = (confirm_native_launch 1 9 14 (create_launch_grant other_token 2 9 13 request taken).0).0

token_taken :
    (consume_launch_grant same_text token 1 12 given).1
    ≡ ok (record (grant_for 1 2 (some 12)) { token_hash = token })
unfolding consume_launch_grant consume is_consumable text_eq
token_taken = refl

tokens_differ : text_eq other_token token ≡ false
unfolding text_eq
tokens_differ = refl

later_on_reached : Granted token taken later_on
later_on_reached = launches_again 1 9 14 (stores other_token 2 9 13 request start tokens_differ)

consume_launch_grant-once_example :
    ((consume_launch_grant same_text token 2 15 later_on).1 ≡ err unauthorized)
    × ((consume_launch_grant same_text token 2 15 later_on).0.grants ≡ later_on.grants)
consume_launch_grant-once_example =
    consume_launch_grant-once same_text token 1 2 12 15 given later_on
      (record (grant_for 1 2 (some 12)) { token_hash = token }) (tt, tt) token_taken
      later_on_reached

consume-Allows_example :
    Allows (1 ∷ []) 1 12 (consume (1 ∷ []) 1 12 grants).0 (grant_for 1 2 (some 12))
consume-Allows_example =
    consume-Allows (1 ∷ []) 1 12 grants (grant_for 1 2 (some 12)) grant_consumed

abbrev pub made : Room
made = challenge_room 1 2 5 (codes "game") 0

abbrev pub entered_room : Room
entered_room = seat 2 10 connecting made

abbrev pub one_launched : Room
one_launched = put 1 fresh entered_room

abbrev pub in_play : Room
in_play = playing_room 2 21 (put 2 fresh one_launched)

abbrev one_exited : Room
one_exited = put 1 (end_participant 30 (some (pos 0)) fresh) in_play

abbrev over : Room
over = finished_room 2 31 (put 2 (end_participant 31 none fresh) one_exited)

accepted_step : accept_body 2 10 made ≡ ok (some entered_room)
unfolding accept_body challenge_room transition
accepted_step = refl

launch_step : launch_body 1 9 20 used entered_room ≡ ok (entered one_launched)
unfolding launch_body seat add_member challenge_room lookup insert begin_play is_authorized
    is_grant_of
launch_step = refl

second_launch_step : launch_body 2 9 21 used one_launched ≡ ok (entered in_play)
unfolding launch_body seat add_member challenge_room lookup insert begin_play is_authorized
    is_grant_of transition playing_room
second_launch_step = refl

exit_step : exit_body 1 30 (some (pos 0)) in_play ≡ ok one_exited
unfolding exit_body exit_from finish_play seat add_member challenge_room lookup insert playing_room
    end_participant count_ended
exit_step = refl

last_exit_step : exit_body 2 31 none one_exited ≡ ok over
unfolding exit_body exit_from finish_play seat add_member challenge_room lookup insert playing_room
    end_participant count_ended transition finished_room
last_exit_step = refl

over_reached : Reached over
over_reached =
    next
      (next
        (next
          (next (next (challenged 1 2 5 (codes "game") 0) (accepts 2 10 accepted_step) tt)
            (launches 1 9 20 used launch_step) tt)
          (launches 2 9 21 used second_launch_step) tt)
        (exits 1 30 (some (pos 0)) exit_step) tt)
      (exits 2 31 none last_exit_step) tt

reached-IsConsistent_example : IsConsistent over
reached-IsConsistent_example = reached-IsConsistent over_reached

step-Follows_example : Follows one_exited.state over.state
step-Follows_example = step-Follows (exits 2 31 none last_exit_step)

late_exit_step :
    exit_body 1 40 none over
    ≡ ok (put 1 (end_participant 40 none (end_participant 30 (some (pos 0)) fresh)) over)
unfolding exit_body exit_from finish_play seat add_member challenge_room lookup insert playing_room
    end_participant count_ended transition finished_room
late_exit_step = refl

over_finished : IsTerminal over.state
unfolding finished_room
over_finished = is_finished

abbrev pending_challenge : Challenge
pending_challenge = record {
  challenge_id = 5;
  challenger_id = 1;
  challenged_id = 2;
  challenge_state = pending;
  challenge_expires_at = 300;
}

challenge_still_pending : over.challenge ≡ some pending_challenge
unfolding challenge_room seat playing_room finished_room
challenge_still_pending = refl

still_pending : require_pending pending_challenge 40 ≡ ok tt
unfolding require_pending
still_pending = refl

state_over : over.state ≡ finished
unfolding finished_room
state_over = refl

resolve_challenge_body-unguarded_example :
    (r' : Room) × (resolve_challenge_body 1 40 true pending_challenge over ≡ ok r')
    × (r'.state ≡ cancelled)
    × (r'.attempt.attempt_state ≡ succeeded)
    × ¬ IsConsistent r'
resolve_challenge_body-unguarded_example =
    resolve_challenge_body-unguarded 1 40 true pending_challenge over refl still_pending state_over
      (reached-IsConsistent over_reached)

abbrev one_room : Database
one_room = record { rooms = (9, made) ∷ []; grants = grants; rooms_created = 1; notices = [] }

-- User 1 opens room 9, user 2 enters it, and user 1 cancels.
abbrev served_database : Database
served_database =
    (cancel_room 1 9 30
      (accept_room 2 9 10 (create_room (λ g. true) 1 (codes "game") 2 9 0 empty_database).0).0).0
