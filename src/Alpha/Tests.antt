-- ===== src/Alpha/Tests.antt =====
-- The preflights of alpha.rs at concrete inputs: both players of room 1 send theirs and are ready.
use open_cade.Alpha.{
  Preflight, Payload, Setup, submit_preflight, ready_to_launch, published, rows, count_ready,
  is_valid_compatibility,
}
use open_cade.Alpha.Barrier.{
  Agreed, SetUp, bare, next, submits, readies, grant_body-Agreed, ready_to_launch-barrier,
}
use open_cade.Prelude.{
  ℕ, ◌≡◌, ◌≤◌, ◌<◌, refl, arith, Bool, true, false, [], ◌∷◌, Option, none, some,
}
use open_cade.Prelude.Assoc.{Assoc, nat_eq, insert, contains_key}
use open_cade.Prelude.Text.{Text, codes, text_eq}
use open_cade.Protocol.{connecting}
use open_cade.Protocol.Reports.{MatchReportCompatibility, compatibility_eq}
use open_cade.Rooms.{Room, Endpoint, LaunchGrant, ok, host}
use open_cade.Rooms.Lifecycle.{new_room}
use open_cade.Rooms.Launch.{GrantRequest, grant_body}

abbrev hash : Text
hash = codes "0123456789abcdef0123456789abcdef0123456789abcdef0123456789abcdef"

abbrev compatibility : MatchReportCompatibility
compatibility = record {
  adapter = codes "retroarch_fbneo";
  emulator_version = none;
  executable_sha256 = hash;
  core_sha256 = hash;
  content_sha256 = hash;
}

abbrev show_uuid : ℕ → Text
show_uuid n = n ∷ []

abbrev room : Room
room = record (new_room 1 (codes "game") 2 0) { state = connecting; members = 1 ∷ 2 ∷ [] }

abbrev sent : ℕ → Payload
sent slot = record {
  room_text = 9 ∷ [];
  compatibility = compatibility;
  native_port_available = true;
  connected = true;
  player_slot = slot;
}

abbrev row : ℕ → Bool → Preflight
row slot ready = record {
  compatibility = compatibility;
  native_port_available = true;
  controller_connected = true;
  player_slot = slot;
  ready = ready;
}

abbrev setup : Assoc ℕ Preflight → Option ℕ → Setup
setup preflights launch_at = record { room = room; preflights = preflights; launch_at = launch_at }

abbrev both : Bool → Bool → Option ℕ → Setup
both first second launch_at = setup ((1, row 1 first) ∷ (2, row 2 second) ∷ []) launch_at

first_sent :
    submit_preflight show_uuid 9 1 10 (sent 1) (setup [] none)
    ≡ ok (setup ((1, row 1 false) ∷ []) none)
unfolding submit_preflight text_eq insert new_room is_valid_compatibility
first_sent = refl

second_sent :
    submit_preflight show_uuid 9 2 11 (sent 2) (setup ((1, row 1 false) ∷ []) none)
    ≡ ok (both false false none)
unfolding submit_preflight text_eq insert new_room is_valid_compatibility
second_sent = refl

first_ready : ready_to_launch 1 12 (both false false none) ≡ ok (both true false none)
unfolding ready_to_launch new_room compatibility_eq text_eq
first_ready = refl

second_ready : ready_to_launch 2 13 (both true false none) ≡ ok (both true true (some 18))
unfolding ready_to_launch new_room compatibility_eq text_eq
second_ready = refl

both_reached : SetUp show_uuid (both true true (some 18))
both_reached =
    next
      (next
        (next (next (bare room) (submits 9 1 10 (sent 1) first_sent))
          (submits 9 2 11 (sent 2) second_sent))
        (readies 1 12 first_ready))
      (readies 2 13 second_ready)

abbrev address : Endpoint
address = record { address = 7; port = 55435; is_unspecified = false; is_multicast = false }

abbrev request : GrantRequest
request = record {
  requested_local = some address;
  requested_peer = some address;
  requested_delay = 2;
  campaign_mode = true;
}

abbrev grant : LaunchGrant
grant = record {
  token_hash = 1 ∷ [];
  room_id = 9;
  grant_game_id = codes "game";
  local_user_id = 1;
  peer_user_id = 2;
  role = host;
  local_endpoint = address;
  peer_endpoint = address;
  input_delay_frames = 2;
  grant_expires_at = 110;
  consumed_at = none;
}

granted :
    grant_body (1 ∷ []) 1 9 20 address address request (published (both true true (some 18)))
    ≡ ok grant
unfolding grant_body published count_ready new_room
granted = refl

grant_body-Agreed_example :
    Agreed (rows ((1, row 1 true) ∷ (2, row 2 true) ∷ []))
    × (count_ready (rows ((1, row 1 true) ∷ (2, row 2 true) ∷ [])) ≡ 2)
    × ((d : ℕ) × (some 18 ≡ some d) × (d ≤ 20))
grant_body-Agreed_example =
    grant_body-Agreed show_uuid (both true true (some 18)) (1 ∷ []) 1 9 20 address address request
      grant both_reached refl granted

named :
    (user : ℕ) → user ≤ 2 → 1 ≤ user → contains_key user (both false false none).preflights ≡ true
unfolding contains_key
named user h l = ground arith

ready_to_launch-barrier_example :
    (d : ℕ) × (some 18 ≡ some d)
    × (13 < d)
    × (count_ready (rows ((1, row 1 true) ∷ (2, row 2 true) ∷ [])) ≡ 2)
ready_to_launch-barrier_example =
    ready_to_launch-barrier 1 2 12 13 (both false false none) (both true false none)
      (both true true (some 18)) (λ e. omega arith) (named 1 (omega arith) (omega arith))
      (named 2 (omega arith) (omega arith)) first_ready second_ready
