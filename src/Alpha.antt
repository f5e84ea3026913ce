-- ===== src/Alpha.antt =====
-- apps/server/src/routes/alpha.rs: the preflights of a room and its launch barrier. A transaction locks
-- the room's row, so it is one step. A room has one attempt, so every preflight and the barrier are
-- of that attempt. The events and the notices are left out.
pub mod Barrier
pub mod Invites
pub mod Evidence
pub mod Receipts
pub mod Kept
mod Tests
use open_cade.Prelude.{
  ℕ, zero, suc, ◌+◌, Bool, true, false, ◌||◌, ◌&&◌, not, ◌==◌, leb, ltb, Option, none, some, List,
  [], ◌∷◌, length, all, any, if◌then◌else◌,
}
use open_cade.Prelude.Assoc.{Assoc, nat_eq, lookup, insert}
use open_cade.Prelude.Text.{Text, codes, text_eq, is_blank}
use open_cade.Prelude.Outcome.{Outcome}
use open_cade.Protocol.{RoomState, connecting, playing}
use open_cade.Protocol.Reports.{MatchReportCompatibility, compatibility_eq}
use open_cade.Networking.Report.{is_hash}
use open_cade.Rooms.{
  AppError, bad_request, forbidden, conflict, Result, ok, err, ◌>>=◌, ◌>>◌, fail_if, Room,
  is_member,
}

abbrev pub launch_delay_seconds : ℕ
launch_delay_seconds = 5

-- match_preflights, by user
pub record Preflight : Type 0 where
  pub compatibility : MatchReportCompatibility
  pub native_port_available : Bool
  pub controller_connected : Bool
  pub player_slot : ℕ
  pub ready : Bool

-- `MatchPreflightPayload`
pub record Payload : Type 0 where
  pub room_text : Text
  pub compatibility : MatchReportCompatibility
  pub native_port_available : Bool
  pub connected : Bool
  pub player_slot : ℕ

-- A room, its preflights, and the time of its launch barrier.
pub record Setup : Type 0 where
  pub room : Room
  pub preflights : Assoc ℕ Preflight
  pub launch_at : Option ℕ

unfoldable pub bad_version : Option Text → Bool
bad_version none = false
bad_version (some version) = is_blank version || ltb 64 (length version)

unfoldable pub is_valid_compatibility : MatchReportCompatibility → Bool
unfolding is_hash bad_version
is_valid_compatibility c = not (
    not (text_eq c.adapter (codes "retroarch_fbneo") || text_eq c.adapter (codes "retroarch_test"))
    || bad_version c.emulator_version
    || not (is_hash 64 c.executable_sha256)
    || not (is_hash 64 c.core_sha256)
    || not (is_hash 64 c.content_sha256))

unfoldable pub validate_compatibility : MatchReportCompatibility → Result (Unit {0})
unfolding is_valid_compatibility
validate_compatibility c = fail_if (not (is_valid_compatibility c)) bad_request

abbrev pub is_set_up : RoomState → Bool
is_set_up connecting = true
is_set_up playing = true
is_set_up _ = false

abbrev pub is_expired : Option ℕ → ℕ → Bool
is_expired none now = false
is_expired (some deadline) now = leb deadline now

unfoldable pub lock_active_attempt : ℕ → ℕ → Room → Result (Unit {0})
lock_active_attempt user now r = do
  done ← fail_if (not (is_member user r)) forbidden
  done ← fail_if (not (is_set_up r.state)) conflict
  fail_if (is_expired r.state_deadline_at now) conflict

unfoldable pub expected_player_slot : ℕ → Room → ℕ
expected_player_slot user r = if r.host_user_id == user then 1 else 2

-- `submit_preflight`; `show_uuid` is the text of the room's UUID.
unfoldable pub submit_preflight :
    (show_uuid : ℕ → Text) (room_id user now : ℕ) → Payload → Setup → Result Setup
unfolding validate_compatibility lock_active_attempt expected_player_slot
submit_preflight show_uuid room_id user now p s = do
  done ← fail_if (not (text_eq p.room_text (show_uuid room_id))) bad_request
  done ← validate_compatibility p.compatibility
  done ← lock_active_attempt user now s.room
  done ← fail_if (not (p.player_slot == expected_player_slot user s.room)) bad_request
  ok (record s {
    launch_at = none;
    preflights =
        insert user
          (record {
            compatibility = p.compatibility;
            native_port_available = p.native_port_available;
            controller_connected = p.connected;
            player_slot = p.player_slot;
            ready = false;
          })
          s.preflights;
  })

-- The rows, in any order: nothing below depends on it.
abbrev pub rows : Assoc ℕ Preflight → List Preflight
rows [] = []
rows ((user, p) ∷ rest) = p ∷ rows rest

unfoldable pub same_compatibility : List Preflight → Bool
same_compatibility (a ∷ b ∷ []) = compatibility_eq a.compatibility b.compatibility
same_compatibility _ = false

abbrev pub has_slot : ℕ → List Preflight → Bool
has_slot slot ps = any (λ (p : Preflight). p.player_slot == slot) ps

-- What `preflight_status` returns.
pub record Status : Type 0 where
  pub count : ℕ
  pub matched : Bool
  pub controllers_ready : Bool

unfoldable pub preflight_status : List Preflight → Status
unfolding same_compatibility
preflight_status ps = record {
  count = length ps;
  matched = same_compatibility ps && all (λ (p : Preflight). p.native_port_available) ps;
  controllers_ready =
      length ps == 2
      && all (λ (p : Preflight). p.controller_connected) ps
      && has_slot 1 ps
      && has_slot 2 ps
      && all (λ (p : Preflight). p.player_slot == 1 || p.player_slot == 2) ps;
}

-- `SET ready = TRUE .. AND native_port_available = TRUE`
unfoldable pub mark_ready : ℕ → Assoc ℕ Preflight → Assoc ℕ Preflight
mark_ready user [] = []
mark_ready user ((member, p) ∷ rest) =
    let later = mark_ready user rest in
    if member == user && p.native_port_available
    then (member, record p { ready = true }) ∷ later
    else (member, p) ∷ later

unfoldable pub count_ready : List Preflight → ℕ
count_ready [] = 0
count_ready (p ∷ rest) = (if p.ready then 1 else 0) + count_ready rest

-- `INSERT INTO room_launch_barriers .. ON CONFLICT .. WHERE launch_at <= now()`
unfoldable pub raise_barrier : ℕ → Option ℕ → Option ℕ
raise_barrier now none = some (now + launch_delay_seconds)
raise_barrier now (some launch_at) =
    if leb launch_at now then some (now + launch_delay_seconds) else some launch_at

unfoldable pub ready_to_launch : (user now : ℕ) → Setup → Result Setup
unfolding lock_active_attempt preflight_status mark_ready count_ready raise_barrier
ready_to_launch user now s = do
  done ← lock_active_attempt user now s.room
  done ←
      fail_if
        (not ((preflight_status (rows s.preflights)).count == 2)
          || not (preflight_status (rows s.preflights)).matched
          || not (preflight_status (rows s.preflights)).controllers_ready)
        conflict
  ok (record s {
    preflights = mark_ready user s.preflights;
    launch_at =
        if count_ready (rows (mark_ready user s.preflights)) == 2
        then raise_barrier now s.launch_at
        else s.launch_at;
  })

-- What the launch grants read of the setup in the room's record.
unfoldable pub published : Setup → Room
published s = record (s.room) {
  ready_preflights = count_ready (rows s.preflights);
  barrier_launch_at = s.launch_at;
}

-- `build_snapshot`, without the room's own payload and the route.
pub record Snapshot : Type 0 where
  pub preflight_count : ℕ
  pub compatibility_matched : Bool
  pub controller_ready_count : ℕ
  pub ready_count : ℕ
  pub barrier_launch_at : Option ℕ

unfoldable pub count_connected : List Preflight → ℕ
count_connected [] = 0
count_connected (p ∷ rest) = (if p.controller_connected then 1 else 0) + count_connected rest

unfoldable pub build_snapshot : Setup → Snapshot
unfolding preflight_status count_connected count_ready
build_snapshot s = record {
  preflight_count = length (rows s.preflights);
  compatibility_matched = (preflight_status (rows s.preflights)).matched;
  controller_ready_count = count_connected (rows s.preflights);
  ready_count = count_ready (rows s.preflights);
  barrier_launch_at = s.launch_at;
}
