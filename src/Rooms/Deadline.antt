-- ===== src/Rooms/Deadline.antt =====
-- The deadlines: apps/server/src/lifecycle.rs, and the rooms that apps/server/src/routes/challenges.rs
-- opens and gives up.
use open_cade.Rooms.Invariant.{Tracks, IsConsistent}
use open_cade.Rooms.Lifecycle.{expire_attempt, expire_room, can_expire, is_past}
use open_cade.Prelude.{Bool-cases, ◌≡◌, ◌≢◌, ℕ, inl, inr, arith, true, ◌&&◌}
use open_cade.Protocol.{RoomState, finished, cancelled}
use open_cade.Rooms.{Room, Attempt, succeeded, is_active}
use open_cade.Rooms.Preserved.{Seats-le, Tracks-unfinished}

pub can_expire-finished : (s : RoomState) → can_expire s ≡ true → s ≢ finished
can_expire-finished s h e = ground arith

expired_attempt :
    (now : ℕ) (a : Attempt)
    → a.attempt_state ≢ succeeded
    → Tracks cancelled (expire_attempt now a).attempt_state
unfolding expire_attempt
expired_attempt now a h = elim (Bool-cases (is_active a.attempt_state)) [
  | inl b ↦ rw b (λ e. cc, λ e. cc)
  | inr b ↦ rw b (λ e. absurd (ground arith), h)
]

-- A room stays consistent when its deadline is enforced.
pub expire_room-IsConsistent :
    (now : ℕ) (r : Room) → IsConsistent r → IsConsistent (expire_room now r)
unfolding expire_room expire_attempt
expire_room-IsConsistent now r h =
    elim (Bool-cases (can_expire r.state && is_past r.state_deadline_at now)) [
      | inl late ↦
          let unfinished = can_expire-finished r.state (ground arith) in
          rw late (record {
            two_players = h.two_players;
            host_inside = h.host_inside;
            tracks =
                expired_attempt now r.attempt (Tracks-unfinished r.state _ unfinished h.tracks);
            seats = Seats-le r.state _ h.seats;
            launches = tt;
            due = tt;
          })
      | inr early ↦ rw early h
    ]
