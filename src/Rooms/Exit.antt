-- ===== src/Rooms/Exit.antt =====
-- apps/server/src/routes/rooms.rs: `confirm_native_exit`.
use open_cade.Prelude.{
  suc, ℕ, [], ◌∷◌, Bool, true, false, ◌&&◌, not, Option, none, some, ◌==◌, length, if◌then◌else◌,
}
use open_cade.Prelude.Int.{ℤ}
use open_cade.Prelude.Assoc.{Assoc, lookup, insert, nat_eq}
use open_cade.Protocol.{RoomState, connecting, playing, finished, cancelled}
use open_cade.RoomState.{cancel, finish}
use open_cade.Rooms.{
  conflict, internal, Result, ok, err, ◌>>=◌, ◌>>◌, fail_if, failed, succeeded,
  native_exit_before_start, Participant, room_failed, room_finished, Room, Database, coalesce,
  or_else, RoomPayload, transact, apply, close_attempt,
}
use open_cade.Rooms.Lifecycle.{end_match, map_option}
use open_cade.Rooms.Launch.{is_ended}

-- `CONNECTING | PLAYING | FINISHED | CANCELLED`
abbrev pub may_exit : RoomState → Bool
may_exit connecting = true
may_exit playing = true
may_exit finished = true
may_exit cancelled = true
may_exit _ = false

unfoldable pub end_participant : ℕ → Option ℤ → Participant → Participant
end_participant now code p = record {
  ended_at = some (coalesce p.ended_at now);
  exit_code = or_else p.exit_code code;
}

unfoldable pub count_ended : Assoc ℕ Participant → ℕ
count_ended [] = 0
count_ended ((u, p) ∷ ps) = if is_ended p.ended_at then suc (count_ended ps) else count_ended ps

-- An exit before the other side started: the match fails.
unfoldable pub fail_start : ℕ → ℕ → Room → Result Room
unfolding close_attempt
fail_start user now r = do
  next ← apply r.state cancel
  ok (record r {
    state = next;
    state_deadline_at = none;
    attempt = close_attempt failed (some native_exit_before_start) now r.attempt;
    events = (some user, room_failed) ∷ r.events;
  })

-- The last exit finishes the match.
unfoldable pub finish_play : ℕ → ℕ → Room → Result Room
unfolding close_attempt end_match
finish_play user now r =
    if length r.members == 2 && count_ended r.participants == length r.members
    then (do
      next ← apply r.state finish
      ok (record r {
        state = next;
        state_deadline_at = none;
        match_row = map_option (end_match now) r.match_row;
        attempt = close_attempt succeeded none now r.attempt;
        events = (some user, room_finished) ∷ r.events;
      }))
    else ok r

unfoldable pub exit_from : RoomState → ℕ → ℕ → Room → Result Room
exit_from connecting user now r = fail_start user now r
exit_from playing user now r = finish_play user now r
exit_from finished user now r = ok r
exit_from cancelled user now r = ok r
exit_from _ user now r = err internal

unfoldable pub exit_body : ℕ → ℕ → Option ℤ → Room → Result Room
unfolding end_participant
exit_body user now code r = do
  fail_if (not (may_exit r.state)) conflict
  elim (lookup user r.participants) [
    | none ↦ err conflict
    | some p ↦
        exit_from r.state user now
          (record r { participants = insert user (end_participant now code p) r.participants })
  ]

unfoldable pub confirm_native_exit : ℕ → ℕ → ℕ → Option ℤ → Database → Database × Result RoomPayload
confirm_native_exit user id now code db = transact db id user (exit_body user now code)
