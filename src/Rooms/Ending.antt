-- ===== src/Rooms/Ending.antt =====
-- An exit keeps a room consistent: `confirm_native_exit` of apps/server/src/routes/rooms.rs.
use open_cade.Rooms.Inversion.{put}
use open_cade.Prelude.{
  sym, subst, ◌∙◌, none, some, Option, ◌≡◌, ◌⊎◌, refl, ℕ, inl, inr, arith, true, length,
}
use open_cade.Prelude.Assoc.{lookup, insert, contains_key-lookup, length-insert_old, nat_eq}
use open_cade.Prelude.Int.{ℤ}
use open_cade.Protocol.{RoomState, connecting, playing, finished, cancelled}
use open_cade.Rooms.{Room, Participant, ok, close_attempt}
use open_cade.Rooms.Launch.{is_ended}
use open_cade.Rooms.Exit.{may_exit, exit_body, exit_from, end_participant, count_ended, finish_play}
use open_cade.Rooms.Preserved.{Seats-le}
use open_cade.Rooms.Invariant.{IsConsistent, Covers}
use open_cade.Rooms.Participants.{Covers-insert, count_ended-le, count_ended-insert}
use open_cade.Rooms.Inversion.{
  exit_body-eq, finish_play-eq, fail_start-eq, Ends, finished_room, failed_room,
}
use open_cade.Rooms.{active, succeeded, Attempt}

-- A participant of the room has ended.
exited-IsConsistent :
    (user now : ℕ) (code : Option ℤ) (p : Participant) (r : Room)
    → lookup user r.participants ≡ some p
    → r.state ≡ playing
    → IsConsistent r
    → IsConsistent (put user (end_participant now code p) r)
exited-IsConsistent user now code p r q s h =
    let both : (length r.participants ≡ 2) × Covers r.participants r.members = rw s at h.launches in
    let known = contains_key-lookup user r.participants q in
    record {
      two_players = h.two_players;
      host_inside = h.host_inside;
      tracks = h.tracks;
      seats = h.seats;
      launches = rw s (
        length-insert_old user (end_participant now code p) r.participants known ∙ both.0,
        Covers-insert user (end_participant now code p) r.participants r.members both.1,
      );
      due = h.due;
    }

close_attempt_succeeds :
    (now : ℕ) (a : Attempt)
    → a.attempt_state ≡ active
    → (close_attempt succeeded none now a).attempt_state ≡ succeeded
unfolding close_attempt
close_attempt_succeeds now a h = rw h refl

finished_room-IsConsistent :
    (user now : ℕ) (r r' : Room)
    → Ends user now r r'
    → IsConsistent r
    → IsConsistent (finished_room user now r)
unfolding finished_room
finished_room-IsConsistent user now r r' b h =
    let both : (length r.participants ≡ 2) × Covers r.participants r.members =
      rw b.plays at h.launches in
    let running : r.attempt.attempt_state ≡ active = rw b.plays at h.tracks in
    record {
      two_players = h.two_players;
      host_inside = h.host_inside;
      tracks = close_attempt_succeeds now r.attempt running;
      seats = b.two_inside;
      launches = (both.0, b.all_ended ∙ b.two_inside);
      due = tt;
    }

failed_room-IsConsistent :
    (user now : ℕ) (code : Option ℤ) (p : Participant) (r : Room)
    → r.state ≡ connecting
    → IsConsistent r
    → IsConsistent (failed_room user now (put user (end_participant now code p) r))
unfolding failed_room close_attempt
failed_room-IsConsistent user now code p r s h =
    let running : r.attempt.attempt_state ≡ active = rw s at h.tracks in
    record {
      two_players = h.two_players;
      host_inside = h.host_inside;
      tracks = rw running (λ e. cc, λ e. cc);
      seats = Seats-le r.state _ h.seats;
      launches = tt;
      due = tt;
    }

ended :
    (now : ℕ) (code : Option ℤ) (p : Participant)
    → is_ended (end_participant now code p).ended_at ≡ true
unfolding end_participant
ended now code p = refl

-- A late exit changes what its participant says, and no count.
late_exit-IsConsistent :
    (user now : ℕ) (code : Option ℤ) (p : Participant) (r : Room)
    → lookup user r.participants ≡ some p
    → (r.state ≡ finished) ⊎ (r.state ≡ cancelled)
    → IsConsistent r
    → IsConsistent (put user (end_participant now code p) r)
late_exit-IsConsistent user now code p r q (inr s) h = record {
  two_players = h.two_players;
  host_inside = h.host_inside;
  tracks = h.tracks;
  seats = h.seats;
  launches = rw s tt;
  due = h.due;
}
late_exit-IsConsistent user now code p r q (inl s) h =
    let both : (length r.participants ≡ 2) × (count_ended r.participants ≡ 2) =
      rw s at h.launches in
    let known = contains_key-lookup user r.participants q in
    let p' = end_participant now code p in
    let two : length (insert user p' r.participants) ≡ 2 =
      length-insert_old user p' r.participants known ∙ both.0 in
    let at_least = count_ended-insert user p' r.participants (ended now code p) in
    let at_most = count_ended-le (insert user p' r.participants) in
    record {
      two_players = h.two_players;
      host_inside = h.host_inside;
      tracks = h.tracks;
      seats = h.seats;
      launches = rw s (two, omega (arith, two, both.1, at_least, at_most));
      due = h.due;
    }

pub exit_cases :
    (s : RoomState)
    → may_exit s ≡ true
    → (s ≡ connecting) ⊎ ((s ≡ playing) ⊎ ((s ≡ finished) ⊎ (s ≡ cancelled)))
exit_cases s h = ground arith

pub exit_late :
    (s : RoomState) (user now : ℕ) (r r' : Room)
    → (s ≡ finished) ⊎ (s ≡ cancelled)
    → exit_from s user now r ≡ ok r'
    → r' ≡ r
unfolding exit_from
exit_late s user now r r' (inl q) e = let e₁ = rw q at e in cc e₁
exit_late s user now r r' (inr q) e = let e₁ = rw q at e in cc e₁

pub exit_playing :
    (s : RoomState) (user now : ℕ) (r r' : Room)
    → s ≡ playing
    → exit_from s user now r ≡ ok r'
    → finish_play user now r ≡ ok r'
unfolding exit_from
exit_playing s user now r r' q e = rw q at e

pub exit_connecting :
    (s : RoomState) (user now : ℕ) (r r' : Room)
    → s ≡ connecting
    → exit_from s user now r ≡ ok r'
    → r' ≡ failed_room user now r
unfolding exit_from
exit_connecting s user now r r' q e = let e₁ = rw q at e in fail_start-eq user now r r' e₁

-- An exit that is let through leaves a consistent room consistent: if it finishes the match, both
-- processes have ended.
pub exit_body-IsConsistent :
    (user now : ℕ) (code : Option ℤ) (r r' : Room)
    → exit_body user now code r ≡ ok r'
    → IsConsistent r
    → IsConsistent r'
exit_body-IsConsistent user now code r r' e h =
    let (p, q, may, x) = exit_body-eq user now code r r' e in
    let r₁ : Room = put user (end_participant now code p) r in
    elim (exit_cases r.state may) [
      | inl s ↦
          subst IsConsistent (sym (exit_connecting r.state user now r₁ r' s x))
            (failed_room-IsConsistent user now code p r s h)
      | inr (inl s) ↦
          let h₁ = exited-IsConsistent user now code p r q s h in
          elim (finish_play-eq user now r₁ r' (exit_playing r.state user now r₁ r' s x)) [
            | inl same ↦ subst IsConsistent (sym same) h₁
            | inr b ↦ subst IsConsistent (sym b.to) (finished_room-IsConsistent user now r₁ r' b h₁)
          ]
      | inr (inr s) ↦
          subst IsConsistent (sym (exit_late r.state user now r₁ r' s x))
            (late_exit-IsConsistent user now code p r q s h)
    ]
