-- ===== src/Rooms/Inversion.antt =====
-- What a launch, an exit or an acceptance that is let through comes down to: `confirm_native_launch`
-- and `confirm_native_exit` of apps/server/src/routes/rooms.rs, and apps/server/src/routes/challenges.rs.
use open_cade.Rooms.{
  room_playing, room_failed, is_active, room_finished, native_exit_before_start, succeeded, failed,
  close_attempt, Room, Participant, LaunchGrant, ok, err, conflict, forbidden, fail_if, is_member,
  apply,
}
use open_cade.Prelude.{
  ◌∷◌, ◌+◌, if◌then◌else◌, ap, ◌∙◌, Bool-cases, Option-cases, none, some, Option, ◌≡◌, ◌≢◌, ◌⊎◌, ℕ,
  inl, inr, arith, true, ◌&&◌, ◌||◌, not, List, ◌==◌, length,
}
use open_cade.Rooms.Results.{
  by_cancel, apply-finish, apply-IsAbandon, through_first, fail_if-ok, apply-start,
}
use open_cade.Rooms.Launch.{
  start_match, play_seconds, is_ended, launch_body, again, entered, begin_play, is_authorized,
  is_connecting, is_playing,
}
use open_cade.Rooms.Exit.{
  finish_play, fail_start, count_ended, exit_body, exit_from, end_participant, may_exit,
}
use open_cade.Prelude.Assoc.{lookup, insert, nat_eq}
use open_cade.Prelude.Int.{ℤ}
use open_cade.Protocol.{connecting, playing, finished, cancelled}
use open_cade.RoomState.{start, finish, cancel}
use open_cade.Rooms.Lifecycle.{end_match, map_option}

-- The room with a participant written.
abbrev pub put : ℕ → Participant → Room → Room
put user p r = record r { participants = insert user p r.participants }

abbrev pub fresh : Participant
fresh = record { ended_at = none; exit_code = none }

pub record LaunchesFrom (user id now : ℕ) (gs : List LaunchGrant) (r r' : Room) : Type 0 where
  pub on : (is_connecting r.state || is_playing r.state) ≡ true
  pub inside : is_member user r ≡ true
  pub absent : lookup user r.participants ≡ none
  pub authorized : is_authorized id user now gs ≡ true
  pub plays : begin_play user now (put user fresh r) ≡ ok r'

not_again :
    (o : Option ℕ) {r' : Room} → (if is_ended o then err conflict else ok again) ≢ ok (entered r')
not_again o h = elim (Bool-cases (is_ended o)) [
  | inl b ↦ let h₁ = rw b at h in cc
  | inr b ↦ let h₁ = rw b at h in cc
]

pub launch_body-eq :
    (user id now : ℕ) (gs : List LaunchGrant) (r r' : Room)
    → launch_body user id now gs r ≡ ok (entered r')
    → LaunchesFrom user id now gs r r'
unfolding launch_body
launch_body-eq user id now gs r r' e =
    let (_, e₁, h₁) =
      through_first (fail_if (not (is_connecting r.state || is_playing r.state)) conflict) _ e in
    let (_, e₂, h₂) = through_first (fail_if (not (is_member user r)) forbidden) _ h₁ in
    elim (Option-cases (lookup user r.participants)) [
      | inl q ↦
          let h₃ = rw q at h₂ in
          let (_, e₄, h₄) =
            through_first (fail_if (not (is_authorized id user now gs)) conflict) _ h₃ in
          let (r₁, e₅, h₅) = through_first (begin_play user now (put user fresh r)) _ h₄ in
          let same : r₁ ≡ r' = cc h₅ in
          record {
            on = ground (arith, fail_if-ok _ _ e₁);
            inside = ground (arith, fail_if-ok _ _ e₂);
            absent = q;
            authorized = ground (arith, fail_if-ok _ _ e₄);
            plays = e₅ ∙ ap (λ (x : Room). ok x) same;
          }
      | inr (p, q) ↦ let h₃ = rw q at h₂ in absurd (not_again p.ended_at h₃)
    ]

pub exit_body-eq :
    (user now : ℕ) (code : Option ℤ) (r r' : Room)
    → exit_body user now code r ≡ ok r'
    → (p : Participant) × (lookup user r.participants ≡ some p)
      × (may_exit r.state ≡ true)
      × (exit_from r.state user now (put user (end_participant now code p) r) ≡ ok r')
unfolding exit_body
exit_body-eq user now code r r' e =
    let (_, e₁, h₁) = through_first (fail_if (not (may_exit r.state)) conflict) _ e in
    elim (Option-cases (lookup user r.participants)) [
      | inl q ↦ let h₂ = rw q at h₁ in cc
      | inr (p, q) ↦ let h₂ = rw q at h₁ in (p, q, ground (arith, fail_if-ok _ _ e₁), h₂)
    ]

-- The rows that a started, a finished and a failed match has.
unfoldable pub playing_room : ℕ → ℕ → Room → Room
playing_room user now r = record r {
  state = playing;
  state_deadline_at = some (now + play_seconds);
  match_row = start_match now r.match_row;
  attempt =
      if is_active (r.attempt.attempt_state)
      then record (r.attempt) { deadline_at = some (now + play_seconds) }
      else r.attempt;
  events = (some user, room_playing) ∷ r.events;
}

unfoldable pub finished_room : ℕ → ℕ → Room → Room
finished_room user now r = record r {
  state = finished;
  state_deadline_at = none;
  match_row = map_option (end_match now) r.match_row;
  attempt = close_attempt succeeded none now r.attempt;
  events = (some user, room_finished) ∷ r.events;
}

unfoldable pub failed_room : ℕ → ℕ → Room → Room
failed_room user now r = record r {
  state = cancelled;
  state_deadline_at = none;
  attempt = close_attempt failed (some native_exit_before_start) now r.attempt;
  events = (some user, room_failed) ∷ r.events;
}

-- A match that starts now.
pub record Begins (user now : ℕ) (r r' : Room) : Type 0 where
  pub connects : r.state ≡ connecting
  pub two_inside : length r.members ≡ 2
  pub both : length r.participants ≡ length r.members
  pub to : r' ≡ playing_room user now r

pub begin_play-eq :
    (user now : ℕ) (r r' : Room) → begin_play user now r ≡ ok r' → (r' ≡ r) ⊎ Begins user now r r'
unfolding begin_play playing_room
begin_play-eq user now r r' h =
    elim (Bool-cases (
      is_connecting r.state
      && length r.members == 2
      && length r.participants == length r.members)) [
        | inl b ↦
            let h₁ = rw b at h in
            let (next, e₂, h₂) = through_first (apply r.state start) _ h₁ in
            let (from, to) = apply-start r.state next e₂ in
            let h₃ = rw to at h₂ in
            inr (record {
              connects = from;
              two_inside = ground arith;
              both = ground arith;
              to = cc h₃;
            })
        | inr b ↦ let h₁ = rw b at h in inl (cc h₁)
      ]

-- A match that ends now.
pub record Ends (user now : ℕ) (r r' : Room) : Type 0 where
  pub plays : r.state ≡ playing
  pub two_inside : length r.members ≡ 2
  pub all_ended : count_ended r.participants ≡ length r.members
  pub to : r' ≡ finished_room user now r

pub finish_play-eq :
    (user now : ℕ) (r r' : Room) → finish_play user now r ≡ ok r' → (r' ≡ r) ⊎ Ends user now r r'
unfolding finish_play finished_room
finish_play-eq user now r r' h =
    elim (Bool-cases (length r.members == 2 && count_ended r.participants == length r.members)) [
      | inl b ↦
          let h₁ = rw b at h in
          let (next, e₂, h₂) = through_first (apply r.state finish) _ h₁ in
          let (from, to) = apply-finish r.state next e₂ in
          let h₃ = rw to at h₂ in
          inr (record {
            plays = from;
            two_inside = ground arith;
            all_ended = ground arith;
            to = cc h₃;
          })
      | inr b ↦ let h₁ = rw b at h in inl (cc h₁)
    ]

pub fail_start-eq :
    (user now : ℕ) (r r' : Room) → fail_start user now r ≡ ok r' → r' ≡ failed_room user now r
unfolding fail_start failed_room
fail_start-eq user now r r' h =
    let (next, e₂, h₂) = through_first (apply r.state cancel) _ h in
    let to = apply-IsAbandon r.state next by_cancel e₂ in let h₃ = rw to at h₂ in cc h₃
