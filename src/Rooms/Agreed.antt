-- ===== src/Rooms/Agreed.antt =====
-- Challenges keep rooms consistent: apps/server/src/routes/challenges.rs.
use open_cade.Prelude.{
  sym, subst, [], ◌∷◌, ◌++◌, ◌+◌, Bool-cases, some, ◌≡◌, refl, ℕ, inl, inr, arith, true, false,
  ◌==◌, length, length-append, not,
}
use open_cade.Prelude.Text.{Text}
use open_cade.Protocol.{waiting, challenging, connecting}
use open_cade.RoomState.{accept}
use open_cade.Prelude.Outcome.{nothing-something}
use open_cade.Rooms.{
  ok, fail_if, forbidden, conflict, internal, Room, Challenge, accepted, challenge_accepted,
  is_member, apply, active,
}
use open_cade.Rooms.Results.{through_first, fail_if-ok, apply-accept}
use open_cade.Rooms.Lifecycle.{connect_seconds, is_waiting_for}
use open_cade.Rooms.Challenges.{
  supersede, challenge_room, require_pending, accept_challenge_body, is_challenging, is_accepted,
}
use open_cade.Rooms.Exit.{count_ended}
use open_cade.Rooms.Invariant.{IsConsistent}
use open_cade.Rooms.Preserved.{any_append, Seats-le, nobody_launched}

-- The room that the challenged user enters.
unfoldable pub welcomed : ℕ → ℕ → Challenge → Room → Room
welcomed user now c r = record r {
  state = connecting;
  state_deadline_at = some (now + connect_seconds);
  attempt = record (r.attempt) { deadline_at = some (now + connect_seconds) };
  members = r.members ++ user ∷ [];
  challenge = some (record c { challenge_state = accepted });
  events = (some user, challenge_accepted) ∷ r.events;
}

pub record Welcomes (user now : ℕ) (c : Challenge) (r r' : Room) : Type 0 where
  pub named : (c.challenged_id == user) ≡ true
  pub from : r.state ≡ challenging
  pub outside : is_member user r ≡ false
  pub to : r' ≡ welcomed user now c r

pub accept_challenge_body-eq :
    (user now : ℕ) (c : Challenge) (r r' : Room)
    → accept_challenge_body user now c r ≡ ok (some r')
    → Welcomes user now c r r'
unfolding accept_challenge_body welcomed
accept_challenge_body-eq user now c r r' e =
    let (_, e₁, h₁) = through_first (fail_if (not (c.challenged_id == user)) forbidden) _ e in
    elim (Bool-cases (is_accepted c.challenge_state)) [
      | inl b ↦ let h₂ = rw b at h₁ in absurd (nothing-something h₂)
      | inr b ↦
          let h₂ = rw b at h₁ in
          let (_, e₃, h₃) = through_first (require_pending c now) _ h₂ in
          let (_, e₄, h₄) = through_first (fail_if (not (is_challenging r.state)) conflict) _ h₃ in
          let (_, e₅, h₅) = through_first (fail_if (is_member user r) internal) _ h₄ in
          let (next, e₆, h₆) = through_first (apply r.state accept) _ h₅ in
          let (from, to) = apply-accept r.state next e₆ in
          let h₇ = rw to at h₆ in
          record {
            named = ground (arith, fail_if-ok _ _ e₁);
            from = ground (arith, fail_if-ok _ _ e₄);
            outside = fail_if-ok _ _ e₅;
            to = cc h₇;
          }
    ]

-- The challenged user who enters a consistent room leaves it consistent.
pub accept_challenge_body-IsConsistent :
    (user now : ℕ) (c : Challenge) (r r' : Room)
    → accept_challenge_body user now c r ≡ ok (some r')
    → IsConsistent r
    → IsConsistent r'
unfolding welcomed
accept_challenge_body-IsConsistent user now c r r' e h =
    let w = accept_challenge_body-eq user now c r r' e in
    let alone : length r.members ≡ 1 = rw w.from at h.seats in
    let running : r.attempt.attempt_state ≡ active = rw w.from at h.tracks in
    let two : length (r.members ++ user ∷ []) ≡ 2 =
      ground (arith, length-append r.members (user ∷ [])) in
    let h' : IsConsistent (welcomed user now c r) = record {
      two_players = h.two_players;
      host_inside = any_append (λ m. m == r.host_user_id) r.members (user ∷ []) h.host_inside;
      tracks = running;
      seats = two;
      launches = rw (nobody_launched r (inr w.from) h.launches) (tt, tt);
      due = (_, refl);
    } in
    subst IsConsistent (sym w.to) h'

pub challenge_room-IsConsistent :
    (user other id : ℕ) (game : Text) (now : ℕ)
    → IsConsistent (challenge_room user other id game now)
unfolding challenge_room count_ended
challenge_room-IsConsistent user other id game now = record {
  two_players = refl;
  host_inside = ground arith;
  tracks = refl;
  seats = refl;
  launches = refl;
  due = (_, refl);
}

pub is_waiting_for-waiting :
    (user : ℕ) (game : Text) (r : Room) → is_waiting_for user game r ≡ true → r.state ≡ waiting
unfolding is_waiting_for
is_waiting_for-waiting user game r h = ground arith

-- A waiting room that is given up stays consistent, and so does every other room.
pub supersede-IsConsistent :
    (user : ℕ) (game : Text) (now : ℕ) (r : Room)
    → IsConsistent r
    → IsConsistent (supersede user game now r)
unfolding supersede
supersede-IsConsistent user game now r h = elim (Bool-cases (is_waiting_for user game r)) [
  | inr b ↦ rw b h
  | inl b ↦
      let from = is_waiting_for-waiting user game r b in
      let running : r.attempt.attempt_state ≡ active = rw from at h.tracks in
      rw b (record {
        two_players = h.two_players;
        host_inside = h.host_inside;
        tracks = rw running (λ e. cc, λ e. cc);
        seats = Seats-le r.state _ h.seats;
        launches = tt;
        due = tt;
      })
]
