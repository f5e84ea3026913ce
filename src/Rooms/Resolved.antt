-- ===== src/Rooms/Resolved.antt =====
-- `resolve_challenge` of apps/server/src/routes/challenges.rs, in each state of the room.
use open_cade.Prelude.{
  sym, subst, ◌∷◌, none, some, ◌≡◌, ◌≢◌, refl, ℕ, arith, Bool, true, ◌==◌, not, if◌then◌else◌,
}
use open_cade.Protocol.{finished, cancelled}
use open_cade.Rooms.{
  ok, fail_if, forbidden, Room, Challenge, declined, challenge_cancelled, challenge_cancelled_event,
  challenge_declined, succeeded, attempt_cancelled, close_attempt,
}
use open_cade.Rooms.Results.{through_first}
use open_cade.Rooms.Challenges.{require_pending, resolve_challenge_body}
use open_cade.Rooms.Invariant.{IsConsistent}
use open_cade.Rooms.Preserved.{close_attempt-settled, Tracks-unfinished, Seats-le}

-- What `resolve_challenge` writes.
unfoldable pub resolved : ℕ → ℕ → Bool → Challenge → Room → Room
resolved user now is_cancel c r = record r {
  state = cancelled;
  state_deadline_at = none;
  challenge =
      some (record c { challenge_state = if is_cancel then challenge_cancelled else declined });
  attempt = close_attempt attempt_cancelled none now r.attempt;
  events =
      (some user, if is_cancel then challenge_cancelled_event else challenge_declined) ∷ r.events;
}

abbrev pub may_resolve : ℕ → Bool → Challenge → Bool
may_resolve user is_cancel c =
    if is_cancel then c.challenger_id == user else c.challenged_id == user

pub resolve_challenge_body-eq :
    (user now : ℕ) (is_cancel : Bool) (c : Challenge) (r r' : Room)
    → resolve_challenge_body user now is_cancel c r ≡ ok r'
    → r' ≡ resolved user now is_cancel c r
unfolding resolve_challenge_body resolved
resolve_challenge_body-eq user now is_cancel c r r' e =
    let (_, e₁, h₁) = through_first (fail_if (not (may_resolve user is_cancel c)) forbidden) _ e in
    let (_, e₂, h₂) = through_first (require_pending c now) _ h₁ in cc h₂

-- A challenge that is resolved leaves a consistent room consistent, unless the room is finished.
pub resolve_challenge_body-IsConsistent :
    (user now : ℕ) (is_cancel : Bool) (c : Challenge) (r r' : Room)
    → r.state ≢ finished
    → resolve_challenge_body user now is_cancel c r ≡ ok r'
    → IsConsistent r
    → IsConsistent r'
unfolding resolved
resolve_challenge_body-IsConsistent user now is_cancel c r r' n e h =
    let h' : IsConsistent (resolved user now is_cancel c r) = record {
      two_players = h.two_players;
      host_inside = h.host_inside;
      tracks = close_attempt-settled now r.attempt (Tracks-unfinished r.state _ n h.tracks);
      seats = Seats-le r.state _ h.seats;
      launches = tt;
      due = tt;
    } in
    subst IsConsistent (sym (resolve_challenge_body-eq user now is_cancel c r r' e)) h'

resolve_challenge_body-runs :
    (user now : ℕ) (is_cancel : Bool) (c : Challenge) (r : Room)
    → may_resolve user is_cancel c ≡ true
    → require_pending c now ≡ ok tt
    → resolve_challenge_body user now is_cancel c r ≡ ok (resolved user now is_cancel c r)
unfolding resolve_challenge_body resolved
resolve_challenge_body-runs user now is_cancel c r m p = rw m (rw p refl)

resolved-finished :
    (user now : ℕ) (is_cancel : Bool) (c : Challenge) (r : Room)
    → r.attempt.attempt_state ≡ succeeded
    → ¬ IsConsistent (resolved user now is_cancel c r)
unfolding resolved close_attempt
resolved-finished user now is_cancel c r s h =
    let kept : (close_attempt attempt_cancelled none now r.attempt).attempt_state ≡ succeeded =
      ground arith in
    h.tracks.1 kept

-- In a consistent room that is finished, the challenger of a challenge that is still pending can
-- cancel it, and the challenged user can decline it: the room becomes cancelled beside its
-- succeeded attempt, and its rows are consistent no more.
pub resolve_challenge_body-unguarded :
    (user now : ℕ) (is_cancel : Bool) (c : Challenge) (r : Room)
    → may_resolve user is_cancel c ≡ true
    → require_pending c now ≡ ok tt
    → r.state ≡ finished
    → IsConsistent r
    → (r' : Room) × (resolve_challenge_body user now is_cancel c r ≡ ok r')
      × (r'.state ≡ cancelled)
      × (r'.attempt.attempt_state ≡ succeeded)
      × ¬ IsConsistent r'
unfolding resolved close_attempt
resolve_challenge_body-unguarded user now is_cancel c r m p s h =
    let won : r.attempt.attempt_state ≡ succeeded = rw s at h.tracks in
    (
      resolved user now is_cancel c r,
      resolve_challenge_body-runs user now is_cancel c r m p,
      refl,
      ground arith,
      resolved-finished user now is_cancel c r won,
    )
