-- ===== src/Rooms/Preserved.antt =====
-- Every operation on a room keeps its rows consistent: apps/server/src/routes/rooms.rs.
use open_cade.Prelude.Outcome.{nothing-something}
use open_cade.Rooms.{
  is_active, attempt_cancelled, succeeded, room_cancelled, AttemptState, Attempt, conflict,
  forbidden, fail_if, active, ok, Room, is_member, close_attempt, apply,
}
use open_cade.Rooms.Lifecycle.{
  is_started, seat, new_room, accept_body, add_member, change_room_state, cancel_rows,
}
use open_cade.Rooms.Results.{
  through_first, fail_if-ok, apply-accept, IsAbandon, by_cancel, by_decline, apply-IsAbandon,
}
use open_cade.Prelude.{
  sym, ap, subst, ◌∙◌, leb, ◌⊎◌, ℕ, ◌+◌, ◌≤◌, ◌≡◌, ◌≢◌, refl, Bool, true, false, ◌&&◌, not, none,
  some, List, [], ◌∷◌, ◌++◌, length, any, arith, Bool-cases, inl, inr, length-append, ◌==◌,
}
use open_cade.Prelude.Text.{Text}
use open_cade.Protocol.{RoomState, waiting, ready, challenging, connecting, finished, cancelled}
use open_cade.RoomState.{RoomEvent, accept, transition}
use open_cade.Rooms.Exit.{count_ended}
use open_cade.Rooms.Invariant.{IsConsistent, Tracks, Seats, Launches}

pub new_room-IsConsistent :
    (user : ℕ) (game : Text) (now : ℕ) → IsConsistent (new_room user game 2 now)
unfolding new_room count_ended
new_room-IsConsistent user game now = record {
  two_players = refl;
  host_inside = ground arith;
  tracks = refl;
  seats = refl;
  launches = refl;
  due = (_, refl);
}

pub any_append : (p : ℕ → Bool) (xs ys : List ℕ) → any p xs ≡ true → any p (xs ++ ys) ≡ true
any_append p [] ys h = cc
any_append p (x ∷ xs) ys h = ground (arith, any_append p xs ys)

length-add_member : (user : ℕ) (r : Room) → length (add_member user r) ≤ length r.members + 1
unfolding add_member
length-add_member user r = ground (arith, length-append r.members (user ∷ []))

-- Two users who are both in a list of one are one.
pub one_member :
    (ms : List ℕ) (u v : ℕ)
    → length ms ≡ 1
    → any (λ m. m == u) ms ≡ true
    → any (λ m. m == v) ms ≡ true
    → u ≡ v
one_member [] u v l p q = cc
one_member (m ∷ []) u v l p q = ground arith
one_member (m ∷ n ∷ ms) u v l p q = absurd (omega arith)

pub accept_body-eq :
    (user now : ℕ) (r r' : Room)
    → accept_body user now r ≡ ok (some r')
    → ((r.host_user_id == user) ≡ false)
      × ((r.state ≡ waiting) ⊎ (r.state ≡ challenging))
      × (r' ≡ seat user now connecting r)
unfolding accept_body
accept_body-eq user now r r' e =
    let (_, e₁, h₁) = through_first (fail_if (r.host_user_id == user) forbidden) _ e in
    elim (Bool-cases (is_member user r && is_started r.state)) [
      | inl inside ↦ let h₂ = rw inside at h₁ in absurd (nothing-something h₂)
      | inr outside ↦
          let h₂ = rw outside at h₁ in
          let (_, e₃, h₃) =
            through_first (fail_if (leb r.max_players (length r.members)) conflict) _ h₂ in
          let (next, e₄, h₄) = through_first (apply r.state accept) _ h₃ in
          let (from, to) = apply-accept r.state next e₄ in
          let same : seat user now next r ≡ r' = cc h₄ in
          (fail_if-ok _ _ e₁, from, sym same ∙ ap (λ (t : RoomState). seat user now t r) to)
    ]

pub nobody_launched :
    (r : Room)
    → (r.state ≡ waiting) ⊎ (r.state ≡ challenging)
    → Launches r.state r.members r.participants
    → r.participants ≡ []
nobody_launched r (inl w) h = rw w at h
nobody_launched r (inr c) h = rw c at h

pub seat-IsConsistent :
    (user now : ℕ) (r : Room)
    → (r.host_user_id == user) ≡ false
    → (r.state ≡ waiting) ⊎ (r.state ≡ challenging)
    → IsConsistent r
    → IsConsistent (seat user now connecting r)
unfolding seat add_member
seat-IsConsistent user now r apart s h =
    let alone : length r.members ≡ 1 = ground (arith, h.seats) in
    let active_still : r.attempt.attempt_state ≡ active = ground (arith, h.tracks) in
    let newcomer : is_member user r ≡ false = elim (Bool-cases (is_member user r)) [
      | inl inside ↦
          let same = one_member r.members r.host_user_id user alone h.host_inside inside in
          ground arith
      | inr outside ↦ outside
    ] in
    let two : length (add_member user r) ≡ 2 =
      ground (arith, length-append r.members (user ∷ [])) in
    let host_stays : any (λ m. m == r.host_user_id) (add_member user r) ≡ true =
      ground (arith, any_append (λ m. m == r.host_user_id) r.members (user ∷ []) h.host_inside) in
    record {
      two_players = h.two_players;
      host_inside = host_stays;
      tracks = active_still;
      seats = two;
      launches = rw (nobody_launched r s h.launches) (tt, tt);
      due = (_, refl);
    }

-- A user who enters a consistent room leaves it consistent: it has two members and connects.
pub accept_body-IsConsistent :
    (user now : ℕ) (r r' : Room)
    → accept_body user now r ≡ ok (some r')
    → IsConsistent r
    → IsConsistent r'
accept_body-IsConsistent user now r r' e h =
    let (apart, from, same) = accept_body-eq user now r r' e in
    subst IsConsistent (sym same) (seat-IsConsistent user now r apart from h)

pub close_attempt-settled :
    (now : ℕ) (a : Attempt)
    → a.attempt_state ≢ succeeded
    → ((close_attempt attempt_cancelled none now a).attempt_state ≢ active)
      × ((close_attempt attempt_cancelled none now a).attempt_state ≢ succeeded)
unfolding close_attempt
close_attempt-settled now a h = elim (Bool-cases (is_active a.attempt_state)) [
  | inl b ↦ rw b (λ e. cc, λ e. cc)
  | inr b ↦ rw b (λ e. absurd (ground arith), h)
]

-- Only a finished room has a succeeded attempt.
pub Tracks-unfinished :
    (s : RoomState) (a : AttemptState) → s ≢ finished → Tracks s a → a ≢ succeeded
Tracks-unfinished finished a n h e = absurd (n refl)
Tracks-unfinished cancelled a n h e = h.1 e
Tracks-unfinished _ a n h e = cc

pub Seats-le : (s : RoomState) (n : ℕ) → Seats s n → n ≤ 2
Seats-le waiting n h = omega arith
Seats-le ready n h = h
Seats-le cancelled n h = h
Seats-le _ n h = omega arith

apply-IsAbandon-open :
    (s t : RoomState) {e : RoomEvent} → IsAbandon e → apply s e ≡ ok t → s ≢ finished
unfolding transition
apply-IsAbandon-open s t by_cancel h q = ground arith
apply-IsAbandon-open s t by_decline h q = ground arith

-- What `change_room_state` leaves of an abandoned room.
unfoldable pub abandoned : ℕ → ℕ → Room → Room
unfolding cancel_rows
abandoned user now r =
    let moved : Room = record r { state = cancelled; state_deadline_at = none } in
    record (cancel_rows now moved) { events = (some user, room_cancelled) ∷ r.events }

pub change_room_state-eq :
    (user now : ℕ) {event : RoomEvent} (host_only : Bool) (r r' : Room)
    → IsAbandon event
    → change_room_state user now event host_only r ≡ ok r'
    → (r.state ≢ finished) × (r' ≡ abandoned user now r)
unfolding change_room_state cancel_rows abandoned
change_room_state-eq user now {event} host_only r r' a e =
    let (_, _, h₁) =
      through_first (fail_if (host_only && not (r.host_user_id == user)) forbidden) _ e in
    let (_, _, h₂) =
      through_first (fail_if (not host_only && not (is_member user r)) forbidden) _ h₁ in
    let (next, e₃, h₃) = through_first (apply r.state event) _ h₂ in
    let to = apply-IsAbandon r.state next a e₃ in
    let h₄ = rw to at h₃ in (apply-IsAbandon-open r.state next a e₃, cc)

abandoned-IsConsistent :
    (user now : ℕ) (r : Room)
    → r.state ≢ finished
    → IsConsistent r
    → IsConsistent (abandoned user now r)
unfolding abandoned cancel_rows
abandoned-IsConsistent user now r n h = record {
  two_players = h.two_players;
  host_inside = h.host_inside;
  tracks = close_attempt-settled now r.attempt (Tracks-unfinished r.state _ n h.tracks);
  seats = Seats-le r.state _ h.seats;
  launches = tt;
  due = tt;
}

-- A room that is declined or cancelled stays consistent.
pub change_room_state-IsConsistent :
    (user now : ℕ) {event : RoomEvent} (host_only : Bool) (r r' : Room)
    → IsAbandon event
    → change_room_state user now event host_only r ≡ ok r'
    → IsConsistent r
    → IsConsistent r'
change_room_state-IsConsistent user now host_only r r' a e h =
    let (unfinished, same) = change_room_state-eq user now host_only r r' a e in
    subst IsConsistent (sym same) (abandoned-IsConsistent user now r unfinished h)
