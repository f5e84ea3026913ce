-- ===== src/Rooms/Steps.antt =====
-- The life of a room: the changes that the handlers of apps/server/src/routes/rooms.rs, challenges.rs
-- and alpha.rs and the reconciler of apps/server/src/lifecycle.rs make to its rows are steps, but for the
-- resolution of a challenge whose room has finished.
use open_cade.Prelude.{
  ◌∙◌, sym, subst, ◌∷◌, none, true, false, ◌&&◌, ap, Bool-cases, some, Option, ◌≡◌, ◌≢◌, ◌⊎◌, refl,
  ℕ, inl, inr, arith, Bool, List,
}
use open_cade.Rooms.{apply, room_invite_created, ok, Room, Challenge, LaunchGrant}
use open_cade.Rooms.Results.{apply-accept, IsAbandon}
use open_cade.Rooms.Launch.{extend_attempt, launch_body, entered, begin_play}
use open_cade.Rooms.Lifecycle.{
  expire_challenge, new_room, accept_body, seat, change_room_state, expire_room, can_expire,
  is_past, is_waiting_for,
}
use open_cade.Rooms.Contested.{expire_challenge-IsConsistent, extend_attempt-IsConsistent}
use open_cade.Alpha.{Payload, Setup, published, submit_preflight, ready_to_launch}
use open_cade.Alpha.Invites.{withdrawn, joined}
use open_cade.Alpha.Invites.Joined.{withdrawn-IsConsistent, joined-IsConsistent}
use open_cade.Alpha.Receipts.{set_cancelled, next_room_of}
use open_cade.Alpha.Kept.{
  noted-IsConsistent, published-IsConsistent, submit_preflight-room, ready_to_launch-room,
  next_room_of-IsConsistent,
}
use open_cade.Prelude.Int.{ℤ}
use open_cade.Prelude.Text.{Text}
use open_cade.Protocol.{RoomState, waiting, challenging, connecting, finished, cancelled}
use open_cade.RoomState.{RoomEvent, accept, start, finish, cancel}
use open_cade.RoomState.Laws.{
  Edge, open_accept, challenge_accept, begin, finish_match, cancels, live, progress, Edge-advances,
  progress_le, IsTerminal, is_finished, is_cancelled,
}
use open_cade.Rooms.Exit.{exit_body, end_participant}
use open_cade.Rooms.Challenges.{
  supersede, challenge_room, accept_challenge_body, resolve_challenge_body,
}
use open_cade.Rooms.Invariant.{IsConsistent}
use open_cade.Rooms.Preserved.{
  new_room-IsConsistent, accept_body-eq, accept_body-IsConsistent, change_room_state-eq,
  change_room_state-IsConsistent, abandoned,
}
use open_cade.Rooms.Inversion.{
  launch_body-eq, exit_body-eq, begin_play-eq, finish_play-eq, put, fresh, playing_room,
  finished_room, failed_room,
}
use open_cade.Rooms.Runtime.{launch_body-IsConsistent}
use open_cade.Rooms.Ending.{
  exit_body-IsConsistent, exit_cases, exit_connecting, exit_playing, exit_late,
}
use open_cade.Rooms.Agreed.{
  accept_challenge_body-eq, accept_challenge_body-IsConsistent, challenge_room-IsConsistent,
  supersede-IsConsistent, is_waiting_for-waiting, welcomed,
}
use open_cade.Rooms.Resolved.{
  resolved, resolve_challenge_body-eq, resolve_challenge_body-IsConsistent,
}
use open_cade.Rooms.Deadline.{expire_room-IsConsistent, can_expire-finished}

-- `resolves` leaves out the finished rooms, in which `resolve_challenge` goes wrong. `joins` and
-- `withdraws` are what `join_invite` does to the room that is entered and to the rooms given up for it,
-- `sets_up`, `gets_ready` and `invites` what the setup of a campaign match shows of itself, and `halts`
-- what `create_match_receipt` does to every room.
pub data RoomStep : Room → Room → Type 0 where
  accepts : {r r' : Room} (user now : ℕ) → accept_body user now r ≡ ok (some r') → RoomStep r r'
  abandons :
      {r r' : Room} {e : RoomEvent} (user now : ℕ) (host_only : Bool)
      → IsAbandon e
      → change_room_state user now e host_only r ≡ ok r'
      → RoomStep r r'
  launches :
      {r r' : Room} (user id now : ℕ) (gs : List LaunchGrant)
      → launch_body user id now gs r ≡ ok (entered r')
      → RoomStep r r'
  exits :
      {r r' : Room} (user now : ℕ) (code : Option ℤ)
      → exit_body user now code r ≡ ok r'
      → RoomStep r r'
  welcomes :
      {r r' : Room} (user now : ℕ) (c : Challenge)
      → accept_challenge_body user now c r ≡ ok (some r')
      → RoomStep r r'
  resolves :
      {r r' : Room} (user now : ℕ) (is_cancel : Bool) (c : Challenge)
      → r.state ≢ finished
      → resolve_challenge_body user now is_cancel c r ≡ ok r'
      → RoomStep r r'
  supersedes :
      {r : Room} (user : ℕ) (game : Text) (now : ℕ) → RoomStep r (supersede user game now r)
  expires : {r : Room} (now : ℕ) → RoomStep r (expire_room now r)
  lapses : {r : Room} (now : ℕ) → RoomStep r (expire_challenge now r)
  extends : {r : Room} (now : ℕ) → RoomStep r (extend_attempt now r)
  sets_up :
      {r : Room} (show_uuid : ℕ → Text) (id user now : ℕ) (p : Payload) (s s' : Setup)
      → s.room ≡ r
      → submit_preflight show_uuid id user now p s ≡ ok s'
      → RoomStep r (published s')
  gets_ready :
      {r : Room} (user now : ℕ) (s s' : Setup)
      → s.room ≡ r
      → ready_to_launch user now s ≡ ok s'
      → RoomStep r (published s')
  invites : {r : Room} → RoomStep r (record r { events = (none, room_invite_created) ∷ r.events })
  joins :
      {r : Room} (user now : ℕ) (reached : RoomState)
      → apply r.state accept ≡ ok reached
      → RoomStep r (joined user now reached r)
  withdraws :
      {r : Room} (user : ℕ) (game : Text) (now : ℕ)
      → is_waiting_for user game r ≡ true
      → RoomStep r (withdrawn now r)
  halts : {r : Room} (user : ℕ) (game : Text) → RoomStep r (set_cancelled user game r)

-- A receipt must not cancel the room: its attempt would run on.
abbrev pub Keeps : {r r' : Room} → RoomStep r r' → Type 0
Keeps {r} (halts user game) = is_waiting_for user game r ≡ false
Keeps _ = Unit

step-IsConsistent : {r r' : Room} (s : RoomStep r r') → Keeps s → IsConsistent r → IsConsistent r'
unfolding set_cancelled
step-IsConsistent (accepts user now e) k h = accept_body-IsConsistent user now _ _ e h
step-IsConsistent (abandons user now host_only a e) k h =
    change_room_state-IsConsistent user now host_only _ _ a e h
step-IsConsistent (launches user id now gs e) k h = launch_body-IsConsistent user id now gs _ _ e h
step-IsConsistent (exits user now code e) k h = exit_body-IsConsistent user now code _ _ e h
step-IsConsistent (welcomes user now c e) k h =
    accept_challenge_body-IsConsistent user now c _ _ e h
step-IsConsistent (resolves user now is_cancel c n e) k h =
    resolve_challenge_body-IsConsistent user now is_cancel c _ _ n e h
step-IsConsistent (supersedes user game now) k h = supersede-IsConsistent user game now _ h
step-IsConsistent (expires now) k h = expire_room-IsConsistent now _ h
step-IsConsistent (lapses now) k h = expire_challenge-IsConsistent now _ h
step-IsConsistent (extends now) k h = extend_attempt-IsConsistent now _ h
step-IsConsistent (sets_up show_uuid id user now p s s' here e) k h =
    published-IsConsistent s'
      (subst IsConsistent (sym here ∙ submit_preflight-room show_uuid id user now p s e) h)
step-IsConsistent (gets_ready user now s s' here e) k h =
    published-IsConsistent s' (subst IsConsistent (sym here ∙ ready_to_launch-room user now s e) h)
step-IsConsistent {r} {r'} invites k h = noted-IsConsistent r r' refl h
step-IsConsistent {r} (joins user now reached e) k h =
    let (from, to) = apply-accept r.state reached e in
    subst (λ (t : RoomState). IsConsistent (joined user now t r)) (sym to)
      (joined-IsConsistent user now r from h)
step-IsConsistent {r} (withdraws user game now its) k h =
    withdrawn-IsConsistent now r (is_waiting_for-waiting user game r its) h
step-IsConsistent {r} (halts user game) k h = rw k h

-- A room as it is made, and what steps make of it.
pub data Reached : Room → Type 0 where
  opened : (user : ℕ) (game : Text) (now : ℕ) → Reached (new_room user game 2 now)
  challenged :
      (user other id : ℕ) (game : Text) (now : ℕ) → Reached (challenge_room user other id game now)
  continued : (user : ℕ) (game : Text) (now : ℕ) → Reached (next_room_of user game now)
  next : {r r' : Room} → Reached r → (s : RoomStep r r') → Keeps s → Reached r'

-- Whatever the handlers of rooms.rs, challenges.rs and alpha.rs and the reconciler did to a room since it
-- was made, in any order, its rows are consistent, if no challenge was resolved after its room had
-- finished and no receipt cancelled the room while it waited: there are two players at most and the host is one, a room that connects or plays has both, the attempt is active, succeeded
-- or neither as the room is open, finished or cancelled, both members have launched once it plays and
-- ended once it is finished, and an open room has a deadline.
pub reached-IsConsistent : {r : Room} → Reached r → IsConsistent r
reached-IsConsistent (opened user game now) = new_room-IsConsistent user game now
reached-IsConsistent (challenged user other id game now) =
    challenge_room-IsConsistent user other id game now
reached-IsConsistent (continued user game now) = next_room_of-IsConsistent user game now
reached-IsConsistent (next h s k) = step-IsConsistent s k (reached-IsConsistent h)

-- A step of the state machine, or none.
abbrev pub Follows : RoomState → RoomState → Type 0
Follows s t = (t ≡ s) ⊎ ((e : RoomEvent) × Edge s e t)

abandon-Follows : (s : RoomState) → s ≢ finished → Follows s cancelled
abandon-Follows finished n = absurd (n refl)
abandon-Follows cancelled n = inl refl
abandon-Follows _ n = inr (cancel, cancels (live (omega arith)))

accept-Follows : (s : RoomState) → (s ≡ waiting) ⊎ (s ≡ challenging) → Follows s connecting
accept-Follows s (inl q) = rw q (inr (accept, open_accept))
accept-Follows s (inr q) = rw q (inr (accept, challenge_accept))

launch-Follows :
    (user now : ℕ) (r r' : Room) → begin_play user now r ≡ ok r' → Follows r.state r'.state
unfolding playing_room
launch-Follows user now r r' e = elim (begin_play-eq user now r r' e) [
  | inl same ↦ inl (ap (λ (x : Room). x.state) same)
  | inr b ↦ rw (ap (λ (x : Room). x.state) b.to) (rw b.connects (inr (start, begin)))
]

exit-Follows :
    (user now : ℕ) (code : Option ℤ) (r r' : Room)
    → exit_body user now code r ≡ ok r'
    → Follows r.state r'.state
unfolding finished_room failed_room
exit-Follows user now code r r' e =
    let (p, q, may, x) = exit_body-eq user now code r r' e in
    let r₁ : Room = put user (end_participant now code p) r in
    elim (exit_cases r.state may) [
      | inl s ↦
          rw (ap (λ (x : Room). x.state) (exit_connecting r.state user now r₁ r' s x))
            (abandon-Follows r.state (λ f. ground arith))
      | inr (inl s) ↦
          elim (finish_play-eq user now r₁ r' (exit_playing r.state user now r₁ r' s x)) [
            | inl same ↦ inl (ap (λ (x : Room). x.state) same)
            | inr b ↦ rw (ap (λ (x : Room). x.state) b.to) (rw b.plays (inr (finish, finish_match)))
          ]
      | inr (inr s) ↦ inl (ap (λ (x : Room). x.state) (exit_late r.state user now r₁ r' s x))
    ]

supersede-Follows :
    (user : ℕ) (game : Text) (now : ℕ) (r : Room)
    → Follows r.state (supersede user game now r).state
unfolding supersede
supersede-Follows user game now r = elim (Bool-cases (is_waiting_for user game r)) [
  | inl b ↦
      rw b (abandon-Follows r.state (λ f. ground (arith, is_waiting_for-waiting user game r b)))
  | inr b ↦ rw b (inl refl)
]

halt-Follows :
    (user : ℕ) (game : Text) (r : Room) → Follows r.state (set_cancelled user game r).state
unfolding set_cancelled
halt-Follows user game r = elim (Bool-cases (is_waiting_for user game r)) [
  | inl b ↦
      rw b (abandon-Follows r.state (λ f. ground (arith, is_waiting_for-waiting user game r b)))
  | inr b ↦ rw b (inl refl)
]

expire-Follows : (now : ℕ) (r : Room) → Follows r.state (expire_room now r).state
unfolding expire_room
expire-Follows now r = elim (Bool-cases (can_expire r.state && is_past r.state_deadline_at now)) [
  | inl b ↦ rw b (abandon-Follows r.state (can_expire-finished r.state (ground arith)))
  | inr b ↦ rw b (inl refl)
]

-- Every step that the handlers of rooms.rs, challenges.rs and alpha.rs and the reconciler take with a
-- room, but for the resolution of a challenge whose room has finished, leaves its state or changes it
-- along an edge of the state machine, also where the code writes the state without asking `transition`.
pub step-Follows : {r r' : Room} → RoomStep r r' → Follows r.state r'.state
unfolding seat abandoned welcomed resolved joined withdrawn published extend_attempt
    expire_challenge
step-Follows {r} {r'} (accepts user now e) =
    let (_, from, to) = accept_body-eq user now r r' e in
    rw (ap (λ (x : Room). x.state) to) (accept-Follows r.state from)
step-Follows {r} {r'} (abandons user now host_only a e) =
    let (n, to) = change_room_state-eq user now host_only r r' a e in
    rw (ap (λ (x : Room). x.state) to) (abandon-Follows r.state n)
step-Follows {r} {r'} (launches user id now gs e) =
    launch-Follows user now (put user fresh r) r' (launch_body-eq user id now gs r r' e).plays
step-Follows {r} {r'} (exits user now code e) = exit-Follows user now code r r' e
step-Follows {r} {r'} (welcomes user now c e) =
    let w = accept_challenge_body-eq user now c r r' e in
    rw (ap (λ (x : Room). x.state) w.to) (accept-Follows r.state (inr w.from))
step-Follows {r} {r'} (resolves user now is_cancel c n e) =
    rw (ap (λ (x : Room). x.state) (resolve_challenge_body-eq user now is_cancel c r r' e))
      (abandon-Follows r.state n)
step-Follows {r} (supersedes user game now) = supersede-Follows user game now r
step-Follows {r} (expires now) = expire-Follows now r
step-Follows (lapses now) = inl refl
step-Follows (extends now) = inl refl
step-Follows (sets_up show_uuid id user now p s s' here e) =
    inl
      (ap (λ (x : Room). x.state) (sym (submit_preflight-room show_uuid id user now p s e) ∙ here))
step-Follows (gets_ready user now s s' here e) =
    inl (ap (λ (x : Room). x.state) (sym (ready_to_launch-room user now s e) ∙ here))
step-Follows invites = inl refl
step-Follows {r} (joins user now reached e) =
    let (from, to) = apply-accept r.state reached e in rw to (accept-Follows r.state from)
step-Follows {r} (withdraws user game now its) =
    rw (is_waiting_for-waiting user game r its) (inr (cancel, cancels (live (omega arith))))
step-Follows {r} (halts user game) = halt-Follows user game r

last : {s : RoomState} → IsTerminal s → progress s ≡ 3
last is_finished = refl
last is_cancelled = refl

no-Edge : {s t : RoomState} {e : RoomEvent} → Edge s e t → ¬ IsTerminal s
no-Edge {s} {t} edge h = omega (arith, Edge-advances edge, progress_le t, last h)

-- A room that is finished or cancelled keeps its state under every step, a challenge being resolved
-- only before its room has finished.
pub step-IsTerminal : {r r' : Room} → RoomStep r r' → IsTerminal r.state → r'.state ≡ r.state
step-IsTerminal {r} {r'} s h = elim (step-Follows s) [
  | inl same ↦ same
  | inr (e, edge) ↦ absurd (no-Edge edge h)
]
