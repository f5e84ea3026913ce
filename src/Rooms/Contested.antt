-- ===== src/Rooms/Contested.antt =====
-- The challenge routes and the reconciler against the whole database:
-- apps/server/src/routes/challenges.rs and apps/server/src/lifecycle.rs.
use open_cade.Prelude.{
  leb, ℕ, ◌==◌, ◌≡◌, ◌≢◌, subst, [], ◌∷◌, Bool, not, Option, none, some, Bool-cases, Option-cases,
  inl, inr,
}
use open_cade.Prelude.Assoc.{Assoc, lookup, insert, Values, Values-insert, Values-lookup, nat_eq}
use open_cade.Prelude.Text.{Text, is_blank}
use open_cade.Rooms.{
  fail_if, bad_request, not_found, rate_limited, conflict, Challenge, Result, ok, Room, Database,
}
use open_cade.Rooms.Results.{through_first}
use open_cade.Rooms.Lifecycle.{expire_challenge}
use open_cade.Rooms.Launch.{extend_attempt}
use open_cade.Rooms.Challenges.{
  has_pending, supersede, map_rooms, challenge_room, create_challenge, accept_challenge_body,
  accept_challenge, find_challenge,
}
use open_cade.Rooms.Invariant.{IsConsistent}
use open_cade.Rooms.Agreed.{
  accept_challenge_body-IsConsistent, challenge_room-IsConsistent, supersede-IsConsistent,
}
use open_cade.Rooms.Deadline.{expire_room-IsConsistent}
use open_cade.Rooms.Resolved.{resolve_challenge_body-IsConsistent}
use open_cade.Protocol.{finished}
use open_cade.Rooms.Lifecycle.{expire_room}
use open_cade.Rooms.Challenges.{resolve_challenge, resolve_challenge_body}
use open_cade.Rooms.Whole.{Consistent}

pub expire_challenge-IsConsistent :
    (now : ℕ) (r : Room) → IsConsistent r → IsConsistent (expire_challenge now r)
unfolding expire_challenge
expire_challenge-IsConsistent now r h = record {
  two_players = h.two_players;
  host_inside = h.host_inside;
  tracks = h.tracks;
  seats = h.seats;
  launches = h.launches;
  due = h.due;
}

pub extend_attempt-IsConsistent :
    (now : ℕ) (r : Room) → IsConsistent r → IsConsistent (extend_attempt now r)
unfolding extend_attempt
extend_attempt-IsConsistent now r h = record {
  two_players = h.two_players;
  host_inside = h.host_inside;
  tracks = h.tracks;
  seats = h.seats;
  launches = h.launches;
  due = h.due;
}

pub map_rooms-Consistent :
    (f : Room → Room) (rs : Assoc ℕ Room)
    → ((r : Room) → IsConsistent r → IsConsistent (f r))
    → Values IsConsistent rs
    → Values IsConsistent (map_rooms f rs)
unfolding map_rooms
map_rooms-Consistent f [] keeps h = tt
map_rooms-Consistent f ((id, r) ∷ rs) keeps h = (keeps r h.0, map_rooms-Consistent f rs keeps h.1)

pub create_challenge-Consistent :
    (user_exists : ℕ → Bool) (game_exists : Text → Bool) (recent user other : ℕ) (game : Text)
    (id challenge_id now : ℕ) (db db' : Database)
    → create_challenge user_exists game_exists recent user other game id challenge_id now db
      ≡ ok db'
    → Consistent db
    → Consistent db'
unfolding create_challenge
create_challenge-Consistent user_exists game_exists recent user other game id challenge_id now db
      db' e h =
    let (_, _, h₁) = through_first (fail_if (is_blank game) bad_request) _ e in
    let (_, _, h₂) = through_first (fail_if (other == user) bad_request) _ h₁ in
    let (_, _, h₃) = through_first (fail_if (not (user_exists other)) not_found) _ h₂ in
    let (_, _, h₄) = through_first (fail_if (not (game_exists game)) not_found) _ h₃ in
    let (_, _, h₅) = through_first (fail_if (leb 10 recent) rate_limited) _ h₄ in
    let freed : Assoc ℕ Room =
      map_rooms (supersede user game now) (map_rooms (expire_challenge now) db.rooms) in
    let (_, _, h₆) = through_first (fail_if (has_pending user other freed) conflict) _ h₅ in
    let swept =
      map_rooms-Consistent (expire_challenge now) db.rooms (expire_challenge-IsConsistent now) h in
    let kept : Values IsConsistent freed =
      map_rooms-Consistent (supersede user game now) _ (supersede-IsConsistent user game now)
        swept in
    let made : Database = record db {
      rooms = insert id (challenge_room user other challenge_id game now) freed;
    } in
    let same : made ≡ db' = cc h₆ in
    subst Consistent same (
      Values-insert IsConsistent id _ freed
        (challenge_room-IsConsistent user other challenge_id game now) kept)

find_challenge-IsConsistent :
    (id : ℕ) (rs : Assoc ℕ Room) (room_id : ℕ) (c : Challenge) (r : Room)
    → find_challenge id rs ≡ some (room_id, c, r)
    → Values IsConsistent rs
    → IsConsistent r
unfolding find_challenge
find_challenge-IsConsistent id [] room_id c r e h = cc
find_challenge-IsConsistent id ((k, x) ∷ rs) room_id c r e h = elim (Option-cases (x.challenge)) [
  | inl q ↦ let e₁ = rw q at e in find_challenge-IsConsistent id rs room_id c r e₁ h.1
  | inr (d, q) ↦ elim (Bool-cases (d.challenge_id == id)) [
    | inl hit ↦
        let e₁ = rw q at e in
        let e₂ = rw hit at e₁ in let same : x ≡ r = cc e₂ in subst IsConsistent same h.0
    | inr miss ↦
        let e₁ = rw q at e in
        let e₂ = rw miss at e₁ in find_challenge-IsConsistent id rs room_id c r e₂ h.1
  ]
]

pub accept_challenge-Consistent :
    (user id now : ℕ) (db db' : Database)
    → accept_challenge user id now db ≡ ok db'
    → Consistent db
    → Consistent db'
unfolding accept_challenge
accept_challenge-Consistent user id now db db' e h =
    elim (Option-cases (find_challenge id db.rooms)) [
      | inl q ↦ let e₁ = rw (q, accept_challenge) at e in cc
      | inr ((room_id, c, r), q) ↦
          let e₁ = rw (q, accept_challenge) at e in
          let consistent = find_challenge-IsConsistent id db.rooms room_id c r q h in
          let (outcome, e₂, e₃) = through_first (accept_challenge_body user now c r) _ e₁ in
          accepted_outcome room_id c r outcome e₂ e₃ consistent
    ]
  where
    accepted_outcome :
        (room_id : ℕ) (c : Challenge) (r : Room) (outcome : Option Room)
        → accept_challenge_body user now c r ≡ ok outcome
        → ◌≡◌ {A = Result Database}
            (ok (elim outcome [
              | none ↦ db
              | some r' ↦ record db {
                rooms = insert room_id r' (map_rooms (supersede user r.game_id now) db.rooms);
              }
            ]))
            (ok db')
        → IsConsistent r
        → Consistent db'
    accepted_outcome room_id c r none e₂ e₃ k = let same : db ≡ db' = cc in subst Consistent same h
    accepted_outcome room_id c r (some r') e₂ e₃ k =
        let freed = map_rooms (supersede user r.game_id now) db.rooms in
        let made : Database = record db { rooms = insert room_id r' freed } in
        let same : made ≡ db' = cc e₃ in
        subst Consistent same (
          Values-insert IsConsistent room_id r' freed
            (accept_challenge_body-IsConsistent user now c r r' e₂ k)
            (map_rooms-Consistent (supersede user r.game_id now) db.rooms
              (supersede-IsConsistent user r.game_id now) h))

-- The room of a challenge is not finished.
abbrev pub Unfinished : ℕ → Database → Type 0
Unfinished id db =
    (room_id : ℕ) (c : Challenge) (r : Room)
    → find_challenge id db.rooms ≡ some (room_id, c, r)
    → r.state ≢ finished

pub resolve_challenge-Consistent :
    (user id now : ℕ) (is_cancel : Bool) (db db' : Database)
    → resolve_challenge user id now is_cancel db ≡ ok db'
    → Unfinished id db
    → Consistent db
    → Consistent db'
unfolding resolve_challenge
resolve_challenge-Consistent user id now is_cancel db db' e u h =
    elim (Option-cases (find_challenge id db.rooms)) [
      | inl q ↦ let e₁ = rw (q, resolve_challenge) at e in cc
      | inr ((room_id, c, r), q) ↦
          let e₁ = rw (q, resolve_challenge) at e in
          let (r', e₂, e₃) = through_first (resolve_challenge_body user now is_cancel c r) _ e₁ in
          let made : Database = record db { rooms = insert room_id r' db.rooms } in
          let same : made ≡ db' = cc e₃ in
          subst Consistent same (
            Values-insert IsConsistent room_id r' db.rooms
              (resolve_challenge_body-IsConsistent user now is_cancel c r r' (u room_id c r q) e₂
                (find_challenge-IsConsistent id db.rooms room_id c r q h))
              h)
    ]

-- The reconciler on one of the rooms that it picks.
unfoldable pub expire_one : ℕ → ℕ → Database → Database
expire_one now id db = elim (lookup id db.rooms) [
  | none ↦ db
  | some r ↦ record db { rooms = insert id (expire_room now r) db.rooms }
]

pub expire_one-Consistent :
    (now id : ℕ) (db : Database) → Consistent db → Consistent (expire_one now id db)
unfolding expire_one
expire_one-Consistent now id db h = elim (Option-cases (lookup id db.rooms)) [
  | inl q ↦ rw (q, expire_one) h
  | inr (r, q) ↦
      rw (q, expire_one)
        (Values-insert IsConsistent id _ db.rooms
          (expire_room-IsConsistent now r (Values-lookup IsConsistent id db.rooms h q)) h)
]
