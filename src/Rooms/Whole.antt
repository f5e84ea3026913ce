-- ===== src/Rooms/Whole.antt =====
-- The room routes against the whole database: apps/server/src/routes/rooms.rs.
use open_cade.Prelude.{
  ℕ, ◌==◌, ◌≡◌, sym, subst, Bool, ◌||◌, not, none, some, arith, Bool-cases, Option-cases, inl, inr,
}
use open_cade.Prelude.Assoc.{lookup, insert, Values, Values-insert, Values-lookup, nat_eq}
use open_cade.Prelude.Text.{Text, is_blank}
use open_cade.Rooms.{Result, ok, Room, Database, room_payload, notify_room_state, transact}
use open_cade.Rooms.Results.{Outcome-cases}
use open_cade.Rooms.Lifecycle.{create_room, find_waiting, new_room, accept_body, accept_room}
use open_cade.Rooms.Launch.{launch_body, again, entered, confirm_native_launch}
use open_cade.Rooms.Invariant.{IsConsistent}
use open_cade.Rooms.Preserved.{new_room-IsConsistent, accept_body-IsConsistent}
use open_cade.Rooms.Runtime.{launch_body-IsConsistent}
use open_cade.Rooms.Transact.{tell_all-rooms}

abbrev pub Consistent : Database → Type 0
Consistent db = Values IsConsistent db.rooms

pub notify-Consistent :
    (db : Database) (id user : ℕ) → Consistent db → Consistent (notify_room_state db id user).0
unfolding notify_room_state
notify-Consistent db id user h =
    subst (Values IsConsistent) (sym (tell_all-rooms (room_payload db id user) id db).0) h

pub commit-Consistent :
    (db : Database) (id user : ℕ) (r : Room)
    → IsConsistent r
    → Consistent db
    → Consistent (notify_room_state (record db { rooms = insert id r db.rooms }) id user).0
commit-Consistent db id user r c h =
    notify-Consistent (record db { rooms = insert id r db.rooms }) id user
      (Values-insert IsConsistent id r db.rooms c h)

pub transact-Consistent :
    (db : Database) (id user : ℕ) (body : Room → Result Room)
    → ((r r' : Room) → body r ≡ ok r' → IsConsistent r → IsConsistent r')
    → Consistent db
    → Consistent (transact db id user body).0
unfolding transact
transact-Consistent db id user body keeps h = elim (Option-cases (lookup id db.rooms)) [
  | inl q ↦ rw (q, transact) h
  | inr (r, q) ↦ elim (Outcome-cases (body r)) [
    | inr (e, o) ↦ rw (q, transact, o) h
    | inl (r', o) ↦
        rw (q, transact, o)
          (commit-Consistent db id user r'
            (keeps r r' o (Values-lookup IsConsistent id db.rooms h q)) h)
  ]
]

pub create_room-Consistent :
    (game_exists : Text → Bool) (user : ℕ) (game : Text) (players id now : ℕ) (db : Database)
    → Consistent db
    → Consistent (create_room game_exists user game players id now db).0
unfolding create_room
create_room-Consistent game_exists user game players id now db h =
    elim (Bool-cases (is_blank game || not (players == 2))) [
      | inl bad ↦ rw (create_room, bad) h
      | inr good ↦ elim (Bool-cases (not (game_exists game))) [
        | inl missing ↦ rw (create_room, good, missing) h
        | inr exists ↦ elim (Option-cases (find_waiting user game db.rooms)) [
          | inr (existing, q) ↦ rw (create_room, good, exists, q) h
          | inl q ↦
              let two : players ≡ 2 = ground arith in
              let c : IsConsistent (new_room user game players now) =
                subst (λ n. IsConsistent (new_room user game n now)) (sym two)
                  (new_room-IsConsistent user game now) in
              rw (create_room, good, exists, q) (Values-insert IsConsistent id _ db.rooms c h)
        ]
      ]
    ]

pub accept_room-Consistent :
    (user id now : ℕ) (db : Database) → Consistent db → Consistent (accept_room user id now db).0
unfolding accept_room
accept_room-Consistent user id now db h = elim (Option-cases (lookup id db.rooms)) [
  | inl q ↦ rw (q, accept_room) h
  | inr (r, q) ↦ elim (Outcome-cases (accept_body user now r)) [
    | inr (e, o) ↦ rw (q, accept_room, o) h
    | inl (none, o) ↦ rw (q, accept_room, o) h
    | inl (some r', o) ↦
        let c =
          accept_body-IsConsistent user now r r' o (Values-lookup IsConsistent id db.rooms h q) in
        rw (q, accept_room, o) (commit-Consistent db id user r' c h)
  ]
]

pub confirm_native_launch-Consistent :
    (user id now : ℕ) (db : Database)
    → Consistent db
    → Consistent (confirm_native_launch user id now db).0
unfolding confirm_native_launch
confirm_native_launch-Consistent user id now db h = elim (Option-cases (lookup id db.rooms)) [
  | inl q ↦ rw (q, confirm_native_launch) h
  | inr (r, q) ↦ elim (Outcome-cases (launch_body user id now db.grants r)) [
    | inr (e, o) ↦ rw (q, confirm_native_launch, o) h
    | inl (again, o) ↦ rw (q, confirm_native_launch, o) (notify-Consistent db id user h)
    | inl (entered r', o) ↦
        let c =
          launch_body-IsConsistent user id now db.grants r r' o
            (Values-lookup IsConsistent id db.rooms h q) in
        rw (q, confirm_native_launch, o)
          (notify-Consistent _ id user (Values-insert IsConsistent id r' db.rooms c h))
  ]
]
