-- ===== src/Rooms/Transact.antt =====
-- A transaction on a room against the database: `locked_room`, the commit and `notify_room_state` of
-- apps/server/src/routes/rooms.rs.
use open_cade.Prelude.{
  inl, ◌∙◌, ap, [], List, ◌++◌, Option-cases, some, ◌≡◌, ◌≢◌, ◌⊎◌, refl, ℕ, inr, arith, false, ◌==◌,
  ==_refl,
}
use open_cade.Prelude.Assoc.{lookup, insert, lookup-insert, nat_eq}
use open_cade.Rooms.Results.{Outcome-cases}
use open_cade.Rooms.{
  Result, ok, err, AppError, not_found, Room, RoomPayload, Database, Notice, room_payload,
  notify_room_state, tell_all, transact,
}

-- The database after a commit to one room: that room is written, every other room is as it was, and
-- only notices are added besides.
pub record Commits (db db' : Database) (room_id : ℕ) (r' : Room) : Type 0 where
  pub written : lookup room_id db'.rooms ≡ some r'
  pub others : (other : ℕ) → other ≢ room_id → lookup other db'.rooms ≡ lookup other db.rooms
  pub grants_kept : db'.grants ≡ db.grants
  pub told : (ns : List Notice) × (db'.notices ≡ ns ++ db.notices)

pub tell_all-rooms :
    (p : Result RoomPayload) (room_id : ℕ) (db : Database)
    → ((tell_all p room_id db).rooms ≡ db.rooms)
      × ((tell_all p room_id db).grants ≡ db.grants)
      × ((ns : List Notice) × ((tell_all p room_id db).notices ≡ ns ++ db.notices))
unfolding tell_all
tell_all-rooms (err e) room_id db = (refl, refl, ([], refl))
tell_all-rooms (ok p) room_id db = elim (Option-cases (lookup room_id db.rooms)) [
  | inl q ↦ rw (q, tell_all) (refl, refl, ([], refl))
  | inr (r, q) ↦ rw (q, tell_all) (refl, refl, (_, refl))
]

not_same : (a b : ℕ) → b ≢ a → (a == b) ≡ false
not_same a b h = ground arith

notify-Commits :
    (db : Database) (room_id user : ℕ) (r' : Room)
    → Commits db
        (notify_room_state (record db { rooms = insert room_id r' db.rooms }) room_id user).0
        room_id
        r'
unfolding notify_room_state
notify-Commits db room_id user r' =
    let db₁ : Database = record db { rooms = insert room_id r' db.rooms } in
    let (rooms, grants, told) = tell_all-rooms (room_payload db₁ room_id user) room_id db₁ in
    record {
      written =
          ap (λ rs. lookup room_id rs) rooms
          ∙ lookup-insert room_id room_id r' db.rooms
          ∙ rw (==_refl room_id) refl;
      others = λ other apart.
          ap (λ rs. lookup other rs) rooms
          ∙ lookup-insert room_id other r' db.rooms
          ∙ rw (not_same room_id other apart) refl;
      grants_kept = grants;
      told = told;
    }

-- A transaction on a room is all or nothing. Either it answers an error and the database is
-- unchanged, or the room is there, its body's room is committed, and no other room and no grant
-- changes; notices are only added.
pub transact-Commits :
    (db : Database) (room_id user : ℕ) (body : Room → Result Room)
    → ((e : AppError) × (transact db room_id user body ≡ (db, err e)))
      ⊎ ((r : Room) × (r' : Room) × (lookup room_id db.rooms ≡ some r)
          × (body r ≡ ok r')
          × Commits db (transact db room_id user body).0 room_id r')
unfolding transact
transact-Commits db room_id user body = elim (Option-cases (lookup room_id db.rooms)) [
  | inl q ↦ inl (not_found, rw (q, transact) refl)
  | inr (r, q) ↦ elim (Outcome-cases (body r)) [
    | inl (r', o) ↦ inr (r, r', q, o, rw (q, transact, o) (notify-Commits db room_id user r'))
    | inr (e, o) ↦ inl (e, rw (q, transact, o) refl)
  ]
]
