-- ===== src/Rooms/Served.antt =====
-- The database under the handlers, in any order: apps/server/src/routes/rooms.rs,
-- apps/server/src/routes/challenges.rs, the part of apps/server/src/routes/alpha.rs that writes rooms,
-- and apps/server/src/lifecycle.rs.
use open_cade.Prelude.{some, List}
use open_cade.Prelude.Assoc.{Assoc, insert}
use open_cade.Protocol.Reports.{MatchReport}
use open_cade.Alpha.{Payload, Setup, published, submit_preflight, ready_to_launch}
use open_cade.Alpha.Invites.{Invite, Issued, create_invite, join_invite}
use open_cade.Alpha.Evidence.{Value}
use open_cade.Alpha.Receipts.{Command, Response, Ledger, Fresh, create_match_receipt}
use open_cade.Alpha.Kept.{Unawaited}
use open_cade.Prelude.{ℕ, ◌≡◌, [], Bool, Option}
use open_cade.Prelude.Assoc.{lookup, nat_eq}
use open_cade.Prelude.Int.{ℤ}
use open_cade.Prelude.Text.{Text}
use open_cade.Rooms.{ok, Database}
use open_cade.Rooms.Lifecycle.{create_room, accept_room, cancel_room, decline_room}
use open_cade.Rooms.Launch.{confirm_native_launch}
use open_cade.Rooms.Exit.{confirm_native_exit}
use open_cade.Rooms.Challenges.{create_challenge, accept_challenge}
use open_cade.Rooms.Challenges.{resolve_challenge}
use open_cade.Rooms.Launch.{GrantRequest, create_launch_grant, consume_launch_grant}
use open_cade.Rooms.Contested.{Unfinished, expire_one}

-- What a request or the reconciler makes of the database; the tables that no other handler reads with
-- the rooms (preflights, invites, receipts, evidence) may hold anything. `resolves` leaves out the
-- challenges of finished rooms, and `receives` the receipts for a user who hosts a waiting room for the
-- game: what these two do is in Rooms.Resolved and Alpha.Receipts.Uncancelled.
pub data Handles (db : Database) : Database → Type 0 where
  creates :
      (game_exists : Text → Bool) (user : ℕ) (game : Text) (players id now : ℕ)
      → Handles db (create_room game_exists user game players id now db).0
  accepts : (user id now : ℕ) → Handles db (accept_room user id now db).0
  declines : (user id now : ℕ) → Handles db (decline_room user id now db).0
  cancels : (user id now : ℕ) → Handles db (cancel_room user id now db).0
  grants_launch :
      (hash : Text) (user id now : ℕ) (request : GrantRequest)
      → Handles db (create_launch_grant hash user id now request db).0
  consumes :
      (hash_token : Text → Text) (grant : Text) (user now : ℕ)
      → Handles db (consume_launch_grant hash_token grant user now db).0
  launches : (user id now : ℕ) → Handles db (confirm_native_launch user id now db).0
  exits :
      (user id now : ℕ) (code : Option ℤ) → Handles db (confirm_native_exit user id now code db).0
  challenges :
      {db' : Database} (user_exists : ℕ → Bool) (game_exists : Text → Bool) (recent user other : ℕ)
      (game : Text) (id challenge_id now : ℕ)
      → create_challenge user_exists game_exists recent user other game id challenge_id now db
        ≡ ok db'
      → Handles db db'
  welcomes :
      {db' : Database} (user id now : ℕ) → accept_challenge user id now db ≡ ok db' → Handles db db'
  resolves :
      {db' : Database} (user id now : ℕ) (is_cancel : Bool)
      → Unfinished id db
      → resolve_challenge user id now is_cancel db ≡ ok db'
      → Handles db db'
  expires : (now id : ℕ) → Handles db (expire_one now id db)
  sets_up :
      (show_uuid : ℕ → Text) (id user now : ℕ) (p : Payload) (s s' : Setup)
      → lookup id db.rooms ≡ some s.room
      → submit_preflight show_uuid id user now p s ≡ ok s'
      → Handles db (record db { rooms = insert id (published s') db.rooms })
  gets_ready :
      (id user now : ℕ) (s s' : Setup)
      → lookup id db.rooms ≡ some s.room
      → ready_to_launch user now s ≡ ok s'
      → Handles db (record db { rooms = insert id (published s') db.rooms })
  invites :
      (hash_token : Text → Text) (uuid : Text) (user id now : ℕ) (rows : Assoc Text Invite)
      (made : Issued)
      → create_invite hash_token uuid user id now (record { database = db; invites = rows })
        ≡ ok made
      → Handles db made.issued_cohort.database
  joins :
      (hash_token : Text → Text) (user : ℕ) (text : Text) (now : ℕ) (rows : Assoc Text Invite)
      → Handles db
          (join_invite hash_token user text now
            (record { database = db; invites = rows })).0.database
  receives :
      (hash_token : Text → Text) (from_value : Value → Option MatchReport) (fresh : Fresh)
      (user key source now : ℕ) (early : List Command) (l l' : Ledger) (answer : Response)
      → db ≡ l.cohort.database
      → Unawaited user source db
      → create_match_receipt hash_token from_value fresh user key source now early l
        ≡ ok (l', answer)
      → Handles db l'.cohort.database

abbrev pub empty_database : Database
empty_database = record { rooms = []; grants = []; rooms_created = 0; notices = [] }

pub data Served : Database → Type 0 where
  fresh_database : Served empty_database
  next : {db db' : Database} → Served db → Handles db db' → Served db'
