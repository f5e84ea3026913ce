-- ===== src/Alpha/Invites.antt =====
-- apps/server/src/routes/alpha.rs: `create_invite` and `join_invite`, with the table `room_invites`,
-- whose key is the hash of the code. A transaction locks the invite and the room, so it is one step.
pub mod Redeemed
pub mod Joined
mod Tests
use open_cade.Prelude.{
  ℕ, ◌+◌, ◌*◌, Bool, true, false, ◌||◌, ◌&&◌, not, ◌==◌, leb, ltb, ◌-◌, Option, none, some, List,
  [], ◌∷◌, ◌++◌, length, all, take, if◌then◌else◌,
}
use open_cade.Prelude.Assoc.{Assoc, nat_eq, text_eq_instance, lookup, insert}
use open_cade.Prelude.Text.{Text, is_blank}
use open_cade.Protocol.{RoomState, cancelled}
use open_cade.RoomState.{accept}
use open_cade.Rooms.{
  AppError, bad_request, forbidden, not_found, conflict, internal, Result, ok, err, ◌>>=◌, ◌>>◌,
  fail_if, Room, Database, is_member, RoomPayload, notify_room_state, apply, close_attempt,
  is_active, attempt_cancelled, room_invite_created, room_invite_joined,
}
use open_cade.Rooms.Lifecycle.{connect_seconds, is_waiting, is_waiting_for}

abbrev pub invite_ttl_minutes : ℕ
invite_ttl_minutes = 15

-- room_invites, by `code_hash`
pub record Invite : Type 0 where
  pub invite_room : ℕ
  pub created_by : ℕ
  pub invite_expires_at : ℕ
  pub invite_consumed_at : Option ℕ
  pub consumed_by : Option ℕ

pub record Cohort : Type 0 where
  pub database : Database
  pub invites : Assoc Text Invite

-- `str::trim_start`: a character of `White_Space` has one, two or three bytes.
unfoldable pub trim_start : Text → Text
trim_start [] = []
trim_start (a ∷ []) = if is_blank (a ∷ []) then [] else a ∷ []
trim_start (a ∷ b ∷ []) =
    let later = trim_start (b ∷ []) in
    if is_blank (a ∷ []) then later else if is_blank (a ∷ b ∷ []) then [] else a ∷ b ∷ []
trim_start (a ∷ b ∷ c ∷ rest) =
    let after_one = trim_start (b ∷ c ∷ rest) in
    let after_two = trim_start (c ∷ rest) in
    let after_three = trim_start rest in
    if is_blank (a ∷ [])
    then after_one
    else if is_blank (a ∷ b ∷ [])
    then after_two
    else if is_blank (a ∷ b ∷ c ∷ [])
    then after_three
    else a ∷ b ∷ c ∷ rest

-- `str::trim_end`: nothing from the first place on where only whitespace follows.
unfoldable pub trim_end : Text → Text
trim_end [] = []
trim_end (a ∷ rest) = let later = trim_end rest in if is_blank (a ∷ rest) then [] else a ∷ later

unfoldable pub to_ascii_uppercase : Text → Text
to_ascii_uppercase [] = []
to_ascii_uppercase (a ∷ rest) =
    (if leb 97 a && leb a 122 then a - 32 else a) ∷ to_ascii_uppercase rest

abbrev pub is_ascii_hexdigit : ℕ → Bool
is_ascii_hexdigit a = (leb 48 a && leb a 57) || (leb 65 a && leb a 70) || (leb 97 a && leb a 102)

-- `request.code.trim().to_ascii_uppercase()`
unfoldable pub read_code : Text → Text
unfolding trim_start trim_end to_ascii_uppercase
read_code text = to_ascii_uppercase (trim_end (trim_start text))

abbrev pub is_code : Text → Bool
is_code code = length code == 10 && all is_ascii_hexdigit code

abbrev pub require {ℓ} : {A : Type ℓ} → AppError → Option A → Result A
require e none = err e
require e (some a) = ok a

-- What `create_invite` returns, and the rows that it leaves.
pub record Issued : Type 0 where
  pub issued_cohort : Cohort
  pub issued_code : Text
  pub issued_expires_at : ℕ

abbrev pub is_hosting : ℕ → Option Room → Bool
is_hosting user none = false
is_hosting user (some r) = r.host_user_id == user && is_waiting r.state

abbrev pub note_created : ℕ → Assoc ℕ Room → Assoc ℕ Room
note_created room_id rs = elim (lookup room_id rs) [
  | none ↦ rs
  | some r ↦ insert room_id (record r { events = (none, room_invite_created) ∷ r.events }) rs
]

abbrev pub is_some {ℓ} : {A : Type ℓ} → Option A → Bool
is_some none = false
is_some (some a) = true

-- `uuid` is the text of a fresh UUID; a second row of one hash is a database error.
unfoldable pub create_invite :
    (hash_token : Text → Text) (uuid : Text) (user room_id now : ℕ) → Cohort → Result Issued
unfolding to_ascii_uppercase
create_invite hash_token uuid user room_id now c = do
  done ← fail_if (not (is_hosting user (lookup room_id c.database.rooms))) forbidden
  done ←
      fail_if (is_some (lookup (hash_token (to_ascii_uppercase (take 10 uuid))) c.invites)) internal
  ok (record {
    issued_cohort = record {
      database = record (c.database) { rooms = note_created room_id c.database.rooms };
      invites =
          insert (hash_token (to_ascii_uppercase (take 10 uuid)))
            (record {
              invite_room = room_id;
              created_by = user;
              invite_expires_at = now + invite_ttl_minutes * 60;
              invite_consumed_at = none;
              consumed_by = none;
            })
            c.invites;
    };
    issued_code = to_ascii_uppercase (take 10 uuid);
    issued_expires_at = now + invite_ttl_minutes * 60;
  })

-- `expires_at > now() AND consumed_at IS NULL`
abbrev pub is_open : ℕ → Invite → Bool
is_open now i = ltb now i.invite_expires_at && not (is_some i.invite_consumed_at)

abbrev pub only_open : ℕ → Option Invite → Option Invite
only_open now none = none
only_open now (some i) = if is_open now i then some i else none

-- A waiting room of the user is cancelled, and its attempt with it.
unfoldable pub withdrawn : ℕ → Room → Room
withdrawn now r = record r {
  state = cancelled;
  state_deadline_at = none;
  attempt = close_attempt attempt_cancelled none now r.attempt;
}

-- `WHERE host_user_id = $1 AND game_id = $2 AND state = 'WAITING' AND id <> $3`
unfoldable pub withdraw_others : (user : ℕ) → Text → (now kept : ℕ) → Assoc ℕ Room → Assoc ℕ Room
withdraw_others user game now kept [] = []
withdraw_others user game now kept ((id, r) ∷ rs) =
    (id, if is_waiting_for user game r && not (id == kept) then withdrawn now r else r)
    ∷ withdraw_others user game now kept rs

-- The user enters the room, which has to connect within two minutes.
unfoldable pub joined : (user now : ℕ) → RoomState → Room → Room
joined user now next r = record r {
  members = r.members ++ user ∷ [];
  state = next;
  state_deadline_at = some (now + connect_seconds);
  attempt =
      if is_active (r.attempt.attempt_state)
      then record (r.attempt) { deadline_at = some (now + connect_seconds) }
      else r.attempt;
  events = (none, room_invite_joined) ∷ r.events;
}

abbrev pub consumed : (user now : ℕ) → Invite → Invite
consumed user now i = record i { invite_consumed_at = some now; consumed_by = some user }

-- What the transaction of `join_invite` writes.
unfoldable pub joined_cohort :
    (hash : Text) (user now : ℕ) → RoomState → Invite → Room → Cohort → Cohort
joined_cohort hash user now next i r c = record {
  database = record (c.database) {
    rooms =
        insert (i.invite_room) (joined user now next r)
          (withdraw_others user r.game_id now (i.invite_room) c.database.rooms);
  };
  invites = insert hash (consumed user now i) c.invites;
}

-- The transaction of `join_invite`; a second row of one member is a database error.
unfoldable pub join_body :
    (hash_token : Text → Text) (user : ℕ) (code : Text) (now : ℕ) → Cohort → Result (ℕ × Cohort)
join_body hash_token user code now c = do
  done ← fail_if (not (is_code code)) bad_request
  i ← require not_found (only_open now (lookup (hash_token code) c.invites))
  r ← require internal (lookup i.invite_room c.database.rooms)
  done ← fail_if (r.host_user_id == user) forbidden
  next ← apply r.state accept
  done ← fail_if (leb 2 (length r.members)) conflict
  done ← fail_if (is_member user r) internal
  ok (i.invite_room, joined_cohort (hash_token code) user now next i r c)

unfoldable pub join_invite :
    (hash_token : Text → Text) (user : ℕ) (text : Text) (now : ℕ)
    → Cohort
    → Cohort × Result RoomPayload
unfolding read_code join_body
join_invite hash_token user text now c = elim (join_body hash_token user (read_code text) now c) [
  | err e ↦ (c, err e)
  | ok (room_id, c') ↦
      let told = notify_room_state c'.database room_id user in
      (record c' { database = told.0 }, told.1)
]
