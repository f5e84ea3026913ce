-- ===== src/Alpha/Receipts.antt =====
-- apps/server/src/routes/alpha.rs: `create_match_receipt`, with the tables that it reads and writes.
-- The first look at `command_results` is outside the transaction, so it may see older rows.
pub mod Verified
pub mod Repeated
pub mod Uncancelled
mod Tests
use open_cade.Prelude.{
  ◌++◌, ℕ, ◌+◌, ◌*◌, Bool, true, false, ◌||◌, ◌&&◌, not, ◌==◌, Option, none, some, List, [], ◌∷◌,
  length, any, take, if◌then◌else◌,
}
use open_cade.Prelude.Assoc.{Assoc, nat_eq, text_eq_instance, lookup, insert}
use open_cade.Prelude.Text.{Text, codes, text_eq}
use open_cade.Prelude.Outcome.{Outcome}
use open_cade.Protocol.{RoomState, finished, cancelled}
use open_cade.Alpha.Evidence.{Value, Evidence, is_match}
use open_cade.Protocol.Reports.{
  host, guest, role_eq, MatchReportRole, MatchReport, NativeRouteCapability, direct_lan, tcp_tunnel,
}
use open_cade.Networking.Report.{verify_playable_match_reports}
use open_cade.Rooms.{
  AppError, conflict, internal, Result, ok, err, ◌>>=◌, ◌>>◌, fail_if, Room, Database, is_member,
}
use open_cade.Rooms.Lifecycle.{day, is_waiting_for, new_room}
use open_cade.Rooms.Challenges.{map_rooms}
use open_cade.Alpha.Invites.{
  Cohort, Invite, invite_ttl_minutes, require, is_some, to_ascii_uppercase,
}

-- `MatchReceiptPayload`; its `result` and `compatibility_verified` have one value.
pub record MatchReceiptPayload : Type 0 where
  pub receipt_id : ℕ
  pub receipt_game_id : Text
  pub route : NativeRouteCapability
  pub receipt_created_at : ℕ
  pub next_room : ℕ
  pub code : Text
  pub code_expires_at : ℕ

pub data Response : Type 0 where
  receipt_created : (made : MatchReceiptPayload) → Response
  other_response : (json : Text) → Response

-- command_results
pub record Command : Type 0 where
  pub actor_id : ℕ
  pub idempotency_key : ℕ
  pub command_type : Text
  pub response_payload : Response

-- match_receipts
pub record Receipt : Type 0 where
  pub source_room : ℕ
  pub receipt_by : ℕ
  pub receipt_next : ℕ

pub record Ledger : Type 0 where
  pub cohort : Cohort
  pub evidence : List Evidence
  pub commands : List Command
  pub receipts : List Receipt

-- The fresh UUIDs of a request: of the receipt, of the next room, and the text of the invite's.
pub record Fresh : Type 0 where
  pub fresh_receipt : ℕ
  pub fresh_room : ℕ
  pub fresh_code : Text

unfoldable pub find_command : (user key : ℕ) → List Command → Option Command
find_command user key [] = none
find_command user key (c ∷ cs) =
    if c.actor_id == user && c.idempotency_key == key then some c else find_command user key cs

-- The answer of a command that was carried out before.
unfoldable pub replay : Command → Result Response
replay c = do
  done ← fail_if (not (text_eq c.command_type (codes "match.receipt.create"))) conflict
  ok c.response_payload

abbrev pub is_finished : RoomState → Bool
is_finished finished = true
is_finished _ = false

-- The room, if it is finished and the user is in it.
abbrev pub finished_room : ℕ → Option Room → Option Room
finished_room user none = none
finished_room user (some r) = if is_member user r && is_finished r.state then some r else none

unfoldable pub count_failures : ℕ → List Evidence → ℕ
count_failures room_id [] = 0
count_failures room_id (e ∷ es) =
    (if e.evidence_room == room_id && not (is_match e.kind) then 1 else 0)
    + count_failures room_id es

unfoldable pub payloads_of : MatchReportRole → ℕ → List Evidence → List Value
payloads_of role room_id [] = []
payloads_of role room_id (e ∷ es) =
    let rest = payloads_of role room_id es in
    if e.evidence_room == room_id && is_match e.kind && role_eq e.evidence_role role
    then e.payload ∷ rest
    else rest

-- `ORDER BY role`
unfoldable pub match_payloads : ℕ → List Evidence → List Value
unfolding payloads_of
match_payloads room_id es = payloads_of guest room_id es ++ payloads_of host room_id es

-- The two payloads; `reports.len() != 2 || failures != 0` is an error.
unfoldable pub payload_pair : ℕ → List Evidence → Option (Value × Value)
unfolding count_failures match_payloads
payload_pair room_id es = elim (match_payloads room_id es) [
  | a ∷ b ∷ [] ↦ if count_failures room_id es == 0 then some (a, b) else none
  | _ ↦ none
]

unfoldable pub route_eq : Option NativeRouteCapability → Option NativeRouteCapability → Bool
route_eq none none = true
route_eq (some direct_lan) (some direct_lan) = true
route_eq (some tcp_tunnel) (some tcp_tunnel) = true
route_eq _ _ = false

-- The names of the routes are one to one, so `parse_native_route` is on the route.
unfoldable pub parse_native_route : Option NativeRouteCapability → Result NativeRouteCapability
parse_native_route (some direct_lan) = ok direct_lan
parse_native_route (some tcp_tunnel) = ok tcp_tunnel
parse_native_route none = err conflict

-- `map_err(|_| AppError::Conflict(..))`
abbrev pub or_conflict {ℓ κ} : {E : Type κ} {A : Type ℓ} → Outcome E A → Result A
or_conflict (ok a) = ok a
or_conflict (err e) = err conflict

-- The route of a verified pair; `from_value` reads the JSON of a report.
unfoldable pub verified_route :
    (from_value : Value → Option MatchReport) (room_id : ℕ)
    → List Evidence
    → Result NativeRouteCapability
unfolding parse_native_route
verified_route from_value room_id es = do
  pair ← require conflict (payload_pair room_id es)
  a ← require conflict (from_value pair.0)
  b ← require conflict (from_value pair.1)
  done ← or_conflict (verify_playable_match_reports a b)
  done ← fail_if (not (route_eq a.native_route b.native_route)) conflict
  parse_native_route a.native_route

abbrev pub is_receipt_of : (user room_id : ℕ) → Receipt → Bool
is_receipt_of user room_id r = r.source_room == room_id && r.receipt_by == user

-- `UPDATE rooms SET state = 'CANCELLED' WHERE host_user_id = $1 AND game_id = $2 AND state = 'WAITING'`
unfoldable pub set_cancelled : ℕ → Text → Room → Room
set_cancelled user game r = if is_waiting_for user game r then record r { state = cancelled } else r

-- The room in which the two may play on, without an event.
unfoldable pub next_room_of : ℕ → Text → ℕ → Room
unfolding new_room
next_room_of user game now = record (new_room user game 2 now) { events = [] }

unfoldable pub receipt_payload : Fresh → Text → NativeRouteCapability → ℕ → MatchReceiptPayload
unfolding to_ascii_uppercase
receipt_payload fresh game route now = record {
  receipt_id = fresh.fresh_receipt;
  receipt_game_id = game;
  route = route;
  receipt_created_at = now;
  next_room = fresh.fresh_room;
  code = to_ascii_uppercase (take 10 fresh.fresh_code);
  code_expires_at = now + invite_ttl_minutes * 60;
}

-- What the transaction writes for a new receipt.
unfoldable pub issue_receipt :
    (hash_token : Text → Text)
    → Fresh
    → (user key source now : ℕ) → Text
    → MatchReceiptPayload
    → Ledger
    → Ledger
unfolding next_room_of
issue_receipt hash_token fresh user key source now game made l = record l {
  cohort = record {
    database = record (l.cohort.database) {
      rooms =
          insert (fresh.fresh_room) (next_room_of user game now)
            (map_rooms (set_cancelled user game) l.cohort.database.rooms);
    };
    invites =
        insert (hash_token made.code)
          (record {
            invite_room = fresh.fresh_room;
            created_by = user;
            invite_expires_at = now + invite_ttl_minutes * 60;
            invite_consumed_at = none;
            consumed_by = none;
          })
          l.cohort.invites;
  };
  receipts =
      record { source_room = source; receipt_by = user; receipt_next = fresh.fresh_room }
      ∷ l.receipts;
  commands =
      record {
        actor_id = user;
        idempotency_key = key;
        command_type = codes "match.receipt.create";
        response_payload = receipt_created made;
      }
      ∷ l.commands;
}

-- The part of the transaction from the evidence on, in the finished room `r`. A second invite of one
-- hash is a database error.
unfoldable pub new_receipt :
    (hash_token : Text → Text) (from_value : Value → Option MatchReport)
    → Fresh
    → (user key source now : ℕ) → Room
    → Ledger
    → Result (Ledger × Response)
unfolding verified_route receipt_payload issue_receipt
new_receipt hash_token from_value fresh user key source now r l = do
  route ← verified_route from_value source l.evidence
  done ← fail_if (any (is_receipt_of user source) l.receipts) conflict
  done ←
      fail_if
        (is_some
          (lookup (hash_token (to_ascii_uppercase (take 10 fresh.fresh_code))) l.cohort.invites))
        internal
  ok (
    issue_receipt hash_token fresh user key source now r.game_id
        (receipt_payload fresh r.game_id route now) l,
    receipt_created (receipt_payload fresh r.game_id route now),
  )

abbrev pub keep_ledger : Ledger → Result Response → Result (Ledger × Response)
keep_ledger l (err e) = err e
keep_ledger l (ok answer) = ok (l, answer)

-- The transaction.
unfoldable pub receipt_body :
    (hash_token : Text → Text) (from_value : Value → Option MatchReport)
    → Fresh
    → (user key source now : ℕ) → Ledger
    → Result (Ledger × Response)
unfolding replay new_receipt
receipt_body hash_token from_value fresh user key source now l = do
  r ← require conflict (finished_room user (lookup source l.cohort.database.rooms))
  elim (find_command user key l.commands) [
    | some c ↦ keep_ledger l (replay c)
    | none ↦ new_receipt hash_token from_value fresh user key source now r l
  ]

-- `early` is what the first look at the commands sees.
unfoldable pub create_match_receipt :
    (hash_token : Text → Text) (from_value : Value → Option MatchReport)
    → Fresh
    → (user key source now : ℕ) → List Command
    → Ledger
    → Result (Ledger × Response)
unfolding replay receipt_body
create_match_receipt hash_token from_value fresh user key source now early l =
    elim (find_command user key early) [
      | some c ↦ keep_ledger l (replay c)
      | none ↦ receipt_body hash_token from_value fresh user key source now l
    ]
