-- ===== src/Alpha/Evidence.antt =====
-- apps/server/src/routes/alpha_evidence.rs: `submit_evidence`, with the table `alpha_evidence`. JSON,
-- UUIDs and SHA-256 are the record `Serde`.
pub mod Filed
mod Tests
use open_cade.Prelude.{
  ℕ, ◌*◌, Bool, true, false, ◌||◌, ◌&&◌, not, ◌==◌, ltb, Option, none, some, List, [], ◌∷◌, length,
  any, if◌then◌else◌,
}
use open_cade.Prelude.Assoc.{Assoc, nat_eq, lookup}
use open_cade.Prelude.Text.{Text, codes, text_eq}
use open_cade.Protocol.{RoomState, finished}
use open_cade.Protocol.Reports.{
  MatchReport, AlphaFailureReport, MatchReportRole, host, guest, role_eq,
}
use open_cade.Rooms.{
  AppError, bad_request, forbidden, conflict, Result, ok, err, ◌>>=◌, ◌>>◌, fail_if, Room,
  is_member,
}

mutual
  -- `serde_json::Value`
  pub data Value : Type 0 where
    null : Value
    boolean : (truth : Bool) → Value
    number string : (digits : Text) → Value
    array : (items : Items) → Value
    object : (fields : Fields) → Value

  pub data Items : Type 0 where
    no_items : Items
    item : (first : Value) → (rest : Items) → Items

  pub data Fields : Type 0 where
    no_fields : Fields
    field : (key : Text) → (value : Value) → (rest : Fields) → Fields

pub record Serde : Type 0 where
  pub to_vec : Value → Text
  pub read_match : Value → Option MatchReport
  pub write_match : MatchReport → Value
  pub read_failure : Value → Option AlphaFailureReport
  pub write_failure : AlphaFailureReport → Value
  pub parse_uuid : Text → Option ℕ
  pub sha256_hex : Text → Text

pub data EvidenceKind : Type 0 where
  match_evidence attempt_failure : EvidenceKind

-- alpha_evidence
pub record Evidence : Type 0 where
  pub digest : Text
  pub evidence_room : ℕ
  pub submitted_by : ℕ
  pub evidence_role : MatchReportRole
  pub kind : EvidenceKind
  pub payload : Value

unfoldable pub get_field : Text → Fields → Option Value
get_field name no_fields = none
get_field name (field key value rest) =
    let later = get_field name rest in if text_eq key name then some value else later

-- `Value::get`
unfoldable pub get : Text → Value → Option Value
unfolding get_field
get name (object fields) = get_field name fields
get name _ = none

abbrev pub forbidden_keys : List Text
forbidden_keys =
    codes "token"
    ∷ codes "session_token"
    ∷ codes "local_user_id"
    ∷ codes "peer_user_id"
    ∷ codes "host_id"
    ∷ codes "guest_id"
    ∷ codes "endpoint"
    ∷ codes "nonce"
    ∷ codes "path"
    ∷ codes "rom_path"
    ∷ []

unfoldable mutual
  pub contains_private_key : Value → Bool
  contains_private_key (object fields) = some_private_field fields
  contains_private_key (array items) = some_private_item items
  contains_private_key _ = false

  pub some_private_item : Items → Bool
  some_private_item no_items = false
  some_private_item (item first rest) = contains_private_key first || some_private_item rest

  pub some_private_field : Fields → Bool
  some_private_field no_fields = false
  some_private_field (field key value rest) =
      any (λ name. text_eq name key) forbidden_keys
      || contains_private_key value
      || some_private_field rest

-- What `decode_evidence` returns.
pub record Decoded : Type 0 where
  pub room_id : ℕ
  pub role : MatchReportRole
  pub decoded_kind : EvidenceKind
  pub canonical : Value

abbrev pub or_bad_request {ℓ} : {A : Type ℓ} → Option A → Result A
or_bad_request none = err bad_request
or_bad_request (some value) = ok value

module _ (serde : Serde) where
  unfoldable pub decode_match : Value → Result Decoded
  decode_match value = do
    report ← or_bad_request (serde.read_match value)
    room_id ← or_bad_request (serde.parse_uuid report.room.id)
    ok (record {
      room_id = room_id;
      role = report.probe.role;
      decoded_kind = match_evidence;
      canonical = serde.write_match report;
    })

  unfoldable pub decode_failure : Value → Result Decoded
  decode_failure value = do
    report ← or_bad_request (serde.read_failure value)
    room_id ← or_bad_request (serde.parse_uuid report.room.id)
    ok (record {
      room_id = room_id;
      role = report.role;
      decoded_kind = attempt_failure;
      canonical = serde.write_failure report;
    })

  unfoldable pub decode_evidence : Value → Result Decoded
  unfolding decode_match decode_failure
  decode_evidence value = elim (get (codes "kind") value) [
    | none ↦ decode_match value
    | some (string kind) ↦
        let failure = decode_failure value in
        if text_eq kind (codes "attempt_failure") then failure else err bad_request
    | some _ ↦ err bad_request
  ]

pub record EvidenceRoomContext : Type 0 where
  pub context_role : MatchReportRole
  pub context_game_id : Text
  pub context_state : RoomState

unfoldable pub evidence_room_context : ℕ → Option Room → Result EvidenceRoomContext
evidence_room_context user none = err forbidden
evidence_room_context user (some r) =
    if is_member user r
    then ok (record {
      context_role = if r.host_user_id == user then host else guest;
      context_game_id = r.game_id;
      context_state = r.state;
    })
    else err forbidden

-- `.get("room").and_then(|room| room.get("game_id")).and_then(Value::as_str) == Some(game)`
unfoldable pub names_game : Text → Value → Bool
unfolding get
names_game game value = elim (get (codes "room") value) [
  | none ↦ false
  | some room ↦ elim (get (codes "game_id") room) [
    | some (string name) ↦ text_eq name game
    | _ ↦ false
  ]
]

abbrev pub is_match : EvidenceKind → Bool
is_match match_evidence = true
is_match attempt_failure = false

abbrev pub is_over : RoomState → Bool
is_over finished = true
is_over _ = false

unfoldable pub kind_eq : EvidenceKind → EvidenceKind → Bool
kind_eq match_evidence match_evidence = true
kind_eq attempt_failure attempt_failure = true
kind_eq _ _ = false

-- The unique key `(room_id, submitted_by, kind)`.
unfoldable pub same_slot : Evidence → Evidence → Bool
unfolding kind_eq
same_slot a b =
    a.evidence_room == b.evidence_room && a.submitted_by == b.submitted_by && kind_eq a.kind b.kind

-- One of the two unique keys is taken.
unfoldable pub collides : Evidence → Evidence → Bool
unfolding same_slot
collides a b = text_eq a.digest b.digest || same_slot a b

unfoldable pub digest_in_slot : Evidence → List Evidence → Option Text
unfolding same_slot
digest_in_slot row [] = none
digest_in_slot row (e ∷ es) = if same_slot row e then some e.digest else digest_in_slot row es

abbrev pub differs : Text → Option Text → Bool
differs digest none = false
differs digest (some other) = not (text_eq other digest)

-- What is answered, and the rows after it.
pub record Accepted : Type 0 where
  pub evidence : List Evidence
  pub accepted_digest : Text
  pub duplicate : Bool

-- The insertion, with `reject_conflicting_duplicate`.
unfoldable pub file_evidence : Evidence → List Evidence → Result Accepted
unfolding collides digest_in_slot
file_evidence row es =
    if any (collides row) es
    then if differs row.digest (digest_in_slot row es)
      then err conflict
      else ok (record { evidence = es; accepted_digest = row.digest; duplicate = true })
    else ok (record { evidence = row ∷ es; accepted_digest = row.digest; duplicate = false })

module _ (serde : Serde) where
  abbrev pub evidence_row : ℕ → Decoded → Evidence
  evidence_row user d = record {
    digest = serde.sha256_hex (serde.to_vec d.canonical);
    evidence_room = d.room_id;
    submitted_by = user;
    evidence_role = d.role;
    kind = d.decoded_kind;
    payload = d.canonical;
  }

  unfoldable pub submit_evidence : ℕ → Value → Assoc ℕ Room → List Evidence → Result Accepted
  unfolding decode_evidence contains_private_key evidence_room_context names_game file_evidence
  submit_evidence user value rooms es = do
    done ← fail_if (ltb (64 * 1024) (length (serde.to_vec value))) bad_request
    d ← decode_evidence serde value
    done ← fail_if (contains_private_key d.canonical) bad_request
    context ← evidence_room_context user (lookup d.room_id rooms)
    done ← fail_if (not (role_eq d.role context.context_role)) forbidden
    done ← fail_if (not (names_game context.context_game_id d.canonical)) bad_request
    done ← fail_if (is_match d.decoded_kind && not (is_over context.context_state)) conflict
    file_evidence (evidence_row user d) es
