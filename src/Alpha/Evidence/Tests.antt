-- ===== src/Alpha/Evidence/Tests.antt =====
-- alpha_evidence.rs at concrete inputs: the privacy filter as in its own tests, and the host of room 1,
-- who sends a report of the finished match.
use open_cade.Alpha.Evidence.{
  Value, null, string, array, object, item, no_items, field, no_fields, Serde, Evidence, Accepted,
  match_evidence, submit_evidence, contains_private_key,
}
use open_cade.Alpha.Evidence.Filed.{Filed, submit_evidence-Filed, submit_evidence-again}
use open_cade.Prelude.{ℕ, ◌≡◌, refl, true, false, [], ◌∷◌, none, some}
use open_cade.Prelude.Assoc.{Assoc, nat_eq, lookup}
use open_cade.Prelude.Text.{Text, codes, text_eq}
use open_cade.Protocol.{finished}
use open_cade.Protocol.Reports.{MatchReport, host, direct_udp, role_eq}
use open_cade.Rooms.{Room, ok, err, bad_request}
use open_cade.Rooms.Lifecycle.{new_room}

abbrev one_field : Text → Value → Value
one_field key value = object (field key value no_fields)

safe_room :
    contains_private_key (one_field (codes "room") (one_field (codes "id") (string (codes "safe"))))
    ≡ false
unfolding contains_private_key text_eq
safe_room = refl

hidden_endpoint :
    contains_private_key
      (one_field (codes "probe") (one_field (codes "endpoint") (string (codes "127.0.0.1"))))
    ≡ true
unfolding contains_private_key text_eq
hidden_endpoint = refl

hidden_token :
    contains_private_key (array (item (one_field (codes "session_token") null) no_items)) ≡ true
unfolding contains_private_key text_eq
hidden_token = refl

abbrev report : MatchReport
report = record {
  schema_version = 1;
  exported_at = 0;
  room = record { id = codes "room-1"; game_id = codes "game"; state = finished };
  probe = record {
    role = host;
    transport = direct_udp;
    frames_sent = 60;
    frames_received = 60;
    transcript_checksum = codes "0376c2e852f4fd25";
    elapsed_ms = 1;
    nat = none;
    candidate = none;
    punch_attempts = none;
  };
  client = record { platform = []; user_agent = [] };
  compatibility = none;
  native_route = none;
}

abbrev canonical : Value
canonical = one_field (codes "room") (one_field (codes "game_id") (string (codes "game")))

-- Every value is read as the report, and its bytes are those of a fixed text.
abbrev serde : Serde
serde = record {
  to_vec = λ value. codes "{}";
  read_match = λ value. some report;
  write_match = λ made. canonical;
  read_failure = λ value. none;
  write_failure = λ made. null;
  parse_uuid = λ text. some 1;
  sha256_hex = λ bytes. bytes;
}

abbrev rooms : Assoc ℕ Room
rooms = (1, record (new_room 1 (codes "game") 2 0) { state = finished; members = 1 ∷ 2 ∷ [] }) ∷ []

abbrev row : Evidence
row = record {
  digest = codes "{}";
  evidence_room = 1;
  submitted_by = 1;
  evidence_role = host;
  kind = match_evidence;
  payload = canonical;
}

abbrev answer : Accepted
answer = record { evidence = row ∷ []; accepted_digest = codes "{}"; duplicate = false }

submitted : submit_evidence serde 1 (object no_fields) rooms [] ≡ ok answer
unfolding submit_evidence lookup text_eq role_eq new_room
submitted = refl

unknown_kind :
    submit_evidence serde 1 (one_field (codes "kind") (string (codes "other"))) rooms []
    ≡ err bad_request
unfolding submit_evidence text_eq
unknown_kind = refl

submit_evidence-Filed_example : Filed serde (row ∷ [])
submit_evidence-Filed_example =
    submit_evidence-Filed serde 1 (object no_fields) rooms [] answer submitted tt

submit_evidence-again_example :
    submit_evidence serde 1 (object no_fields) rooms (row ∷ [])
    ≡ ok (record { evidence = row ∷ []; accepted_digest = codes "{}"; duplicate = true })
submit_evidence-again_example =
    submit_evidence-again serde 1 (object no_fields) rooms [] answer submitted
