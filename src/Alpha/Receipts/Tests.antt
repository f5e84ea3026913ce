-- ===== src/Alpha/Receipts/Tests.antt =====
-- The receipts of alpha.rs at concrete inputs: users 1 and 2 finished a match in room 1, and user 1
-- waits in room 3 for the next one.
use open_cade.Alpha.Receipts.{
  Response, receipt_created, Ledger, Fresh, receipt_payload, issue_receipt, create_match_receipt,
  find_command, finished_room, payload_pair, route_eq, replay, set_cancelled,
}
use open_cade.Alpha.Evidence.{Value, string, Evidence, match_evidence}
use open_cade.Alpha.Receipts.Verified.{Receives, create_match_receipt-Receives}
use open_cade.Alpha.Receipts.Repeated.{start, receipts, create_match_receipt-again}
use open_cade.Rooms.Challenges.{map_rooms}
use open_cade.Prelude.{inr, ℕ, ◌≡◌, refl, [], ◌∷◌, Option, none, some, true, if◌then◌else◌}
use open_cade.Alpha.Receipts.Uncancelled.{Stranded, create_match_receipt-Stranded}
use open_cade.Prelude.Assoc.{insert, nat_eq, text_eq_instance, lookup}
use open_cade.Prelude.Text.{Text, codes, text_eq, is_blank}
use open_cade.Protocol.{finished}
use open_cade.Protocol.Reports.{
  MatchReport, MatchReportRole, host, guest, direct_udp, direct_lan, role_eq, transport_eq,
  optional_compatibility_eq,
}
use open_cade.Networking.Report.{verify_playable_match_reports}
use open_cade.Rooms.{Room, ok}
use open_cade.Rooms.Lifecycle.{new_room, is_waiting_for}
use open_cade.Rooms.Preserved.{new_room-IsConsistent}

abbrev hash : Text
hash = codes "0123456789abcdef0123456789abcdef0123456789abcdef0123456789abcdef"

abbrev report : MatchReportRole → MatchReport
report role = record {
  schema_version = 1;
  exported_at = 0;
  room = record { id = codes "room-1"; game_id = codes "game"; state = finished };
  probe = record {
    role = role;
    transport = direct_udp;
    frames_sent = 60;
    frames_received = 60;
    transcript_checksum = codes "0376c2e852f4fd25";
    elapsed_ms = 240;
    nat = none;
    candidate = none;
    punch_attempts = none;
  };
  client = record { platform = codes "linux"; user_agent = codes "test" };
  compatibility = some (record {
    adapter = codes "retroarch_fbneo";
    emulator_version = none;
    executable_sha256 = hash;
    core_sha256 = hash;
    content_sha256 = hash;
  });
  native_route = some direct_lan;
}

-- A stored payload is the role's first letter.
abbrev from_value : Value → Option MatchReport
from_value (string letter) =
    if text_eq letter (codes "g")
    then some (report guest)
    else if text_eq letter (codes "h")
    then some (report host)
    else none
from_value _ = none

abbrev same_text : Text → Text
same_text text = text

abbrev played : Room
played = record (new_room 1 (codes "game") 2 0) { state = finished; members = 1 ∷ 2 ∷ [] }

abbrev waiting_next : Room
waiting_next = new_room 1 (codes "game") 2 0

abbrev stored : ℕ → MatchReportRole → Text → Evidence
stored user role letter = record {
  digest = letter;
  evidence_room = 1;
  submitted_by = user;
  evidence_role = role;
  kind = match_evidence;
  payload = string letter;
}

abbrev ledger : Ledger
ledger = record {
  cohort = record {
    database = record {
      rooms = (1, played) ∷ (3, waiting_next) ∷ [];
      grants = [];
      rooms_created = 2;
      notices = [];
    };
    invites = [];
  };
  evidence = stored 1 host (codes "h") ∷ stored 2 guest (codes "g") ∷ [];
  commands = [];
  receipts = [];
}

abbrev fresh : ℕ → Fresh
fresh n = record { fresh_receipt = n; fresh_room = n; fresh_code = codes "abcdef0123456789" }

abbrev answer : Response
answer = receipt_created (receipt_payload (fresh 7) (codes "game") direct_lan 50)

abbrev after : Ledger
after =
    issue_receipt same_text (fresh 7) 1 5 1 50 (codes "game")
      (receipt_payload (fresh 7) (codes "game") direct_lan 50) ledger

given : create_match_receipt same_text from_value (fresh 7) 1 5 1 50 [] ledger ≡ ok (after, answer)
unfolding create_match_receipt payload_pair route_eq find_command lookup new_room
    verify_playable_match_reports text_eq is_blank role_eq transport_eq optional_compatibility_eq
given = refl

unknown : (key : ℕ) → find_command 1 key [] ≡ none
unfolding find_command
unknown key = refl

create_match_receipt-Receives_example :
    Receives same_text from_value (fresh 7) 1 5 1 50 ledger after answer
create_match_receipt-Receives_example =
    create_match_receipt-Receives same_text from_value (fresh 7) 1 5 1 50 [] ledger after answer
      (unknown 5) (unknown 5) given

source_found_after : finished_room 1 (lookup 1 after.cohort.database.rooms) ≡ some played
unfolding lookup issue_receipt map_rooms set_cancelled is_waiting_for insert text_eq
source_found_after = refl

-- Another look at what is stored, and then a request whose first look came before the first receipt.
replayed :
    create_match_receipt same_text from_value (fresh 9) 1 5 1 55 after.commands after
    ≡ ok (after, answer)
unfolding create_match_receipt find_command replay issue_receipt text_eq
replayed = refl

create_match_receipt-again_example :
    create_match_receipt same_text from_value (fresh 8) 1 5 1 60 [] after ≡ ok (after, answer)
create_match_receipt-again_example =
    create_match_receipt-again same_text from_value (fresh 7) (fresh 8) 1 5 1 1 50 60 [] [] ledger
      after after answer (unknown 5) (unknown 5) given
      (receipts (fresh 9) 1 5 1 55 after.commands start replayed)
      (inr (unknown 5, (played, source_found_after)))

source_found : finished_room 1 (lookup 1 ledger.cohort.database.rooms) ≡ some played
unfolding lookup
source_found = refl

other_found : lookup 3 ledger.cohort.database.rooms ≡ some waiting_next
unfolding lookup
other_found = refl

other_waits : is_waiting_for 1 played.game_id waiting_next ≡ true
unfolding is_waiting_for new_room text_eq
other_waits = refl

create_match_receipt-Stranded_example :
    (r' : Room) × (lookup 3 after.cohort.database.rooms ≡ some r') × Stranded r'
create_match_receipt-Stranded_example =
    create_match_receipt-Stranded same_text from_value (fresh 7) 1 5 1 50 [] ledger after answer
      played waiting_next 3 (unknown 5) (unknown 5) given source_found other_found refl other_waits
      (new_room-IsConsistent 1 (codes "game") 0)
