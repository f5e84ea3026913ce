-- ===== src/Networking/Report/Verify.antt =====
-- What a pair of reports that report.rs accepts has in common.
use open_cade.Prelude.{
  ◌||◌, ◌≤◌, ◌≡◌, ◌≢◌, refl, sym, ap, arith, true, false, not, ◌==◌, ltb, Option, none, some, ◌↔◌,
}
use open_cade.Networking.Report.{
  Label, first, second, MatchVerification, validate_report, verify_match_reports, is_hash,
  is_compatible, is_finished,
}
use open_cade.Prelude.Text.{Text, text_eq, text_eq_iff, is_blank}
use open_cade.Prelude.Outcome.{ok, fail_if, fail_if-ok, through_first}
use open_cade.Protocol.{
  RoomState, finished, waiting, ready, challenging, connecting, playing, cancelled,
}
use open_cade.Protocol.Reports.{
  MatchReport, MatchReportCompatibility, MatchReportRole, MatchReportTransport, host, guest,
  role_eq, transport_eq, optional_compatibility_eq, compatibility_eq, optional_text_eq, direct_udp,
  relay,
}

role_eq_iff : (a b : MatchReportRole) → (role_eq a b ≡ true) ↔ (a ≡ b)
unfolding role_eq
role_eq_iff host host = (λ h. refl, λ e. refl)
role_eq_iff guest guest = (λ h. refl, λ e. refl)
role_eq_iff host guest = (λ h. cc, λ e. cc)
role_eq_iff guest host = (λ h. cc, λ e. cc)

transport_eq_iff : (a b : MatchReportTransport) → (transport_eq a b ≡ true) ↔ (a ≡ b)
unfolding transport_eq
transport_eq_iff direct_udp direct_udp = (λ h. refl, λ e. refl)
transport_eq_iff relay relay = (λ h. refl, λ e. refl)
transport_eq_iff direct_udp relay = (λ h. cc, λ e. cc)
transport_eq_iff relay direct_udp = (λ h. cc, λ e. cc)

optional_text_eq_iff : (a b : Option Text) → (optional_text_eq a b ≡ true) ↔ (a ≡ b)
unfolding optional_text_eq
optional_text_eq_iff none none = (λ h. refl, λ e. refl)
optional_text_eq_iff none (some b) = (λ h. cc, λ e. cc)
optional_text_eq_iff (some a) none = (λ h. cc, λ e. cc)
optional_text_eq_iff (some a) (some b) =
    (λ h. ap some ((text_eq_iff a b).0 h), λ e. (text_eq_iff a b).1 (cc e))

compatibility_eq_iff : (a b : MatchReportCompatibility) → (compatibility_eq a b ≡ true) ↔ (a ≡ b)
unfolding compatibility_eq
compatibility_eq_iff a b = ground (
  arith,
  text_eq_iff a.adapter b.adapter,
  optional_text_eq_iff a.emulator_version b.emulator_version,
  text_eq_iff a.executable_sha256 b.executable_sha256,
  text_eq_iff a.core_sha256 b.core_sha256,
  text_eq_iff a.content_sha256 b.content_sha256,
)

optional_compatibility_eq_iff :
    (a b : Option MatchReportCompatibility) → (optional_compatibility_eq a b ≡ true) ↔ (a ≡ b)
unfolding optional_compatibility_eq
optional_compatibility_eq_iff none none = (λ h. refl, λ e. refl)
optional_compatibility_eq_iff none (some b) = (λ h. cc, λ e. cc)
optional_compatibility_eq_iff (some a) none = (λ h. cc, λ e. cc)
optional_compatibility_eq_iff (some a) (some b) =
    (λ h. ap some ((compatibility_eq_iff a b).0 h), λ e. (compatibility_eq_iff a b).1 (cc e))

is_finished_iff : (s : RoomState) → (is_finished s ≡ true) ↔ (s ≡ finished)
unfolding is_finished
is_finished_iff finished = (λ h. refl, λ e. refl)
is_finished_iff waiting = (λ h. cc, λ e. cc)
is_finished_iff ready = (λ h. cc, λ e. cc)
is_finished_iff challenging = (λ h. cc, λ e. cc)
is_finished_iff connecting = (λ h. cc, λ e. cc)
is_finished_iff playing = (λ h. cc, λ e. cc)
is_finished_iff cancelled = (λ h. cc, λ e. cc)

-- What one side's report must say by itself.
pub record IsEvidence (r : MatchReport) : Type 0 where
  pub version : r.schema_version ≡ 1
  pub over : r.room.state ≡ finished
  pub room_named : is_blank r.room.id ≡ false
  pub game_named : is_blank r.room.game_id ≡ false
  pub complete : r.probe.frames_received ≡ 60
  pub sent_enough : 60 ≤ r.probe.frames_sent
  pub checksum : is_hash 16 r.probe.transcript_checksum ≡ true
  pub compatible : is_compatible r.compatibility ≡ true

validate_report_sound :
    (label : Label) (r : MatchReport) {u : Unit {0}} → validate_report label r ≡ ok u → IsEvidence r
unfolding validate_report
validate_report_sound label r run =
    let (_, e, h) = through_first (fail_if (not (r.schema_version == 1)) _) _ run in
    let (_, e₁, h₁) = through_first (fail_if (not (is_finished r.room.state)) _) _ h in
    let (_, e₂, h₂) =
      through_first (fail_if (is_blank r.room.id || is_blank r.room.game_id) _) _ h₁ in
    let (_, e₃, h₃) = through_first (fail_if (not (r.probe.frames_received == 60)) _) _ h₂ in
    let (_, e₄, h₄) =
      through_first (fail_if (ltb r.probe.frames_sent r.probe.frames_received) _) _ h₃ in
    let (_, e₅, h₅) =
      through_first (fail_if (not (is_hash 16 r.probe.transcript_checksum)) _) _ h₄ in
    let q = fail_if-ok (not (r.schema_version == 1)) _ e in
    let q₁ = fail_if-ok (not (is_finished r.room.state)) _ e₁ in
    let q₂ = fail_if-ok (is_blank r.room.id || is_blank r.room.game_id) _ e₂ in
    let q₃ = fail_if-ok (not (r.probe.frames_received == 60)) _ e₃ in
    let q₄ = fail_if-ok (ltb r.probe.frames_sent r.probe.frames_received) _ e₄ in
    let q₅ = fail_if-ok (not (is_hash 16 r.probe.transcript_checksum)) _ e₅ in
    let q₆ = fail_if-ok (not (is_compatible r.compatibility)) _ h₅ in
    let over = is_finished_iff r.room.state in
    record {
      version = ground arith;
      over = over.0 (ground arith);
      room_named = ground arith;
      game_named = ground arith;
      complete = ground arith;
      sent_enough = ground arith;
      checksum = ground arith;
      compatible = ground arith;
    }

validate_report_complete :
    (label : Label) (r : MatchReport) → IsEvidence r → validate_report label r ≡ ok tt
unfolding validate_report
validate_report_complete label r h =
    let over : is_finished r.room.state ≡ true = (is_finished_iff r.room.state).1 h.over in
    let version : (r.schema_version == 1) ≡ true = ground (arith, h.version) in
    let complete : (r.probe.frames_received == 60) ≡ true = ground (arith, h.complete) in
    let sent : ltb r.probe.frames_sent r.probe.frames_received ≡ false =
      ground (arith, h.complete, h.sent_enough) in
    rw (version, over, h.room_named, h.game_named, complete, sent, h.checksum, h.compatible) refl

-- Two reports of one match, from opposite sides.
pub record IsPair (a b : MatchReport) : Type 0 where
  pub left : IsEvidence a
  pub right : IsEvidence b
  pub same_room : a.room.id ≡ b.room.id
  pub same_game : a.room.game_id ≡ b.room.game_id
  pub opposite : a.probe.role ≢ b.probe.role
  pub same_transcript : a.probe.transcript_checksum ≡ b.probe.transcript_checksum
  pub same_transport : a.probe.transport ≡ b.probe.transport
  pub same_emulator : a.compatibility ≡ b.compatibility

abbrev pub verification_of : MatchReport → MatchVerification
verification_of r = record {
  schema_version = 1;
  verified = true;
  room_id = r.room.id;
  game_id = r.room.game_id;
  transport = r.probe.transport;
  frames_received = 60;
  transcript_checksum = r.probe.transcript_checksum;
}

IsPair-symmetric : (a b : MatchReport) → IsPair a b → IsPair b a
IsPair-symmetric a b h = record {
  left = h.right;
  right = h.left;
  same_room = sym h.same_room;
  same_game = sym h.same_game;
  opposite = λ e. h.opposite (sym e);
  same_transcript = sym h.same_transcript;
  same_transport = sym h.same_transport;
  same_emulator = sym h.same_emulator;
}

verify_match_reports_complete :
    (a b : MatchReport) → IsPair a b → verify_match_reports a b ≡ ok (verification_of a)
unfolding verify_match_reports
verify_match_reports_complete a b h =
    let roles : role_eq a.probe.role b.probe.role ≡ false =
      ground (arith, h.opposite, role_eq_iff a.probe.role b.probe.role) in
    let left : validate_report first a ≡ ok tt = validate_report_complete first a h.left in
    let right : validate_report second b ≡ ok tt = validate_report_complete second b h.right in
    rw
      (
        left,
        right,
        (text_eq_iff a.room.id b.room.id).1 h.same_room,
        (text_eq_iff a.room.game_id b.room.game_id).1 h.same_game,
        roles,
        (text_eq_iff a.probe.transcript_checksum b.probe.transcript_checksum).1 h.same_transcript,
        (transport_eq_iff a.probe.transport b.probe.transport).1 h.same_transport,
        (optional_compatibility_eq_iff a.compatibility b.compatibility).1 h.same_emulator,
      )
      refl

pub verify_match_reports_sound :
    (a b : MatchReport) {v : MatchVerification} → verify_match_reports a b ≡ ok v → IsPair a b
unfolding verify_match_reports
verify_match_reports_sound a b run =
    let (_, e, h) = through_first (validate_report first a) _ run in
    let (_, e₁, h₁) = through_first (validate_report second b) _ h in
    let (_, e₂, h₂) = through_first (fail_if (not (text_eq a.room.id b.room.id)) _) _ h₁ in
    let (_, e₃, h₃) =
      through_first (fail_if (not (text_eq a.room.game_id b.room.game_id)) _) _ h₂ in
    let (_, e₄, h₄) = through_first (fail_if (role_eq a.probe.role b.probe.role) _) _ h₃ in
    let (_, e₅, h₅) =
      through_first
        (fail_if (not (text_eq a.probe.transcript_checksum b.probe.transcript_checksum)) _) _ h₄ in
    let (_, e₆, h₆) =
      through_first (fail_if (not (transport_eq a.probe.transport b.probe.transport)) _) _ h₅ in
    let (_, e₇, h₇) =
      through_first (fail_if (not (optional_compatibility_eq a.compatibility b.compatibility)) _) _
        h₆ in
    let q₂ = fail_if-ok (not (text_eq a.room.id b.room.id)) _ e₂ in
    let q₃ = fail_if-ok (not (text_eq a.room.game_id b.room.game_id)) _ e₃ in
    let q₄ = fail_if-ok (role_eq a.probe.role b.probe.role) _ e₄ in
    let q₅ =
      fail_if-ok (not (text_eq a.probe.transcript_checksum b.probe.transcript_checksum)) _ e₅ in
    let q₆ = fail_if-ok (not (transport_eq a.probe.transport b.probe.transport)) _ e₆ in
    let q₇ = fail_if-ok (not (optional_compatibility_eq a.compatibility b.compatibility)) _ e₇ in
    let roles = role_eq_iff a.probe.role b.probe.role in
    record {
      left = validate_report_sound first a e;
      right = validate_report_sound second b e₁;
      same_room = (text_eq_iff a.room.id b.room.id).0 (ground arith);
      same_game = (text_eq_iff a.room.game_id b.room.game_id).0 (ground arith);
      opposite = λ same. ground (arith, roles.1 same);
      same_transcript =
          (text_eq_iff a.probe.transcript_checksum b.probe.transcript_checksum).0 (ground arith);
      same_transport = (transport_eq_iff a.probe.transport b.probe.transport).0 (ground arith);
      same_emulator =
          (optional_compatibility_eq_iff a.compatibility b.compatibility).0 (ground arith);
    }

-- A pair of reports is verified exactly if each is complete evidence by itself (schema 1, a
-- finished room with a named game, 60 frames received and as many sent at least, a checksum of 16
-- lowercase hexadecimal digits, well-formed emulator hashes if there are any) and both are of one
-- room and game, from opposite roles, with the same transcript, transport and emulator hashes.
-- The verification then carries the first report's room, game, transport and transcript.
pub verify_match_reports_iff :
    (a b : MatchReport) → (verify_match_reports a b ≡ ok (verification_of a)) ↔ IsPair a b
verify_match_reports_iff a b =
    (λ run. verify_match_reports_sound a b run, λ h. verify_match_reports_complete a b h)

-- Which report comes first makes no difference: if a pair is verified then the swapped pair is, with
-- the same verification.
pub verify_match_reports_comm :
    (a b : MatchReport) (v : MatchVerification)
    → verify_match_reports a b ≡ ok v
    → verify_match_reports b a ≡ ok v
verify_match_reports_comm a b v run =
    let pair = verify_match_reports_sound a b run in
    let forth = verify_match_reports_complete a b pair in
    let back = verify_match_reports_complete b a (IsPair-symmetric a b pair) in
    cc (run, forth, back, pair.same_room, pair.same_game, pair.same_transport, pair.same_transcript)
