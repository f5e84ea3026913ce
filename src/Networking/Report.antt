-- ===== src/Networking/Report.antt =====
-- packages/networking/src/report.rs: the checks of one report and of a pair. A result's `()` is `tt`.
pub mod Verify
pub mod Campaign
pub mod Summary
pub mod Read
mod Tests
use open_cade.Prelude.{
  ℕ, Bool, true, false, ◌||◌, ◌&&◌, not, ◌==◌, ltb, leb, Option, none, some, List, [], ◌∷◌, length,
  all, if◌then◌else◌,
}
use open_cade.Prelude.Text.{Text, codes, text_eq, is_blank}
use open_cade.Prelude.Outcome.{Outcome, err, ok, ◌>>=◌, ◌>>◌, fail_if}
use open_cade.Protocol.{
  RoomState, waiting, ready, challenging, connecting, playing, finished, cancelled,
}
use open_cade.Protocol.Reports.{
  MatchReport, MatchReportCompatibility, MatchReportTransport, match_report_schema_version, role_eq,
  transport_eq, optional_compatibility_eq,
}

abbrev pub alpha_match_frames : ℕ
alpha_match_frames = 60

pub record MatchVerification : Type 0 where
  pub schema_version : ℕ
  pub verified : Bool
  pub room_id : Text
  pub game_id : Text
  pub transport : MatchReportTransport
  pub frames_received : ℕ
  pub transcript_checksum : Text

-- which of the two reports an error is about
pub data Label : Type 0 where
  first second : Label

pub data ReportVerificationError : Type 0 where
  pair_size : (reports : ℕ) → ReportVerificationError
  unsupported_schema : (report : Label) (version : ℕ) → ReportVerificationError
  room_not_finished empty_correlation incomplete_transcript :
      (report : Label) → ReportVerificationError
  invalid_frame_counts invalid_checksum : (report : Label) → ReportVerificationError
  room_mismatch game_mismatch role_mismatch checksum_mismatch : ReportVerificationError
  transport_mismatch compatibility_mismatch : ReportVerificationError
  compatibility_missing invalid_compatibility : (report : Label) → ReportVerificationError

unfoldable pub code : ReportVerificationError → Text
code (pair_size reports) = codes "report_pair_invalid"
code (unsupported_schema report version) = codes "schema_unsupported"
code (room_not_finished report) = codes "room_not_finished"
code (empty_correlation report) = codes "correlation_missing"
code (incomplete_transcript report) = codes "transcript_incomplete"
code (invalid_frame_counts report) = codes "frame_counts_invalid"
code (invalid_checksum report) = codes "checksum_invalid"
code room_mismatch = codes "room_mismatch"
code game_mismatch = codes "game_mismatch"
code role_mismatch = codes "role_mismatch"
code checksum_mismatch = codes "checksum_mismatch"
code transport_mismatch = codes "transport_mismatch"
code compatibility_mismatch = codes "compatibility_mismatch"
code (compatibility_missing report) = codes "compatibility_missing"
code (invalid_compatibility report) = codes "compatibility_invalid"

unfoldable pub is_finished : RoomState → Bool
is_finished finished = true
is_finished _ = false

-- An ASCII digit or a letter from `a` to `f`.
unfoldable pub is_lower_hex : ℕ → Bool
is_lower_hex byte = (leb b'0' byte && leb byte b'9') || (leb b'a' byte && leb byte b'f')

unfoldable pub is_hash : ℕ → Text → Bool
unfolding is_lower_hex
is_hash size hash = length hash == size && all is_lower_hex hash

unfoldable pub blank_version : Option Text → Bool
blank_version none = false
blank_version (some version) = is_blank version

unfoldable pub is_compatible : Option MatchReportCompatibility → Bool
unfolding is_hash blank_version
is_compatible none = true
is_compatible (some c) = not (
    is_blank c.adapter
    || blank_version c.emulator_version
    || not
        (is_hash 64 c.executable_sha256 && is_hash 64 c.core_sha256 && is_hash 64 c.content_sha256))

unfoldable pub validate_report : Label → MatchReport → Outcome ReportVerificationError (Unit {0})
unfolding is_finished is_hash is_compatible
validate_report label r = do
  done ←
      fail_if (not (r.schema_version == match_report_schema_version))
        (unsupported_schema label r.schema_version)
  done ← fail_if (not (is_finished r.room.state)) (room_not_finished label)
  done ← fail_if (is_blank r.room.id || is_blank r.room.game_id) (empty_correlation label)
  done ← fail_if (not (r.probe.frames_received == alpha_match_frames)) (incomplete_transcript label)
  done ← fail_if (ltb r.probe.frames_sent r.probe.frames_received) (invalid_frame_counts label)
  done ← fail_if (not (is_hash 16 r.probe.transcript_checksum)) (invalid_checksum label)
  fail_if (not (is_compatible r.compatibility)) (invalid_compatibility label)

unfoldable pub verify_match_reports :
    MatchReport → MatchReport → Outcome ReportVerificationError MatchVerification
unfolding validate_report
verify_match_reports a b = do
  done ← validate_report first a
  done ← validate_report second b
  done ← fail_if (not (text_eq a.room.id b.room.id)) room_mismatch
  done ← fail_if (not (text_eq a.room.game_id b.room.game_id)) game_mismatch
  done ← fail_if (role_eq a.probe.role b.probe.role) role_mismatch
  done ←
      fail_if (not (text_eq a.probe.transcript_checksum b.probe.transcript_checksum))
        checksum_mismatch
  done ← fail_if (not (transport_eq a.probe.transport b.probe.transport)) transport_mismatch
  done ←
      fail_if (not (optional_compatibility_eq a.compatibility b.compatibility))
        compatibility_mismatch
  ok (record {
    schema_version = match_report_schema_version;
    verified = true;
    room_id = a.room.id;
    game_id = a.room.game_id;
    transport = a.probe.transport;
    frames_received = alpha_match_frames;
    transcript_checksum = a.probe.transcript_checksum;
  })

unfoldable pub is_none {ℓ} : {A : Type ℓ} → Option A → Bool
is_none none = true
is_none (some value) = false

unfoldable pub verify_playable_match_reports :
    MatchReport → MatchReport → Outcome ReportVerificationError MatchVerification
unfolding verify_match_reports is_none
verify_playable_match_reports a b = do
  done ← fail_if (is_none a.compatibility) (compatibility_missing first)
  done ← fail_if (is_none b.compatibility) (compatibility_missing second)
  verify_match_reports a b
