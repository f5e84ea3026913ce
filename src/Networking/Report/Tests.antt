-- ===== src/Networking/Report/Tests.antt =====
-- report.rs on the reports of its own tests.
use open_cade.Prelude.{◌+◌, ◌≡◌, refl, none, some, List, [], ◌∷◌, ◌↔◌}
use open_cade.Prelude.Text.{codes, text_eq, is_blank}
use open_cade.Prelude.Outcome.{err, ok}
use open_cade.Protocol.{finished, connecting}
use open_cade.Protocol.Reports.{
  MatchReport, AlphaFailureReport, MatchReportRole, host, guest, direct_udp, relay, mapped_nat,
  reflexive_candidate, relay_stage, role_eq, transport_eq, optional_compatibility_eq,
}
use open_cade.Networking.Report.{verify_match_reports, role_mismatch}
use open_cade.Networking.Report.Verify.{verify_match_reports_iff, verification_of, IsPair}
use open_cade.Prelude.Sorted.{text_cmp, list_cmp, update, get, insert_key, has_key}
use open_cade.Networking.Report.Campaign.{key_cmp}
use open_cade.Networking.Report.Summary.{summarize_campaign_evidence}
use open_cade.Networking.Report.Summary.Once.{Accounts, summarize_campaign_evidence-Accounts}

abbrev report : MatchReportRole → MatchReport
report role = record {
  schema_version = 1;
  exported_at = 0;
  room = record { id = codes "room-1"; game_id = codes "sfiii3"; state = finished };
  probe = record {
    role = role;
    transport = direct_udp;
    frames_sent = 64;
    frames_received = 60;
    transcript_checksum = codes "0376c2e852f4fd25";
    elapsed_ms = 240;
    nat = some mapped_nat;
    candidate = some reflexive_candidate;
    punch_attempts = some 2;
  };
  client = record { platform = codes "windows"; user_agent = codes "opencade-test" };
  compatibility = none;
  native_route = none;
}

abbrev failure_report : AlphaFailureReport
failure_report = record {
  schema_version = 1;
  exported_at = 0;
  room = record { id = codes "failed-room"; game_id = codes "sfiii3"; state = connecting };
  role = host;
  stage = relay_stage;
  error_code = codes "relay_timeout";
  transport = some relay;
  native_route = none;
  client = record { platform = codes "windows"; user_agent = codes "opencade-test" };
}

complementary :
    verify_match_reports (report host) (report guest) ≡ ok (verification_of (report host))
unfolding verify_match_reports role_eq transport_eq optional_compatibility_eq text_eq is_blank
complementary = refl

one_side_twice : verify_match_reports (report host) (report host) ≡ err role_mismatch
unfolding verify_match_reports role_eq transport_eq optional_compatibility_eq text_eq is_blank
one_side_twice = refl

verify_match_reports_iff_example :
    (verify_match_reports (report host) (report guest) ≡ ok (verification_of (report host)))
    ↔ IsPair (report host) (report guest)
verify_match_reports_iff_example = verify_match_reports_iff (report host) (report guest)

abbrev reports : List MatchReport
reports = report host ∷ report guest ∷ []

abbrev failures : List AlphaFailureReport
failures = failure_report ∷ []

one_of_two :
    (summarize_campaign_evidence reports failures).verified
      + (summarize_campaign_evidence reports failures).attempts
    ≡ 3
unfolding summarize_campaign_evidence verify_match_reports role_eq transport_eq
    optional_compatibility_eq text_eq is_blank text_cmp key_cmp list_cmp update get insert_key
    has_key
one_of_two = refl

summarize_campaign_evidence-Accounts_example :
    Accounts reports failures (summarize_campaign_evidence reports failures)
summarize_campaign_evidence-Accounts_example = summarize_campaign_evidence-Accounts reports failures
