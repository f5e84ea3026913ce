-- ===== src/Networking/Report/Read.antt =====
-- packages/networking/src/report.rs: reading a report from a file. serde_json is the record `Serde`.
use open_cade.Prelude.{ℕ, suc, ◌*◌, ltb, Option, length, take, if◌then◌else◌}
use open_cade.Prelude.Text.{Text, codes, text_eq}
use open_cade.Prelude.Outcome.{Outcome, err, ok, ◌>>=◌, or_fail, fail_if}
use open_cade.Protocol.Reports.{MatchReport, AlphaFailureReport}

abbrev pub max_report_bytes : ℕ
max_report_bytes = 64 * 1024

pub data ReportReadError : Type 0 where
  unreadable too_large invalid : ReportReadError

unfoldable pub code : ReportReadError → Text
code unreadable = codes "report_unreadable"
code too_large = codes "report_too_large"
code invalid = codes "report_invalid"

-- The entry `kind` of a JSON value: there is none, or a string, or something else.
pub data Kind : Type 0 where
  absent other_value : Kind
  string : Text → Kind

pub record Serde : Type 1 where
  pub Value : Type 0
  pub from_slice : Text → Option Value
  pub kind : Value → Kind
  pub match_report : Value → Option MatchReport
  pub failure_report : Value → Option AlphaFailureReport

pub data AlphaCampaignEvidence : Type 0 where
  match_evidence : MatchReport → AlphaCampaignEvidence
  failure_evidence : AlphaFailureReport → AlphaCampaignEvidence

-- The file's bytes, or `none` if it does not open or read.
unfoldable pub read_bounded_bytes : Option Text → Outcome ReportReadError Text
read_bounded_bytes file = do
  contents ← or_fail file unreadable
  done ← fail_if (ltb max_report_bytes (length (take (suc max_report_bytes) contents))) too_large
  ok (take (suc max_report_bytes) contents)

module _ (s : Serde) where
  abbrev evidence_of : s.Value → Kind → Outcome ReportReadError AlphaCampaignEvidence
  evidence_of value absent = or_fail (s.match_report value) invalid >>= λ r. ok (match_evidence r)
  evidence_of value other_value = err invalid
  evidence_of value (string kind) =
      if text_eq kind (codes "attempt_failure")
      then (or_fail (s.failure_report value) invalid >>= λ r. ok (failure_evidence r))
      else err invalid

  unfoldable pub read_match_report : Option Text → Outcome ReportReadError MatchReport
  unfolding read_bounded_bytes
  read_match_report file = do
    bytes ← read_bounded_bytes file
    value ← or_fail (s.from_slice bytes) invalid
    or_fail (s.match_report value) invalid

  unfoldable pub read_campaign_evidence :
      Option Text → Outcome ReportReadError AlphaCampaignEvidence
  unfolding read_bounded_bytes
  read_campaign_evidence file = do
    bytes ← read_bounded_bytes file
    value ← or_fail (s.from_slice bytes) invalid
    evidence_of value (s.kind value)
