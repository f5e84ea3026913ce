-- ===== src/Networking/Report/Campaign.antt =====
-- packages/networking/src/report.rs: `summarize_campaign_evidence` and what it calls. The success rate
-- is the exact quotient of `verified` and `attempts`: the rounding of the source's `f64` decides
-- `success_rate >= 0.8` otherwise only from 10^15 rooms on, which no memory holds.
use Prim.Native.Nat.{Ordering}
use open_cade.Prelude.{
  ℕ, ◌≡◌, ◌↔◌, ap, Bool, true, false, ◌||◌, ◌&&◌, not, ◌==◌, leb, Option, none, some, List, [], ◌∷◌,
  map, length, all,
}
use open_cade.Prelude.Text.{Text, codes, is_blank}
use open_cade.Prelude.Sorted.{
  Ord, BTreeMap, insert_key, list_cmp, list_cmp_iff, text_cmp, text_cmp_iff, text_ord,
}
use open_cade.Prelude.Outcome.{Outcome, err, ok, ◌>>=◌, fail_if}
use open_cade.Protocol.Reports.{
  MatchReport, AlphaFailureReport, MatchReportTransport, NatMappingState, MatchCandidateKind,
  direct_udp, relay, unknown_nat, open_nat, mapped_nat, host_candidate, reflexive_candidate,
  alpha_failure_report_schema_version,
}
use open_cade.Networking.Report.{verify_match_reports, code}

pub record CompatibilityKey : Type 0 where
  pub game_id : Text
  pub platform : Text
  pub transport : Text
  pub nat : Text
  pub candidate : Text

abbrev components : CompatibilityKey → List Text
components k = k.game_id ∷ k.platform ∷ k.transport ∷ k.nat ∷ k.candidate ∷ []

components-injective : (a b : CompatibilityKey) → components a ≡ components b → a ≡ b
components-injective a b e = cc

unfoldable pub key_cmp : CompatibilityKey → CompatibilityKey → Ordering
unfolding list_cmp
key_cmp a b = list_cmp text_cmp (components a) (components b)

pub key_cmp_iff : (a b : CompatibilityKey) → (key_cmp a b ≡ Ordering.eq) ↔ (a ≡ b)
unfolding key_cmp
key_cmp_iff a b = (
  λ h.
      components-injective a b
        ((list_cmp_iff text_cmp text_cmp_iff (components a) (components b)).0 h),
  λ e. (list_cmp_iff text_cmp text_cmp_iff (components a) (components b)).1 (ap components e),
)

-- The order of the source's tuples.
instance abbrev pub key_ord : Ord CompatibilityKey
key_ord = record { cmp = key_cmp; cmp_iff = key_cmp_iff }

pub record CompatibilityCounts : Type 0 where
  pub attempts : ℕ
  pub verified : ℕ

pub record AlphaCampaignFailure : Type 0 where
  pub room_id : Text
  pub code : Text

pub record AlphaCampaignSummary : Type 0 where
  pub schema_version : ℕ
  pub reports : ℕ
  pub attempts : ℕ
  pub verified : ℕ
  pub failed : ℕ
  pub gate_passed : Bool
  pub failures : List AlphaCampaignFailure
  pub compatibility : BTreeMap CompatibilityKey CompatibilityCounts

pub data FailureEvidenceError : Type 0 where
  unsupported_schema empty_correlation invalid_code : FailureEvidenceError

unfoldable pub failure_code : FailureEvidenceError → Text
failure_code unsupported_schema = codes "schema_unsupported"
failure_code empty_correlation = codes "correlation_missing"
failure_code invalid_code = codes "failure_code_invalid"

unfoldable pub is_code_byte : ℕ → Bool
is_code_byte byte =
    (leb b'a' byte && leb byte b'z') || (leb b'0' byte && leb byte b'9') || byte == b'_'

unfoldable pub validate_failure_report :
    AlphaFailureReport → Outcome FailureEvidenceError (Unit {0})
unfolding is_code_byte
validate_failure_report r = do
  done ← fail_if (not (r.schema_version == alpha_failure_report_schema_version)) unsupported_schema
  done ← fail_if (is_blank r.room.id || is_blank r.room.game_id) empty_correlation
  fail_if
      (not (
        leb 3 (length r.error_code)
        && leb (length r.error_code) 64
        && all is_code_byte r.error_code))
      invalid_code

unfoldable pub transport_label : MatchReportTransport → Text
transport_label direct_udp = codes "direct_udp"
transport_label relay = codes "relay"

unfoldable pub optional_transport_label : Option MatchReportTransport → Text
unfolding transport_label
optional_transport_label none = codes "not_selected"
optional_transport_label (some transport) = transport_label transport

unfoldable pub nat_label : Option NatMappingState → Text
nat_label (some open_nat) = codes "open"
nat_label (some mapped_nat) = codes "mapped"
nat_label (some unknown_nat) = codes "unknown"
nat_label none = codes "unknown"

unfoldable pub candidate_label : Option MatchCandidateKind → Text
candidate_label (some host_candidate) = codes "host"
candidate_label (some reflexive_candidate) = codes "reflexive"
candidate_label none = codes "unknown"

-- `for report in failures { validate_failure_report(report)?; }`
unfoldable pub validate_all : List AlphaFailureReport → Outcome Text (Unit {0})
unfolding validate_failure_report failure_code
validate_all [] = ok tt
validate_all (r ∷ rest) =
    let later = validate_all rest in
    elim (validate_failure_report r) [ err reason ↦ err (failure_code reason) | ok done ↦ later ]

unfoldable pub distinct : List Text → List Text
distinct [] = []
distinct (text ∷ rest) = insert_key text (distinct rest)

-- `Iterator::min`
unfoldable pub minimum : Text → List Text → Text
minimum least [] = least
minimum least (text ∷ rest) = elim (text_cmp text least) [
  | Ordering.lt ↦ minimum text rest
  | Ordering.eq ↦ minimum least rest
  | Ordering.gt ↦ minimum least rest
]

unfoldable pub least_code : List Text → Text
unfolding minimum
least_code [] = codes "attempt_failed"
least_code (text ∷ rest) = minimum text rest

unfoldable pub is_nil {ℓ} : {A : Type ℓ} → List A → Bool
is_nil [] = true
is_nil (x ∷ xs) = false

unfoldable pub failure_result : List MatchReport → List AlphaFailureReport → Outcome Text (Unit {0})
unfolding validate_all distinct least_code is_nil
failure_result matches failures = do
  done ← fail_if (not (is_nil matches)) (codes "evidence_conflict")
  done ← validate_all failures
  done ←
      fail_if
        (not (length (distinct (map (λ (r : AlphaFailureReport). r.room.game_id) failures)) == 1))
        (codes "evidence_conflict")
  err (least_code (map (λ (r : AlphaFailureReport). r.error_code) failures))

unfoldable pub pair_result : List MatchReport → Outcome Text (Unit {0})
unfolding verify_match_reports code
pair_result (a ∷ b ∷ []) = elim (verify_match_reports a b) [
  | err reason ↦ err (code reason)
  | ok verification ↦ ok tt
]
pair_result _ = err (codes "report_pair_invalid")

unfoldable pub room_result : List MatchReport → List AlphaFailureReport → Outcome Text (Unit {0})
unfolding failure_result pair_result
room_result pair [] = pair_result pair
room_result pair (r ∷ rest) = failure_result pair (r ∷ rest)

abbrev pub or_empty {ℓ} : {A : Type ℓ} → Option (List A) → List A
or_empty none = []
or_empty (some list) = list
