-- ===== src/Networking/Report/Summary.antt =====
-- packages/networking/src/report.rs: the loop of `summarize_campaign_evidence`.
pub mod Accounts
pub mod Once
pub mod Keys
pub mod Rows
use open_cade.Prelude.{
  ℕ, suc, ◌+◌, ◌-◌, ◌*◌, Bool, true, false, ◌||◌, ◌&&◌, not, leb, Option, none, some, List, [], ◌∷◌,
  ◌++◌, length, if◌then◌else◌,
}
use open_cade.Prelude.Text.{Text, codes}
use open_cade.Prelude.Sorted.{BTreeMap, update, get, keys, insert_key, has_key, text_ord}
use open_cade.Prelude.Outcome.{Outcome, err, ok}
use open_cade.Protocol.Reports.{MatchReport, AlphaFailureReport}
use open_cade.Networking.Report.Campaign.{
  CompatibilityKey, CompatibilityCounts, AlphaCampaignFailure, AlphaCampaignSummary, key_ord,
  transport_label, optional_transport_label, nat_label, candidate_label, room_result, or_empty,
}

-- `rooms.entry(report.room.id.clone()).or_default().push(report)` for each report
unfoldable pub group :
    {R : Type 0} → (R → Text) → List R → BTreeMap Text (List R) → BTreeMap Text (List R)
group room_of [] rooms = rooms
group room_of (r ∷ rest) rooms =
    group room_of rest (update (room_of r) [] (λ list. list ++ r ∷ []) rooms)

unfoldable pub match_rooms : List MatchReport → BTreeMap Text (List MatchReport)
unfolding group
match_rooms reports = group (λ r. r.room.id) reports []

unfoldable pub failed_rooms : List AlphaFailureReport → BTreeMap Text (List AlphaFailureReport)
unfolding group
failed_rooms reports = group (λ r. r.room.id) reports []

-- `keys.collect()`
unfoldable pub collect : List Text → List Text → List Text
collect set [] = set
collect set (key ∷ rest) = collect (insert_key key set) rest

-- The rows, and what the present room was counted in.
pub record Counting : Type 0 where
  pub seen : List CompatibilityKey
  pub rows : BTreeMap CompatibilityKey CompatibilityCounts

abbrev pub no_counts : CompatibilityCounts
no_counts = record { attempts = 0; verified = 0 }

abbrev pub count_attempt : Bool → CompatibilityCounts → CompatibilityCounts
count_attempt is_verified counts = record {
  attempts = suc counts.attempts;
  verified = if is_verified then suc counts.verified else counts.verified;
}

unfoldable pub count_row : Bool → CompatibilityKey → Counting → Counting
count_row is_verified key c = if has_key key c.seen then c else record {
  seen = insert_key key c.seen;
  rows = update key no_counts (count_attempt is_verified) c.rows;
}

abbrev pub match_key : MatchReport → CompatibilityKey
match_key r = record {
  game_id = r.room.game_id;
  platform = r.client.platform;
  transport = transport_label r.probe.transport;
  nat = nat_label r.probe.nat;
  candidate = candidate_label r.probe.candidate;
}

abbrev pub failure_key : AlphaFailureReport → CompatibilityKey
failure_key r = record {
  game_id = r.room.game_id;
  platform = r.client.platform;
  transport = optional_transport_label r.transport;
  nat = codes "unknown";
  candidate = codes "unknown";
}

unfoldable pub count_matches : Bool → List MatchReport → Counting → Counting
unfolding count_row
count_matches is_verified [] c = c
count_matches is_verified (r ∷ rest) c =
    count_matches is_verified rest (count_row is_verified (match_key r) c)

unfoldable pub count_failures : List AlphaFailureReport → Counting → Counting
unfolding count_row
count_failures [] c = c
count_failures (r ∷ rest) c = count_failures rest (count_row false (failure_key r) c)

-- What the loop over the rooms has so far.
pub record Tally : Type 0 where
  pub verified : ℕ
  pub failures : List AlphaCampaignFailure
  pub rows : BTreeMap CompatibilityKey CompatibilityCounts

unfoldable pub is_ok : Outcome Text (Unit {0}) → Bool
is_ok (ok done) = true
is_ok (err reason) = false

unfoldable pub record_result : Text → Outcome Text (Unit {0}) → Tally → Tally
record_result room_id (ok done) t = record t { verified = suc t.verified }
record_result room_id (err reason) t = record t {
  failures = t.failures ++ record { room_id = room_id; code = reason } ∷ [];
}

unfoldable pub count_room : Text → List MatchReport → List AlphaFailureReport → Tally → Tally
unfolding room_result is_ok record_result count_matches count_failures
count_room room_id pair abandoned t =
    let result = room_result pair abandoned in
    let t₁ = record_result room_id result t in
    let counted =
      count_failures abandoned
        (count_matches (is_ok result) pair (record { seen = []; rows = t₁.rows })) in
    record t₁ { rows = counted.rows }

module _ (rooms : BTreeMap Text (List MatchReport))
    (abandoned : BTreeMap Text (List AlphaFailureReport)) where
  unfoldable pub count_rooms : List Text → Tally → Tally
  unfolding count_room
  count_rooms [] t = t
  count_rooms (room_id ∷ rest) t =
      count_rooms rest
        (count_room room_id (or_empty (get room_id rooms)) (or_empty (get room_id abandoned)) t)

abbrev pub nothing_yet : Tally
nothing_yet = record { verified = 0; failures = []; rows = [] }

unfoldable pub room_ids : List MatchReport → List AlphaFailureReport → List Text
unfolding collect match_rooms failed_rooms
room_ids reports failure_reports =
    collect [] (keys (match_rooms reports) ++ keys (failed_rooms failure_reports))

unfoldable pub tally : List MatchReport → List AlphaFailureReport → Tally
unfolding count_rooms room_ids
tally reports failure_reports =
    count_rooms (match_rooms reports) (failed_rooms failure_reports)
      (room_ids reports failure_reports) nothing_yet

unfoldable pub summarize_campaign_evidence :
    List MatchReport → List AlphaFailureReport → AlphaCampaignSummary
unfolding tally
summarize_campaign_evidence reports failure_reports =
    let attempts = length (room_ids reports failure_reports) in
    let t = tally reports failure_reports in
    record {
      schema_version = 1;
      reports = length reports + length failure_reports;
      attempts = attempts;
      verified = t.verified;
      failed = attempts - t.verified;
      gate_passed = leb 10 attempts && leb (4 * attempts) (5 * t.verified);
      failures = t.failures;
      compatibility = t.rows;
    }

unfoldable pub summarize_match_reports : List MatchReport → AlphaCampaignSummary
unfolding summarize_campaign_evidence
summarize_match_reports reports = summarize_campaign_evidence reports []
