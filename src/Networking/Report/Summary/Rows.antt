-- ===== src/Networking/Report/Summary/Rows.antt =====
-- A room counts at most once in a row of the compatibility table.
use open_cade.Prelude.{
  ◌&&◌, ℕ, suc, ◌+◌, ◌≤◌, ◌≡◌, ◌⊎◌, refl, sym, subst, arith, Bool, true, false, List, [], ◌∷◌,
  length, All, Bool-cases, inl, inr, if◌then◌else◌,
}
use Prim.Native.Nat.{Ordering}
use open_cade.Prelude.Text.{Text}
use open_cade.Prelude.Sorted.{
  BTreeMap, update, get, insert_key, has_key, has_key-insert_key, text_ord,
}
use open_cade.Prelude.Outcome.{Outcome-cases}
use open_cade.Protocol.Reports.{MatchReport, AlphaFailureReport}
use open_cade.Networking.Report.Campaign.{
  CompatibilityKey, CompatibilityCounts, key_ord, key_cmp, key_cmp_iff, room_result, or_empty,
}
use open_cade.Networking.Report.Summary.{
  Counting, Tally, no_counts, count_attempt, count_row, match_key, failure_key, count_matches,
  count_failures, count_room, count_rooms, record_result, is_ok, nothing_yet, room_ids, match_rooms,
  failed_rooms, summarize_campaign_evidence,
}

Ordering-cases : (o : Ordering) → (o ≡ Ordering.lt) ⊎ ((o ≡ Ordering.eq) ⊎ (o ≡ Ordering.gt))
Ordering-cases Ordering.lt = inl refl
Ordering-cases Ordering.eq = inr (inl refl)
Ordering-cases Ordering.gt = inr (inr refl)

abbrev Rows : Type 0
Rows = BTreeMap CompatibilityKey CompatibilityCounts

-- An update moves a predicate of the rows to another.
module _ (P Q : CompatibilityKey × CompatibilityCounts → Type 0) (new : CompatibilityKey)
    (change : CompatibilityCounts → CompatibilityCounts)
    (others : (key : CompatibilityKey) (c : CompatibilityCounts) → P (key, c) → Q (key, c))
    (hit : (c : CompatibilityCounts) → P (new, c) → Q (new, change c))
    (fresh : Q (new, change no_counts)) where
  keep : (rows : Rows) → All P rows → All Q rows
  keep [] h = h
  keep ((key, c) ∷ rest) h = (others key c h.0, keep rest h.1)

  All-update : (rows : Rows) → All P rows → All Q (update new no_counts change rows)
  unfolding update
  All-update [] h = (fresh, tt)
  All-update ((key, c) ∷ rest) h = elim (Ordering-cases (key_cmp new key)) [
    | inl before ↦ rw (before, All, update) (fresh, keep ((key, c) ∷ rest) h)
    | inr (inl same) ↦
        let e = (key_cmp_iff new key).0 same in
        rw (same, All, update)
          (
            subst (λ k. Q (k, change c)) e (hit c (subst (λ k. P (k, c)) (sym e) h.0)),
            keep rest h.1,
          )
    | inr (inr after) ↦ rw (after, All, update) (others key c h.0, All-update rest h.1)
  ]

abbrev bump : Bool → ℕ
bump b = if b then 1 else 0

-- A row when `rooms` rooms and `verified` verified ones are counted, and the present room, verified
-- or not by `now`, is counted where `seen` says.
abbrev FitsRow :
    (rooms verified : ℕ) (now : Bool)
    → List CompatibilityKey
    → CompatibilityKey × CompatibilityCounts
    → Type 0
FitsRow rooms verified now seen (key, c) =
    (c.verified ≤ c.attempts)
    × (c.attempts ≤ rooms + bump (has_key key seen))
    × (c.verified ≤ verified + bump (has_key key seen && now))

module _ (rooms verified : ℕ) (now : Bool) where
  count_row-FitsRow :
      (is_verified : Bool) (key : CompatibilityKey) (c : Counting)
      → bump is_verified ≤ bump now
      → All (FitsRow rooms verified now c.seen) c.rows
      → All
          (FitsRow rooms verified now (count_row is_verified key c).seen)
          (count_row is_verified key c).rows
  unfolding count_row
  count_row-FitsRow is_verified key c le h = elim (Bool-cases (has_key key c.seen)) [
    | inl old ↦ rw old h
    | inr new ↦ rw new (
        All-update (FitsRow rooms verified now c.seen)
          (FitsRow rooms verified now (insert_key key c.seen)) key (count_attempt is_verified)
          (λ other counts row. ground (arith, has_key-insert_key key other c.seen))
          (λ counts row. ground (arith, has_key-insert_key key key c.seen))
          (ground (arith, has_key-insert_key key key c.seen)) c.rows h)
  ]

  count_matches-FitsRow :
      (pair : List MatchReport) (c : Counting)
      → All (FitsRow rooms verified now c.seen) c.rows
      → All
          (FitsRow rooms verified now (count_matches now pair c).seen)
          (count_matches now pair c).rows
  unfolding count_matches
  count_matches-FitsRow [] c h = h
  count_matches-FitsRow (r ∷ rest) c h =
      count_matches-FitsRow rest (count_row now (match_key r) c)
        (count_row-FitsRow now (match_key r) c (omega arith) h)

  count_failures-FitsRow :
      (abandoned : List AlphaFailureReport) (c : Counting)
      → All (FitsRow rooms verified now c.seen) c.rows
      → All
          (FitsRow rooms verified now (count_failures abandoned c).seen)
          (count_failures abandoned c).rows
  unfolding count_failures
  count_failures-FitsRow [] c h = h
  count_failures-FitsRow (r ∷ rest) c h =
      count_failures-FitsRow rest (count_row false (failure_key r) c)
        (count_row-FitsRow false (failure_key r) c (ground arith) h)

-- The row is within the totals.
abbrev pub WithinTotals : (rooms verified : ℕ) → CompatibilityKey × CompatibilityCounts → Type 0
WithinTotals rooms verified (key, c) =
    (c.verified ≤ c.attempts) × (c.attempts ≤ rooms) × (c.verified ≤ verified)

start :
    (rooms verified : ℕ) (now : Bool) (rows : Rows)
    → All (WithinTotals rooms verified) rows
    → All (FitsRow rooms verified now []) rows
unfolding has_key
start rooms verified now [] h = h
start rooms verified now ((key, c) ∷ rest) h =
    (ground (arith, h.0), start rooms verified now rest h.1)

finish :
    (rooms verified total : ℕ) (now : Bool) (seen : List CompatibilityKey) (rows : Rows)
    → verified + bump now ≡ total
    → All (FitsRow rooms verified now seen) rows
    → All (WithinTotals (suc rooms) total) rows
finish rooms verified total now seen [] e h = h
finish rooms verified total now seen ((key, c) ∷ rest) e h =
    (ground (arith, h.0), finish rooms verified total now seen rest e h.1)

count_room-WithinTotals :
    (rooms : ℕ) (id : Text) (pair : List MatchReport) (abandoned : List AlphaFailureReport)
    (t : Tally)
    → All (WithinTotals rooms t.verified) t.rows
    → All
        (WithinTotals (suc rooms) (count_room id pair abandoned t).verified)
        (count_room id pair abandoned t).rows
unfolding count_room record_result is_ok
count_room-WithinTotals rooms id pair abandoned t h =
    elim (Outcome-cases (room_result pair abandoned)) [
      | inl (done, e) ↦ rw (e, is_ok, record_result) (counted true (suc t.verified) (omega arith))
      | inr (reason, e) ↦ rw (e, is_ok, record_result) (counted false t.verified (omega arith))
    ]
  where
    counted :
        (now : Bool) (total : ℕ)
        → t.verified + bump now ≡ total
        → All
            (WithinTotals (suc rooms) total)
            (count_failures abandoned
              (count_matches now pair (record { seen = []; rows = t.rows }))).rows
    counted now total e =
        let c = count_matches now pair (record { seen = []; rows = t.rows }) in
        finish rooms t.verified total now (count_failures abandoned c).seen
          (count_failures abandoned c).rows e
          (count_failures-FitsRow rooms t.verified now abandoned c (
            count_matches-FitsRow rooms t.verified now pair (record { seen = []; rows = t.rows })
              (start rooms t.verified now t.rows h)))

module _ (rooms : BTreeMap Text (List MatchReport))
    (abandoned : BTreeMap Text (List AlphaFailureReport)) where
  count_rooms-WithinTotals :
      (ids : List Text) (done total : ℕ) (t : Tally)
      → length ids + done ≡ total
      → All (WithinTotals done t.verified) t.rows
      → All
          (WithinTotals total (count_rooms rooms abandoned ids t).verified)
          (count_rooms rooms abandoned ids t).rows
  unfolding count_rooms
  count_rooms-WithinTotals [] done total t e h =
      let same : done ≡ total = omega arith in rw (sym same) h
  count_rooms-WithinTotals (id ∷ rest) done total t e h =
      count_rooms-WithinTotals rest (suc done) total _ (omega arith) (
        count_room-WithinTotals done id (or_empty (get id rooms)) (or_empty (get id abandoned)) t h)

-- In every row of the compatibility table the verified rooms are at most the attempts, the attempts
-- at most the rooms of the campaign, and the verified ones at most its verified rooms: however
-- many reports of a room fall into one row, the room counts once there.
pub summarize_campaign_evidence-WithinTotals :
    (reports : List MatchReport) (failure_reports : List AlphaFailureReport)
    → let s = summarize_campaign_evidence reports failure_reports in
      All (WithinTotals s.attempts s.verified) s.compatibility
unfolding summarize_campaign_evidence
summarize_campaign_evidence-WithinTotals reports failure_reports =
    count_rooms-WithinTotals (match_rooms reports) (failed_rooms failure_reports)
      (room_ids reports failure_reports) 0 (length (room_ids reports failure_reports)) nothing_yet
      (omega arith) tt
