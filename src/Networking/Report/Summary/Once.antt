-- ===== src/Networking/Report/Summary/Once.antt =====
-- Every room of a campaign is counted once, and is listed exactly if its reports do not verify.
use open_cade.Prelude.Text.{Text, text_eq, text_eq_iff}
use open_cade.Prelude.{
  map, ◌+◌, ◌*◌, ◌≤◌, ◌≡◌, refl, sym, ap, ◌∙◌, arith, Bool, true, false, ◌||◌, ◌&&◌, List, [], ◌∷◌,
  ◌++◌, length, any, All, ◌↔◌, inl, inr, Bool-cases,
}
use open_cade.Prelude.Outcome.{Outcome, err, ok, Outcome-cases}
use open_cade.Prelude.Sorted.{BTreeMap, get, keys, has_key, text_ord, text_cmp_iff}
use open_cade.Protocol.Reports.{MatchReport, AlphaFailureReport}
use open_cade.Networking.Report.Campaign.{
  AlphaCampaignFailure, AlphaCampaignSummary, room_result, or_empty,
}
use open_cade.Networking.Report.Summary.{
  Tally, match_rooms, failed_rooms, count_room, count_rooms, record_result, room_ids, tally,
  nothing_yet, summarize_campaign_evidence,
}
use open_cade.Networking.Report.Summary.Accounts.{is_listed, summarize_campaign_evidence-counts}
use open_cade.Networking.Report.Summary.Keys.{
  Distinct, Ordered-Distinct, append-same_keys, collect-Ordered, collect-same_keys, group-same_keys,
  has_key-any,
}

-- Some report is of the room.
abbrev pub is_named : Text → List MatchReport → List AlphaFailureReport → Bool
is_named room_id reports failure_reports =
    any (λ (r : MatchReport). text_eq r.room.id room_id) reports
    || any (λ (r : AlphaFailureReport). text_eq r.room.id room_id) failure_reports

room_ids-same_keys :
    (wanted : Text) (reports : List MatchReport) (failure_reports : List AlphaFailureReport)
    → has_key wanted (room_ids reports failure_reports) ≡ is_named wanted reports failure_reports
unfolding room_ids match_rooms failed_rooms has_key
room_ids-same_keys wanted reports failure_reports = ground (
  arith,
  collect-same_keys wanted [] (keys (match_rooms reports) ++ keys (failed_rooms failure_reports)),
  append-same_keys wanted (keys (match_rooms reports)) (keys (failed_rooms failure_reports)),
  group-same_keys (λ (r : MatchReport). r.room.id) wanted reports [],
  group-same_keys (λ (r : AlphaFailureReport). r.room.id) wanted failure_reports [],
)

abbrev pub fails {ℓ κ} : {E : Type κ} {A : Type ℓ} → Outcome E A → Bool
fails (ok a) = false
fails (err e) = true

listed_append :
    (room_id other code : Text) (fs : List AlphaCampaignFailure)
    → is_listed room_id (fs ++ record { room_id = other; code = code } ∷ [])
      ≡ (is_listed room_id fs || text_eq other room_id)
listed_append room_id other code [] = ground arith
listed_append room_id other code (f ∷ fs) = ground (arith, listed_append room_id other code fs)

abbrev pub rooms_of : List AlphaCampaignFailure → List Text
rooms_of fs = map (λ (f : AlphaCampaignFailure). f.room_id) fs

-- A new room at the end.
Distinct-append :
    (other code : Text) (fs : List AlphaCampaignFailure)
    → Distinct (rooms_of fs)
    → is_listed other fs ≡ false
    → Distinct (rooms_of (fs ++ record { room_id = other; code = code } ∷ []))
Distinct-append other code [] h free = (refl, tt)
Distinct-append other code (f ∷ fs) h free = (
  ground (arith, any_append f.room_id fs, text_eq_iff f.room_id other, text_eq_iff other f.room_id),
  Distinct-append other code fs h.1 (ground arith),
)
  where
    any_append :
        (x : Text) (gs : List AlphaCampaignFailure)
        → any (λ y. text_eq y x) (rooms_of (gs ++ record { room_id = other; code = code } ∷ []))
          ≡ (any (λ y. text_eq y x) (rooms_of gs) || text_eq other x)
    any_append x [] = ground arith
    any_append x (g ∷ gs) = ground (arith, any_append x gs)

module _ (rooms : BTreeMap Text (List MatchReport))
    (abandoned : BTreeMap Text (List AlphaFailureReport)) where
  -- What the reports of a room come to.
  abbrev verdict : Text → Outcome Text (Unit {0})
  verdict id = room_result (or_empty (get id rooms)) (or_empty (get id abandoned))

  count_room-listing :
      (room_id id : Text) (t : Tally)
      → is_listed room_id
          (count_room id (or_empty (get id rooms)) (or_empty (get id abandoned)) t).failures
        ≡ (is_listed room_id t.failures || (text_eq id room_id && fails (verdict id)))
  unfolding count_room record_result
  count_room-listing room_id id t = elim (Outcome-cases (verdict id)) [
    | inl (done, e) ↦ rw e (ground arith)
    | inr (reason, e) ↦ rw e (ground (arith, listed_append room_id id reason t.failures))
  ]

  count_rooms-listing :
      (room_id : Text) (ids : List Text) (t : Tally)
      → is_listed room_id (count_rooms rooms abandoned ids t).failures
        ≡ (is_listed room_id t.failures || (has_key room_id ids && fails (verdict room_id)))
  unfolding count_rooms has_key
  count_rooms-listing room_id [] t = ground arith
  count_rooms-listing room_id (id ∷ rest) t =
      let step = count_room-listing room_id id t in
      let all =
        count_rooms-listing room_id rest
          (count_room id (or_empty (get id rooms)) (or_empty (get id abandoned)) t) in
      let same : (text_eq id room_id && fails (verdict id))
          ≡ (text_eq id room_id && fails (verdict room_id)) =
        elim (Bool-cases (text_eq id room_id)) [
          | inl hit ↦
              ap (λ k. text_eq id room_id && fails (verdict k)) ((text_eq_iff id room_id).0 hit)
          | inr miss ↦ rw miss refl
        ] in
      ground (arith, step, all, text_cmp_iff room_id id, text_eq_iff id room_id)

  count_room-Distinct :
      (id : Text) (t : Tally)
      → Distinct (rooms_of t.failures)
      → is_listed id t.failures ≡ false
      → Distinct (
          rooms_of
            (count_room id (or_empty (get id rooms)) (or_empty (get id abandoned)) t).failures)
  unfolding count_room record_result
  count_room-Distinct id t h free = elim (Outcome-cases (verdict id)) [
    | inl (done, e) ↦ rw e h
    | inr (reason, e) ↦ rw e (Distinct-append id reason t.failures h free)
  ]

  count_rooms-Distinct :
      (ids : List Text) (t : Tally)
      → Distinct ids
      → Distinct (rooms_of t.failures)
      → All (λ id. is_listed id t.failures ≡ false) ids
      → Distinct (rooms_of (count_rooms rooms abandoned ids t).failures)
  unfolding count_rooms
  count_rooms-Distinct [] t once h free = h
  count_rooms-Distinct (id ∷ rest) t once h free =
      count_rooms-Distinct rest
        (count_room id (or_empty (get id rooms)) (or_empty (get id abandoned)) t) once.1
        (count_room-Distinct id t h free.0) (still rest once.0 free.1)
    where
      still :
          (others : List Text)
          → any (λ y. text_eq y id) others ≡ false
          → All (λ k. is_listed k t.failures ≡ false) others
          → All
              (λ k.
                is_listed k
                  (count_room id (or_empty (get id rooms)) (or_empty (get id abandoned)) t).failures
                ≡ false)
              others
      still [] apart h = tt
      still (k ∷ others) apart h = (
        ground (arith, count_room-listing k id t, h.0, text_eq_iff k id, text_eq_iff id k),
        still others (ground arith) h.1,
      )

-- What a summary says of its rooms.
pub record Accounts (reports : List MatchReport) (failure_reports : List AlphaFailureReport)
    (s : AlphaCampaignSummary) : Type 0 where
  pub rooms : List Text
  pub once : Distinct rooms
  pub named :
      (room_id : Text)
      → any (λ id. text_eq id room_id) rooms ≡ is_named room_id reports failure_reports
  pub attempts : s.attempts ≡ length rooms
  pub listed :
      (room_id : Text)
      → is_listed room_id s.failures ≡ (
          is_named room_id reports failure_reports
          && fails (
              room_result
                (or_empty (get room_id (match_rooms reports)))
                (or_empty (get room_id (failed_rooms failure_reports)))))
  pub listed_once : Distinct (rooms_of s.failures)
  pub verified : s.verified + length s.failures ≡ s.attempts
  pub failed : s.failed ≡ length s.failures
  pub gate : (s.gate_passed ≡ true) ↔ ((10 ≤ s.attempts) × (5 * length s.failures ≤ s.attempts))

none_listed : (ids : List Text) → All (λ id. is_listed id [] ≡ false) ids
none_listed [] = tt
none_listed (id ∷ ids) = (refl, none_listed ids)

-- Every room of the evidence is counted once: the attempts are the number of the different rooms that
-- some report names. A room is listed as a failure exactly if some report names it and its reports,
-- as they are grouped, do not verify; no room is listed twice, and the verified rooms and the listed
-- ones add up to the attempts. `failed` is the number of those that are listed, and the gate is passed
-- exactly if there are ten rooms and at most a fifth of them is listed.
pub summarize_campaign_evidence-Accounts :
    (reports : List MatchReport) (failure_reports : List AlphaFailureReport)
    → Accounts reports failure_reports (summarize_campaign_evidence reports failure_reports)
unfolding summarize_campaign_evidence tally room_ids
summarize_campaign_evidence-Accounts reports failure_reports =
    let counts = summarize_campaign_evidence-counts reports failure_reports in
    let ids = room_ids reports failure_reports in
    let distinct : Distinct ids =
      Ordered-Distinct ids (
        collect-Ordered [] (keys (match_rooms reports) ++ keys (failed_rooms failure_reports))
          tt) in
    record {
      rooms = ids;
      once = distinct;
      named = λ room_id.
          sym (has_key-any room_id ids) ∙ room_ids-same_keys room_id reports failure_reports;
      attempts = refl;
      listed = λ room_id.
          count_rooms-listing (match_rooms reports) (failed_rooms failure_reports) room_id ids
            nothing_yet
          ∙ ap
              (λ b.
                b
                && fails (
                    room_result (or_empty (get room_id (match_rooms reports)))
                      (or_empty (get room_id (failed_rooms failure_reports)))))
              (room_ids-same_keys room_id reports failure_reports);
      listed_once =
          count_rooms-Distinct (match_rooms reports) (failed_rooms failure_reports) ids nothing_yet
            distinct tt (none_listed ids);
      verified = counts.0;
      failed = counts.1;
      gate = counts.2;
    }
