-- ===== src/Networking/Report/Summary/Accounts.antt =====
-- The counts of a campaign add up, and a failure is never outvoted.
use open_cade.Prelude.Text.{text_eq_iff, Text, text_eq, text_eq_refl}
use open_cade.Prelude.{
  map, ◌≢◌, ℕ, suc, ◌+◌, ◌*◌, ◌≤◌, ◌≡◌, arith, Bool, true, false, ◌||◌, not, ◌==◌, Option, none,
  some, List, [], ◌∷◌, ◌++◌, length, length-append, any, ◌↔◌, ◌⊎◌, inl, inr,
}
use open_cade.Networking.Report.Campaign.{
  distinct, AlphaCampaignFailure, room_result, failure_result, or_empty, is_nil, validate_all,
}
use open_cade.Prelude.Outcome.{fail_if, through_first, Outcome, err, ok, Outcome-cases}
use open_cade.Prelude.Sorted.{
  BTreeMap, update, get, keys, insert_key, has_key, text_ord, text_cmp_iff, has_key-insert_key,
}
use open_cade.Protocol.Reports.{MatchReport, AlphaFailureReport}
use open_cade.Networking.Report.Summary.{
  Tally, group, match_rooms, failed_rooms, collect, count_room, count_rooms, record_result,
  room_ids, tally, nothing_yet, summarize_campaign_evidence,
}

abbrev counted : Tally → ℕ
counted t = t.verified + length t.failures

count_room-counted :
    (room_id : Text) (pair : List MatchReport) (abandoned : List AlphaFailureReport) (t : Tally)
    → counted (count_room room_id pair abandoned t) ≡ suc (counted t)
unfolding count_room record_result
count_room-counted room_id pair abandoned t = elim (Outcome-cases (room_result pair abandoned)) [
  | inl (done, e) ↦ rw e (omega arith)
  | inr (reason, e) ↦
      rw e
        (omega (arith, length-append t.failures (record { room_id = room_id; code = reason } ∷ [])))
]

module _ (rooms : BTreeMap Text (List MatchReport))
    (abandoned : BTreeMap Text (List AlphaFailureReport)) where
  count_rooms-counted :
      (ids : List Text) (t : Tally)
      → counted (count_rooms rooms abandoned ids t) ≡ length ids + counted t
  unfolding count_rooms
  count_rooms-counted [] t = omega arith
  count_rooms-counted (id ∷ rest) t =
      let step = count_room-counted id (or_empty (get id rooms)) (or_empty (get id abandoned)) t in
      omega (
        arith,
        step,
        count_rooms-counted rest
            (count_room id (or_empty (get id rooms)) (or_empty (get id abandoned)) t),
      )

tally-counted :
    (reports : List MatchReport) (failure_reports : List AlphaFailureReport)
    → counted (tally reports failure_reports) ≡ length (room_ids reports failure_reports)
unfolding tally
tally-counted reports failure_reports = omega (
  arith,
  count_rooms-counted (match_rooms reports) (failed_rooms failure_reports)
      (room_ids reports failure_reports) nothing_yet,
)

-- The verified rooms and the listed failures add up to the attempts, and `failed` is the number of
-- those that are listed. The gate is passed exactly if there are ten rooms and at most a fifth of them
-- is listed.
pub summarize_campaign_evidence-counts :
    (reports : List MatchReport) (failure_reports : List AlphaFailureReport)
    → let s = summarize_campaign_evidence reports failure_reports in
      (s.verified + length s.failures ≡ s.attempts)
      × (s.failed ≡ length s.failures)
      × ((s.gate_passed ≡ true) ↔ ((10 ≤ s.attempts) × (5 * length s.failures ≤ s.attempts)))
unfolding summarize_campaign_evidence has_key
summarize_campaign_evidence-counts reports failure_reports =
    let all = tally-counted reports failure_reports in (all, omega arith, ground arith)

-- The room is listed.
abbrev pub is_listed : Text → List AlphaCampaignFailure → Bool
is_listed room_id failures = any (λ (f : AlphaCampaignFailure). text_eq f.room_id room_id) failures

any-append {ℓ} :
    {A : Type ℓ} (p : A → Bool) (xs ys : List A)
    → (any p xs ≡ true) ⊎ (any p ys ≡ true)
    → any p (xs ++ ys) ≡ true
any-append p [] ys (inl h) = cc
any-append p [] ys (inr h) = h
any-append p (x ∷ xs) ys h = ground (arith, any-append p xs ys)

failed :
    {reason : Text} {done : Unit {0}} → ◌≢◌ {A = Outcome Text (Unit {0})} (err reason) (ok done)
failed run = cc

failure_result-failed :
    (pair : List MatchReport) (abandoned : List AlphaFailureReport)
    → (reason : Text) × (failure_result pair abandoned ≡ err reason)
unfolding failure_result
failure_result-failed pair abandoned = elim (Outcome-cases (failure_result pair abandoned)) [
  | inr failure ↦ failure
  | inl (done, run) ↦
      let (_, e, h) = through_first (fail_if (not (is_nil pair)) _) _ run in
      let (_, e₁, h₁) = through_first (validate_all abandoned) _ h in
      let games = distinct (map (λ (r : AlphaFailureReport). r.room.game_id) abandoned) in
      let (_, e₂, h₂) = through_first (fail_if (not (length games == 1)) _) _ h₁ in
      absurd (failed h₂)
]

-- Some evidence of a failure.
abbrev is_filled {ℓ} : {A : Type ℓ} → Option (List A) → Bool
is_filled none = false
is_filled (some []) = false
is_filled (some (x ∷ xs)) = true

count_room-listed :
    (room_id : Text) (pair : List MatchReport) (found : Option (List AlphaFailureReport))
    (t : Tally)
    → is_filled found ≡ true
    → is_listed room_id (count_room room_id pair (or_empty found) t).failures ≡ true
unfolding count_room room_result record_result
count_room-listed room_id pair none t h = cc
count_room-listed room_id pair (some []) t h = cc
count_room-listed room_id pair (some (x ∷ xs)) t h =
    let (reason, e) = failure_result-failed pair (x ∷ xs) in
    let here = text_eq_refl room_id in
    rw e (
      any-append (λ (f : AlphaCampaignFailure). text_eq f.room_id room_id) t.failures _
        (inr (ground arith)))

count_room-listed_still :
    (room_id other : Text) (pair : List MatchReport) (abandoned : List AlphaFailureReport)
    (t : Tally)
    → is_listed room_id t.failures ≡ true
    → is_listed room_id (count_room other pair abandoned t).failures ≡ true
unfolding count_room record_result
count_room-listed_still room_id other pair abandoned t h =
    elim (Outcome-cases (room_result pair abandoned)) [
      | inl (done, e) ↦ rw e h
      | inr (reason, e) ↦ rw e (
          any-append (λ (f : AlphaCampaignFailure). text_eq f.room_id room_id) t.failures _ (inl h))
    ]

has_key-cases :
    (wanted key : Text) (rest : List Text)
    → has_key wanted (key ∷ rest) ≡ true
    → (wanted ≡ key) ⊎ (has_key wanted rest ≡ true)
unfolding has_key
has_key-cases wanted key rest h = ground (arith, text_cmp_iff wanted key)

module _ (rooms : BTreeMap Text (List MatchReport))
    (abandoned : BTreeMap Text (List AlphaFailureReport)) where
  count_rooms-listed :
      (room_id : Text) (ids : List Text) (t : Tally)
      → is_filled (get room_id abandoned) ≡ true
      → (has_key room_id ids ≡ true) ⊎ (is_listed room_id t.failures ≡ true)
      → is_listed room_id (count_rooms rooms abandoned ids t).failures ≡ true
  unfolding count_rooms has_key
  count_rooms-listed room_id [] t filled (inl h) = cc
  count_rooms-listed room_id [] t filled (inr h) = h
  count_rooms-listed room_id (id ∷ rest) t filled (inr h) =
      count_rooms-listed room_id rest _ filled (
        inr (
          count_room-listed_still room_id id (or_empty (get id rooms)) (or_empty (get id abandoned))
            t h))
  count_rooms-listed room_id (id ∷ rest) t filled (inl h) = elim (has_key-cases room_id id rest h) [
    | inl e ↦ count_rooms-listed room_id rest _ filled (
        inr (
          rw e
            (count_room-listed id (or_empty (get id rooms)) (get id abandoned) t (rw e at filled))))
    | inr later ↦ count_rooms-listed room_id rest _ filled (inl later)
  ]

get-update :
    {R : Type 0} (wanted new : Text) (r : R) (rooms : BTreeMap Text (List R))
    → (wanted ≡ new) ⊎ (is_filled (get wanted rooms) ≡ true)
    → is_filled (get wanted (update new [] (λ list. list ++ r ∷ []) rooms)) ≡ true
unfolding get update
get-update wanted new r [] (inl e) = ground (arith, text_cmp_iff wanted new)
get-update wanted new r [] (inr h) = cc
get-update wanted new r ((key, []) ∷ rest) h = ground (
  arith,
  text_cmp_iff wanted new,
  text_cmp_iff wanted key,
  text_cmp_iff new key,
  get-update wanted new r rest,
)
get-update wanted new r ((key, x ∷ xs) ∷ rest) h = ground (
  arith,
  text_cmp_iff wanted new,
  text_cmp_iff wanted key,
  text_cmp_iff new key,
  get-update wanted new r rest,
)

group-filled :
    {R : Type 0} (room_of : R → Text) (wanted : Text) (reports : List R)
    (rooms : BTreeMap Text (List R))
    → any (λ r. text_eq (room_of r) wanted) reports || is_filled (get wanted rooms) ≡ true
    → is_filled (get wanted (group room_of reports rooms)) ≡ true
unfolding group
group-filled room_of wanted [] rooms h = h
group-filled room_of wanted (r ∷ rest) rooms h =
    group-filled room_of wanted rest (update (room_of r) [] (λ list. list ++ r ∷ []) rooms)
      (ground (arith, text_eq_iff (room_of r) wanted, get-update wanted (room_of r) r rooms))

keys-has_key :
    {R : Type 0} (wanted : Text) (rooms : BTreeMap Text (List R))
    → is_filled (get wanted rooms) ≡ true
    → has_key wanted (keys rooms) ≡ true
unfolding get has_key
keys-has_key wanted [] h = cc
keys-has_key wanted ((key, list) ∷ rest) h =
    ground (arith, text_cmp_iff wanted key, keys-has_key wanted rest)

collect-has_key :
    (wanted : Text) (set ids : List Text)
    → has_key wanted set || has_key wanted ids ≡ true
    → has_key wanted (collect set ids) ≡ true
unfolding collect has_key
collect-has_key wanted set [] h = ground arith
collect-has_key wanted set (id ∷ rest) h =
    collect-has_key wanted (insert_key id set) rest
      (ground (arith, text_cmp_iff wanted id, has_key-insert_key id wanted set))

has_key-append :
    (wanted : Text) (xs ys : List Text)
    → has_key wanted ys ≡ true
    → has_key wanted (xs ++ ys) ≡ true
unfolding has_key
has_key-append wanted [] ys h = h
has_key-append wanted (x ∷ xs) ys h =
    ground (arith, text_cmp_iff wanted x, has_key-append wanted xs ys h)

-- Evidence of a failure is never outvoted: a room that any failure report names is among the listed
-- failures, whatever match reports there are for it.
pub summarize_campaign_evidence-listed :
    (reports : List MatchReport) (failure_reports : List AlphaFailureReport) (room_id : Text)
    → any (λ (r : AlphaFailureReport). text_eq r.room.id room_id) failure_reports ≡ true
    → is_listed room_id (summarize_campaign_evidence reports failure_reports).failures ≡ true
unfolding summarize_campaign_evidence has_key
summarize_campaign_evidence-listed reports failure_reports room_id named =
    count_rooms-listed (match_rooms reports) (failed_rooms failure_reports) room_id
      (room_ids reports failure_reports) nothing_yet filled
      (inl (
        collect-has_key room_id []
          (keys (match_rooms reports) ++ keys (failed_rooms failure_reports))
          (has_key-append room_id (keys (match_rooms reports)) (keys (failed_rooms failure_reports))
            (keys-has_key room_id (failed_rooms failure_reports) filled))))
  where
    filled : is_filled (get room_id (failed_rooms failure_reports)) ≡ true
    filled =
        group-filled (λ (r : AlphaFailureReport). r.room.id) room_id failure_reports []
          (ground (arith, named))
