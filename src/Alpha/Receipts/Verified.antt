-- ===== src/Alpha/Receipts/Verified.antt =====
-- What a receipt of alpha.rs stands for, and that a request for it can be repeated.
use open_cade.Alpha.Evidence.{Value, Evidence}
use open_cade.Alpha.Receipts.{
  Response, receipt_created, Command, Receipt, Ledger, Fresh, find_command, finished_room,
  payload_pair, count_failures, match_payloads, route_eq, parse_native_route, or_conflict,
  verified_route, is_receipt_of, receipt_payload, issue_receipt, new_receipt, receipt_body,
  create_match_receipt,
}
use open_cade.Alpha.Invites.{require, is_some, to_ascii_uppercase}
use open_cade.Alpha.Invites.Joined.{require-ok}
use open_cade.Prelude.{
  ℕ, ◌≡◌, ◌≢◌, refl, sym, ap, ◌∙◌, arith, true, false, not, ◌==◌, Option, none, some, List, [], ◌∷◌,
  any, take, Bool-cases, inl, inr,
}
use open_cade.Prelude.Assoc.{nat_eq, text_eq_instance, lookup}
use open_cade.Prelude.Text.{Text}
use open_cade.Prelude.Outcome.{Outcome, through_first, fail_if-ok}
use open_cade.Protocol.Reports.{MatchReport, NativeRouteCapability, direct_lan, tcp_tunnel}
use open_cade.Networking.Report.{
  MatchVerification, verify_playable_match_reports, compatibility_missing, first, second, is_none,
}
use open_cade.Networking.Report.Verify.{IsPair, verify_match_reports_sound}
use open_cade.Rooms.{ok, err, fail_if, conflict, internal, Room}

-- The two stored reports of a room, which verify, name an emulator, and took the same route.
pub record Backed (from_value : Value → Option MatchReport) (room_id : ℕ) (es : List Evidence)
    (route : NativeRouteCapability) : Type 0 where
  pub left : MatchReport
  pub right : MatchReport
  pub stored :
      (a : Value) × (b : Value) × (match_payloads room_id es ≡ a ∷ b ∷ [])
      × (from_value a ≡ some left)
      × (from_value b ≡ some right)
  pub unfailed : count_failures room_id es ≡ 0
  pub pair : IsPair left right
  pub emulator : is_none left.compatibility ≡ false
  pub left_route : left.native_route ≡ some route
  pub right_route : right.native_route ≡ some route

payload_pair-some :
    (room_id : ℕ) (es : List Evidence) {a b : Value}
    → payload_pair room_id es ≡ some (a, b)
    → (match_payloads room_id es ≡ a ∷ b ∷ []) × (count_failures room_id es ≡ 0)
unfolding payload_pair
payload_pair-some room_id es {a} {b} h = from (match_payloads room_id es) refl
  where
    from :
        (ps : List Value)
        → match_payloads room_id es ≡ ps
        → (match_payloads room_id es ≡ a ∷ b ∷ []) × (count_failures room_id es ≡ 0)
    from [] q = let h₁ = rw (payload_pair, q) at h in cc
    from (x ∷ []) q = let h₁ = rw (payload_pair, q) at h in cc
    from (x ∷ y ∷ z ∷ ps) q = let h₁ = rw (payload_pair, q) at h in cc
    from (x ∷ y ∷ []) q =
        let h₁ = rw (payload_pair, q) at h in
        elim (Bool-cases (count_failures room_id es == 0)) [
          | inl zero_failures ↦ let h₂ = rw zero_failures at h₁ in (cc, ground arith)
          | inr some_failures ↦ let h₂ = rw some_failures at h₁ in cc
        ]

parse-ok :
    (o : Option NativeRouteCapability) {r : NativeRouteCapability}
    → parse_native_route o ≡ ok r
    → o ≡ some r
unfolding parse_native_route
parse-ok none h = cc
parse-ok (some direct_lan) h = cc
parse-ok (some tcp_tunnel) h = cc

route_eq_sound : (a b : Option NativeRouteCapability) → route_eq a b ≡ true → a ≡ b
unfolding route_eq
route_eq_sound none none h = refl
route_eq_sound none (some b) h = cc
route_eq_sound (some direct_lan) none h = cc
route_eq_sound (some tcp_tunnel) none h = cc
route_eq_sound (some direct_lan) (some direct_lan) h = refl
route_eq_sound (some tcp_tunnel) (some tcp_tunnel) h = refl
route_eq_sound (some direct_lan) (some tcp_tunnel) h = cc
route_eq_sound (some tcp_tunnel) (some direct_lan) h = cc

or_conflict-ok : {E A : Type 0} (o : Outcome E A) {a : A} → or_conflict o ≡ ok a → o ≡ ok a
or_conflict-ok (ok b) h = cc
or_conflict-ok (err e) h = cc

playable_sound :
    (a b : MatchReport) {v : MatchVerification}
    → verify_playable_match_reports a b ≡ ok v
    → IsPair a b × (is_none a.compatibility ≡ false)
unfolding verify_playable_match_reports
playable_sound a b run =
    let (_, e, h) =
      through_first (fail_if (is_none a.compatibility) (compatibility_missing first)) _ run in
    let (_, e₁, h₁) =
      through_first (fail_if (is_none b.compatibility) (compatibility_missing second)) _ h in
    (verify_match_reports_sound a b h₁, fail_if-ok (is_none a.compatibility) _ e)

verified_route-Backed :
    (from_value : Value → Option MatchReport) (room_id : ℕ) (es : List Evidence)
    {route : NativeRouteCapability}
    → verified_route from_value room_id es ≡ ok route
    → Backed from_value room_id es route
unfolding verified_route
verified_route-Backed from_value room_id es run =
    let (pair, e, h) = through_first (require conflict (payload_pair room_id es)) _ run in
    let (a, e₁, h₁) = through_first (require conflict (from_value pair.0)) _ h in
    let (b, e₂, h₂) = through_first (require conflict (from_value pair.1)) _ h₁ in
    let (v, e₃, h₃) = through_first (or_conflict (verify_playable_match_reports a b)) _ h₂ in
    let (_, e₄, h₄) =
      through_first (fail_if (not (route_eq a.native_route b.native_route)) conflict) _ h₃ in
    let (both, none_failed) = payload_pair-some room_id es (require-ok conflict _ e) in
    let (verified, named) =
      playable_sound a b (or_conflict-ok (verify_playable_match_reports a b) e₃) in
    let differ = fail_if-ok (not (route_eq a.native_route b.native_route)) _ e₄ in
    let same = route_eq_sound a.native_route b.native_route (ground arith) in
    let routed = parse-ok a.native_route h₄ in
    record {
      left = a;
      right = b;
      stored = (pair.0, pair.1, both, require-ok conflict _ e₁, require-ok conflict _ e₂);
      unfailed = none_failed;
      pair = verified;
      emulator = named;
      left_route = routed;
      right_route = sym same ∙ routed;
    }

-- What a new receipt was given for, and what it writes.
pub record Receives (hash_token : Text → Text) (from_value : Value → Option MatchReport)
    (fresh : Fresh) (user key source now : ℕ) (l l' : Ledger) (answer : Response) : Type 0 where
  pub room : Room
  pub route : NativeRouteCapability
  pub found : finished_room user (lookup source l.cohort.database.rooms) ≡ some room
  pub backed : Backed from_value source l.evidence route
  pub first_one : any (is_receipt_of user source) l.receipts ≡ false
  pub answers : answer ≡ receipt_created (receipt_payload fresh room.game_id route now)
  pub leaves :
      l'
      ≡ issue_receipt hash_token fresh user key source now room.game_id
          (receipt_payload fresh room.game_id route now)
          l

module _ (hash_token : Text → Text) (from_value : Value → Option MatchReport) (fresh : Fresh)
    (user key source now : ℕ) where
  new_receipt-Receives :
      (r : Room) (l : Ledger) {l' : Ledger} {answer : Response}
      → finished_room user (lookup source l.cohort.database.rooms) ≡ some r
      → new_receipt hash_token from_value fresh user key source now r l ≡ ok (l', answer)
      → Receives hash_token from_value fresh user key source now l l' answer
  unfolding new_receipt
  new_receipt-Receives r l found run =
      let (route, e, h) = through_first (verified_route from_value source l.evidence) _ run in
      let (_, e₁, h₁) =
        through_first (fail_if (any (is_receipt_of user source) l.receipts) conflict) _ h in
      let taken =
        is_some
          (lookup (hash_token (to_ascii_uppercase (take 10 fresh.fresh_code))) l.cohort.invites) in
      let (_, e₂, h₂) = through_first (fail_if taken internal) _ h₁ in
      record {
        room = r;
        route = route;
        found = found;
        backed = verified_route-Backed from_value source l.evidence e;
        first_one = fail_if-ok (any (is_receipt_of user source) l.receipts) _ e₁;
        answers = cc h₂;
        leaves = cc h₂;
      }

  -- A receipt whose key is not known yet is given only in a finished room, to one of its members, who
  -- has none for it so far, and when exactly two reports of the match are stored and no failure: these
  -- two verify as the two sides of one match, name the same emulator, and took the route that the
  -- receipt states. What the first look at the commands saw does not matter.
  pub create_match_receipt-Receives :
      (early : List Command) (l l' : Ledger) (answer : Response)
      → find_command user key early ≡ none
      → find_command user key l.commands ≡ none
      → create_match_receipt hash_token from_value fresh user key source now early l
        ≡ ok (l', answer)
      → Receives hash_token from_value fresh user key source now l l' answer
  unfolding create_match_receipt receipt_body
  create_match_receipt-Receives early l l' answer unknown unknown₁ run =
      let run₁ = rw (create_match_receipt, unknown, receipt_body) at run in
      let (r, e, h) =
        through_first
          (require conflict (finished_room user (lookup source l.cohort.database.rooms))) _ run₁ in
      let h₁ = rw unknown₁ at h in new_receipt-Receives r l (require-ok conflict _ e) h₁

-- A user gets one receipt for a match: once one was given, a request of this user for the same room
-- with a key that is not known is refused, whatever the first look saw.
pub create_match_receipt-once :
    (hash_token : Text → Text) (from_value : Value → Option MatchReport) (fresh anew : Fresh)
    (user key source now other later : ℕ) (early early₁ : List Command) (l l' l₂ : Ledger)
    (answer : Response)
    → find_command user key early ≡ none
    → find_command user key l.commands ≡ none
    → create_match_receipt hash_token from_value fresh user key source now early l ≡ ok (l', answer)
    → find_command user other early₁ ≡ none
    → find_command user other l'.commands ≡ none
    → (again : Response)
    → create_match_receipt hash_token from_value anew user other source later early₁ l'
      ≢ ok (l₂, again)
unfolding issue_receipt
create_match_receipt-once hash_token from_value fresh anew user key source now other later early
      early₁ l l' l₂ answer unknown unknown₁ run new new₁ again run₁ =
    let given =
      create_match_receipt-Receives hash_token from_value fresh user key source now early l l'
        answer unknown unknown₁ run in
    let second_one =
      create_match_receipt-Receives hash_token from_value anew user other source later early₁ l' l₂
        again new new₁ run₁ in
    let none_yet = second_one.first_one in
    let row : Receipt = record {
      source_room = source;
      receipt_by = user;
      receipt_next = fresh.fresh_room;
    } in
    let rows : l'.receipts ≡ row ∷ l.receipts = ap (λ (x : Ledger). x.receipts) given.leaves in
    let there : any (is_receipt_of user source) (row ∷ l.receipts) ≡ true = ground arith in
    let there₁ : any (is_receipt_of user source) l'.receipts ≡ true =
      ap (any (is_receipt_of user source)) rows ∙ there in
    cc
