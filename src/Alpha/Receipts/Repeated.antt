-- ===== src/Alpha/Receipts/Repeated.antt =====
-- A request for a receipt of alpha.rs can be repeated, whatever was served in between.
use open_cade.Alpha.Evidence.{Value}
use open_cade.Alpha.Receipts.{
  Response, receipt_created, Command, Ledger, Fresh, find_command, replay, finished_room,
  receipt_payload, issue_receipt, keep_ledger, receipt_body, create_match_receipt,
}
use open_cade.Alpha.Receipts.Verified.{Receives, create_match_receipt-Receives}
use open_cade.Alpha.Invites.{require}
use open_cade.Prelude.{
  ℕ, ◌≡◌, refl, sym, ap, ◌∙◌, arith, true, ◌&&◌, ◌==◌, Option, none, some, List, ◌∷◌, Bool-cases,
  Option-cases, inl, inr, ◌⊎◌,
}
use open_cade.Prelude.Assoc.{nat_eq, lookup}
use open_cade.Prelude.Text.{Text, codes, text_eq, text_eq_refl}
use open_cade.Prelude.Outcome.{through_first}
use open_cade.Protocol.Reports.{MatchReport}
use open_cade.Rooms.{Result, ok, err, conflict, Room}

-- Requests for receipts of any users, in any order, each with any earlier look at the commands; and
-- whatever else is served, which writes no command.
pub data Since (hash_token : Text → Text) (from_value : Value → Option MatchReport) (l : Ledger)
    : Ledger → Type 0 where
  start : Since hash_token from_value l l
  receipts :
      {l₁ l₂ : Ledger} {answer : Response} (fresh : Fresh) (user key source now : ℕ)
      (early : List Command)
      → Since hash_token from_value l l₁
      → create_match_receipt hash_token from_value fresh user key source now early l₁
        ≡ ok (l₂, answer)
      → Since hash_token from_value l l₂
  others :
      {l₁ l₂ : Ledger}
      → Since hash_token from_value l l₁
      → l₂.commands ≡ l₁.commands
      → Since hash_token from_value l l₂

keep_ledger-same :
    (l : Ledger) (o : Result Response) {l' : Ledger} {answer : Response}
    → keep_ledger l o ≡ ok (l', answer)
    → l' ≡ l
keep_ledger-same l (err e) h = cc
keep_ledger-same l (ok a) h = cc

-- The commands stay, or one is put in front whose actor and key were free.
abbrev Adds : (user key : ℕ) → (before after : List Command) → Type 0
Adds user key before after =
    (after ≡ before)
    ⊎ ((c : Command) × (c.actor_id ≡ user)
        × (c.idempotency_key ≡ key)
        × (find_command user key before ≡ none)
        × (after ≡ c ∷ before))

module _ (hash_token : Text → Text) (from_value : Value → Option MatchReport) where
  -- Nothing changes, or the receipt is new.
  pub create_match_receipt-cases :
      (fresh : Fresh) (user key source now : ℕ) (early : List Command) (l l' : Ledger)
      (answer : Response)
      → create_match_receipt hash_token from_value fresh user key source now early l
        ≡ ok (l', answer)
      → (l' ≡ l)
        ⊎ ((find_command user key l.commands ≡ none)
            × Receives hash_token from_value fresh user key source now l l' answer)
  unfolding create_match_receipt receipt_body
  create_match_receipt-cases fresh user key source now early l l' answer run =
      elim (Option-cases (find_command user key early)) [
        | inr (c, q) ↦
            let run₁ = rw (create_match_receipt, q) at run in
            inl (keep_ledger-same l (replay c) run₁)
        | inl unknown ↦ elim (Option-cases (find_command user key l.commands)) [
          | inl unknown₁ ↦ inr (
            unknown₁,
            create_match_receipt-Receives hash_token from_value fresh user key source now early l l'
                answer unknown unknown₁ run,
          )
          | inr (c, q) ↦
              let run₁ = rw (create_match_receipt, unknown, receipt_body) at run in
              let (r, e, h) =
                through_first
                  (require conflict (finished_room user (lookup source l.cohort.database.rooms))) _
                  run₁ in
              let h₁ = rw q at h in inl (keep_ledger-same l (replay c) h₁)
        ]
      ]

  create_match_receipt-Adds :
      (fresh : Fresh) (user key source now : ℕ) (early : List Command) (l l' : Ledger)
      (answer : Response)
      → create_match_receipt hash_token from_value fresh user key source now early l
        ≡ ok (l', answer)
      → Adds user key l.commands l'.commands
  unfolding issue_receipt
  create_match_receipt-Adds fresh user key source now early l l' answer run =
      elim (create_match_receipt-cases fresh user key source now early l l' answer run) [
        | inl same ↦ inl (ap (λ (x : Ledger). x.commands) same)
        | inr (unknown, given) ↦
            let c : Command = record {
              actor_id = user;
              idempotency_key = key;
              command_type = codes "match.receipt.create";
              response_payload =
                  receipt_created (receipt_payload fresh given.room.game_id given.route now);
            } in
            inr (c, refl, refl, unknown, ap (λ (x : Ledger). x.commands) given.leaves)
      ]

  Adds-known :
      (user key actor other : ℕ) (before after : List Command) {c : Command}
      → Adds actor other before after
      → find_command user key before ≡ some c
      → find_command user key after ≡ some c
  unfolding find_command
  Adds-known user key actor other before after (inl same) h = ap (find_command user key) same ∙ h
  Adds-known user key actor other before after {c} (inr (made, its, its₁, free, same)) h =
      elim (Bool-cases (made.actor_id == user && made.idempotency_key == key)) [
        | inr apart ↦ ap (find_command user key) same ∙ rw (find_command, apart) h
        | inl hit ↦
            let one : actor ≡ user = ground arith in
            let one₁ : other ≡ key = ground arith in let free₁ = rw (one, one₁) at free in cc
      ]

  Since-known :
      (user key : ℕ) {l l' : Ledger} {c : Command}
      → Since hash_token from_value l l'
      → find_command user key l.commands ≡ some c
      → find_command user key l'.commands ≡ some c
  Since-known user key start h = h
  Since-known user key
        (receipts {l₁ = l₁} {l₂ = l₂} {answer = answer} fresh actor other source now early before
          run)
        h =
      Adds-known user key actor other l₁.commands l₂.commands
        (create_match_receipt-Adds fresh actor other source now early l₁ l₂ answer run)
        (Since-known user key before h)
  Since-known user key (others before same) h =
      ap (find_command user key) same ∙ Since-known user key before h

  -- A new receipt is found under its key, and answered again.
  given-known :
      (fresh : Fresh) (user key source now : ℕ) (l l' : Ledger) (answer : Response)
      → Receives hash_token from_value fresh user key source now l l' answer
      → (c : Command) × (find_command user key l'.commands ≡ some c) × (replay c ≡ ok answer)
  unfolding issue_receipt find_command replay
  given-known fresh user key source now l l' answer given =
      let c : Command = record {
        actor_id = user;
        idempotency_key = key;
        command_type = codes "match.receipt.create";
        response_payload =
            receipt_created (receipt_payload fresh given.room.game_id given.route now);
      } in
      let commands : l'.commands ≡ c ∷ l.commands = ap (λ (x : Ledger). x.commands) given.leaves in
      let known : find_command user key (c ∷ l.commands) ≡ some c = ground arith in
      let same : text_eq (codes "match.receipt.create") (codes "match.receipt.create") ≡ true =
        text_eq_refl _ in
      (
        c,
        ap (find_command user key) commands ∙ known,
        rw (replay, same) (ap (λ a. ok a) (sym given.answers)),
      )

  answered :
      (anew : Fresh) (user key other later : ℕ) (early : List Command) (l : Ledger) (c : Command)
      (answer : Response)
      → find_command user key l.commands ≡ some c
      → replay c ≡ ok answer
      → (find_command user key early ≡ some c)
        ⊎ ((find_command user key early ≡ none)
            × ((r : Room) × (finished_room user (lookup other l.cohort.database.rooms) ≡ some r)))
      → create_match_receipt hash_token from_value anew user key other later early l
        ≡ ok (l, answer)
  unfolding create_match_receipt receipt_body
  answered anew user key other later early l c answer known again (inl seen) =
      rw (create_match_receipt, seen, again) refl
  answered anew user key other later early l c answer known again (inr (unseen, (r, inside))) =
      rw (create_match_receipt, unseen, receipt_body, inside, known, again) refl

-- A request for a receipt can be repeated. Once a receipt was given, and after any further requests for
-- receipts and any others that write no command, a request of this user with the same key, at any time
-- and with whatever fresh UUIDs, is answered with the same receipt and changes nothing: for whichever
-- room, if its first look at the commands finds what is stored under the key by then; and for any
-- finished room of the user, if that look came too early and found nothing.
pub create_match_receipt-again :
    (hash_token : Text → Text) (from_value : Value → Option MatchReport) (fresh anew : Fresh)
    (user key source other now later : ℕ) (early early₁ : List Command) (l l₁ l₂ : Ledger)
    (answer : Response)
    → find_command user key early ≡ none
    → find_command user key l.commands ≡ none
    → create_match_receipt hash_token from_value fresh user key source now early l ≡ ok (l₁, answer)
    → Since hash_token from_value l₁ l₂
    → (find_command user key early₁ ≡ find_command user key l₂.commands)
      ⊎ ((find_command user key early₁ ≡ none)
          × ((r : Room) × (finished_room user (lookup other l₂.cohort.database.rooms) ≡ some r)))
    → create_match_receipt hash_token from_value anew user key other later early₁ l₂
      ≡ ok (l₂, answer)
create_match_receipt-again hash_token from_value fresh anew user key source other now later early
      early₁ l l₁ l₂ answer unknown unknown₁ run since look =
    let given =
      create_match_receipt-Receives hash_token from_value fresh user key source now early l l₁
        answer unknown unknown₁ run in
    let (c, known, again) =
      given-known hash_token from_value fresh user key source now l l₁ answer given in
    let known₁ = Since-known hash_token from_value user key since known in
    elim look [
      | inl seen ↦
          answered hash_token from_value anew user key other later early₁ l₂ c answer known₁ again
            (inl (seen ∙ known₁))
      | inr unseen ↦
          answered hash_token from_value anew user key other later early₁ l₂ c answer known₁ again
            (inr unseen)
    ]
