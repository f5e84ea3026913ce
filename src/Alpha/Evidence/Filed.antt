-- ===== src/Alpha/Evidence/Filed.antt =====
-- What `submit_evidence` of alpha_evidence.rs keeps of the stored evidence.
use open_cade.Alpha.Evidence.{
  Value, Serde, Evidence, EvidenceKind, match_evidence, attempt_failure, Decoded,
  EvidenceRoomContext, Accepted, decode_evidence, contains_private_key, evidence_room_context,
  names_game, is_match, is_over, kind_eq, same_slot, collides, digest_in_slot, differs,
  file_evidence, evidence_row, submit_evidence,
}
use open_cade.Prelude.{
  ℕ, ◌*◌, ◌≡◌, refl, subst, arith, Bool, true, false, ◌&&◌, not, ltb, List, [], ◌∷◌, length, any,
  Bool-cases, inl, inr,
}
use open_cade.Prelude.Assoc.{Assoc, nat_eq, lookup}
use open_cade.Prelude.Text.{text_eq_refl}
use open_cade.Prelude.Outcome.{through_first, fail_if-ok}
use open_cade.Protocol.Reports.{role_eq}
use open_cade.Rooms.{ok, fail_if, bad_request, forbidden, conflict, Room}

-- No two rows with one digest, or of one user, room and kind; every digest is of its payload, which
-- has no private key.
abbrev pub Filed : Serde → List Evidence → Type 0
Filed serde [] = Unit
Filed serde (e ∷ es) =
    (any (collides e) es ≡ false)
    × (e.digest ≡ serde.sha256_hex (serde.to_vec e.payload))
    × (contains_private_key e.payload ≡ false)
    × Filed serde es

-- What is known of a submission that is accepted.
pub record Submits (serde : Serde) (user : ℕ) (value : Value) (rooms : Assoc ℕ Room)
    (es : List Evidence) (answer : Accepted) : Type 0 where
  pub decoded : Decoded
  pub context : EvidenceRoomContext
  pub decodes : decode_evidence serde value ≡ ok decoded
  pub inside : evidence_room_context user (lookup decoded.room_id rooms) ≡ ok context
  pub clean : contains_private_key decoded.canonical ≡ false
  pub its_role : role_eq decoded.role context.context_role ≡ true
  pub its_game : names_game context.context_game_id decoded.canonical ≡ true
  pub over : (is_match decoded.decoded_kind && not (is_over context.context_state)) ≡ false
  pub files : file_evidence (evidence_row serde user decoded) es ≡ ok answer

not-false : (b : Bool) → not b ≡ false → b ≡ true
not-false true h = refl
not-false false h = cc

submit_evidence-Submits :
    (serde : Serde) (user : ℕ) (value : Value) (rooms : Assoc ℕ Room) (es : List Evidence)
    {answer : Accepted}
    → submit_evidence serde user value rooms es ≡ ok answer
    → Submits serde user value rooms es answer
unfolding submit_evidence
submit_evidence-Submits serde user value rooms es run =
    let (_, e, h) =
      through_first (fail_if (ltb (64 * 1024) (length (serde.to_vec value))) bad_request) _ run in
    let (d, e₁, h₁) = through_first (decode_evidence serde value) _ h in
    let (_, e₂, h₂) = through_first (fail_if (contains_private_key d.canonical) bad_request) _ h₁ in
    let (context, e₃, h₃) =
      through_first (evidence_room_context user (lookup d.room_id rooms)) _ h₂ in
    let (_, e₄, h₄) =
      through_first (fail_if (not (role_eq d.role context.context_role)) forbidden) _ h₃ in
    let (_, e₅, h₅) =
      through_first (fail_if (not (names_game context.context_game_id d.canonical)) bad_request) _
        h₄ in
    let early = is_match d.decoded_kind && not (is_over context.context_state) in
    let (_, e₆, h₆) = through_first (fail_if early conflict) _ h₅ in
    let role = fail_if-ok (not (role_eq d.role context.context_role)) _ e₄ in
    let game = fail_if-ok (not (names_game context.context_game_id d.canonical)) _ e₅ in
    record {
      decoded = d;
      context = context;
      decodes = e₁;
      inside = e₃;
      clean = fail_if-ok (contains_private_key d.canonical) _ e₂;
      its_role = not-false _ role;
      its_game = not-false _ game;
      over = fail_if-ok early _ e₆;
      files = h₆;
    }

file_evidence-Filed :
    (serde : Serde) (row : Evidence) (es : List Evidence) {answer : Accepted}
    → row.digest ≡ serde.sha256_hex (serde.to_vec row.payload)
    → contains_private_key row.payload ≡ false
    → file_evidence row es ≡ ok answer
    → Filed serde es
    → Filed serde answer.evidence
unfolding file_evidence
file_evidence-Filed serde row es {answer} hashed clean run h =
    elim (Bool-cases (any (collides row) es)) [
      | inr free ↦
          let run₁ = rw free at run in
          let rows : row ∷ es ≡ answer.evidence = cc run₁ in
          subst (Filed serde) rows (free, hashed, clean, h)
      | inl taken ↦
          let run₁ = rw taken at run in
          elim (Bool-cases (differs row.digest (digest_in_slot row es))) [
            | inl other ↦ let run₂ = rw other at run₁ in cc
            | inr same ↦
                let run₂ = rw same at run₁ in
                let rows : es ≡ answer.evidence = cc run₂ in subst (Filed serde) rows h
          ]
    ]

-- Evidence is stored by its hash, once for each user, room and kind, and without private keys at any
-- depth: a submission that is accepted keeps this of all rows.
pub submit_evidence-Filed :
    (serde : Serde) (user : ℕ) (value : Value) (rooms : Assoc ℕ Room) (es : List Evidence)
    (answer : Accepted)
    → submit_evidence serde user value rooms es ≡ ok answer
    → Filed serde es
    → Filed serde answer.evidence
submit_evidence-Filed serde user value rooms es answer run h =
    let s = submit_evidence-Submits serde user value rooms es run in
    file_evidence-Filed serde (evidence_row serde user s.decoded) es refl s.clean s.files h

kind_eq_refl : (k : EvidenceKind) → kind_eq k k ≡ true
unfolding kind_eq
kind_eq_refl match_evidence = refl
kind_eq_refl attempt_failure = refl

same_slot_refl : (e : Evidence) → same_slot e e ≡ true
unfolding same_slot
same_slot_refl e = ground (arith, kind_eq_refl e.kind)

file_evidence-again :
    (row : Evidence) (es : List Evidence) {answer : Accepted}
    → file_evidence row es ≡ ok answer
    → file_evidence row answer.evidence
      ≡ ok (record {
        evidence = answer.evidence;
        accepted_digest = answer.accepted_digest;
        duplicate = true;
      })
unfolding file_evidence collides digest_in_slot
file_evidence-again row es {answer} run = elim (Bool-cases (any (collides row) es)) [
  | inr free ↦
      let run₁ = rw free at run in
      let rows : answer
          ≡ record { evidence = row ∷ es; accepted_digest = row.digest; duplicate = false } =
        cc run₁ in
      let slot = same_slot_refl row in
      let own = text_eq_refl row.digest in rw rows (rw (own, slot, own) refl)
  | inl taken ↦
      let run₁ = rw taken at run in
      elim (Bool-cases (differs row.digest (digest_in_slot row es))) [
        | inl other ↦ let run₂ = rw other at run₁ in cc
        | inr same ↦
            let run₂ = rw same at run₁ in
            let rows : answer
                ≡ record { evidence = es; accepted_digest = row.digest; duplicate = true } =
              cc run₂ in
            rw rows (rw (taken, same) refl)
      ]
]

-- Evidence may be sent again: the same submission by the same user, while the rooms stand as they did,
-- is accepted as a duplicate with the same digest, and changes no row.
pub submit_evidence-again :
    (serde : Serde) (user : ℕ) (value : Value) (rooms : Assoc ℕ Room) (es : List Evidence)
    (answer : Accepted)
    → submit_evidence serde user value rooms es ≡ ok answer
    → submit_evidence serde user value rooms answer.evidence
      ≡ ok (record {
        evidence = answer.evidence;
        accepted_digest = answer.accepted_digest;
        duplicate = true;
      })
unfolding submit_evidence
submit_evidence-again serde user value rooms es answer run =
    let s = submit_evidence-Submits serde user value rooms es run in
    let (_, e, h) =
      through_first (fail_if (ltb (64 * 1024) (length (serde.to_vec value))) bad_request) _ run in
    let small = fail_if-ok (ltb (64 * 1024) (length (serde.to_vec value))) _ e in
    rw (submit_evidence, small, s.decodes, s.clean, s.inside, s.its_role, s.its_game, s.over)
      (file_evidence-again (evidence_row serde user s.decoded) es s.files)
