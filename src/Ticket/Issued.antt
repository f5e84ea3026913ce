-- ===== src/Ticket/Issued.antt =====
-- Tickets that were issued: packages/shared/src/lib.rs, `issue_scoped` against `verify`.
use open_cade.Prelude.{
  ℕ, ◌+◌, ◌≤◌, ◌≡◌, refl, sym, subst, ap, ◌∙◌, ◌≢◌, ◌↔◌, ◌⊎◌, inl, inr, some, Bool-cases,
}
use open_cade.Prelude.Int.{ℤ, pos, ◌≤ℤ◌, pos_part, neg_part}
use open_cade.Prelude.Text.{Text, text_eq, text_eq_iff, text_eq_sound}
use open_cade.Prelude.Outcome.{through_first}
use open_cade.Ticket.{
  RelayTicket, RelayCapability, ok, weak_secret, Crypto, validate_inputs, canonical_claims,
  signature_of, issue_scoped, verify, or_fail,
}
use open_cade.Ticket.Claims.{canonical_claims-injective, SameClaims}
use open_cade.Prelude.Outcome.{or_fail-ok}
use open_cade.Ticket.Verify.{Acceptable, InI64, verify_iff, verify_sound, validate_inputs-ok}

-- What `issue_scoped` hands out.
record Issued (c : Crypto) (secret room user : Text) (at : ℤ) (cap : RelayCapability) (nonce : ℕ)
    (t : RelayTicket) : Type 0 where
  inputs_good : validate_inputs secret room user ≡ ok tt
  fields :
      (k : c.Key) × (c.key secret ≡ some k)
      × (t ≡ record {
        room_id = room;
        user_id = user;
        expires_at = at;
        capability = cap;
        nonce = nonce;
        signature = c.hex_encode (c.tag k (canonical_claims c room user at cap nonce));
      })

module _ (c : Crypto) (secret room user : Text) (at : ℤ) (cap : RelayCapability) (nonce : ℕ)
    (t : RelayTicket) (issued : issue_scoped c secret room user at cap nonce ≡ ok t) where
  issue_scoped-ok : Issued c secret room user at cap nonce t
  unfolding issue_scoped
  issue_scoped-ok =
      let (_, e₁, h₁) = through_first (validate_inputs secret room user) _ issued in
      let (s, e₂, h₂) = through_first (signature_of c secret room user at cap nonce) _ h₁ in
      let (k, e₃, h₃) = through_first (or_fail (c.key secret) weak_secret) _ e₂ in
      let made : c.tag k (canonical_claims c room user at cap nonce) ≡ s = cc h₃ in
      record { inputs_good = e₁; fields = (k, or_fail-ok _ _ e₃, cc (h₂, made)) }

  abbrev issued_with : c.Key → RelayTicket
  issued_with k = record {
    room_id = room;
    user_id = user;
    expires_at = at;
    capability = cap;
    nonce = nonce;
    signature = c.hex_encode (c.tag k (canonical_claims c room user at cap nonce));
  }

  abbrev InWindow : ℤ → Type 0
  InWindow now = (now ≤ℤ at) × (pos_part at + neg_part now ≤ pos_part now + neg_part at + 300)

  issued_with-Acceptable :
      (k : c.Key) (now : ℤ)
      → c.key secret ≡ some k
      → InWindow now
      → Acceptable c (issued_with k) secret now
  issued_with-Acceptable k now hk w =
      let (strong, room_named, user_named) =
        validate_inputs-ok secret room user issue_scoped-ok.inputs_good in
      record {
        strong = strong;
        room_named = room_named;
        user_named = user_named;
        unexpired = w.0;
        short_lived = w.1;
        signed = (_, k, c.hex_decode-encode _, hk, refl);
      }

  -- A ticket that was issued under a secret verifies under it exactly while it is unexpired and
  -- has at most 300 seconds left, by a clock after the epoch, with both times in `i64`.
  pub verify-issue_scoped :
      (now : ℤ)
      → InI64 at
      → InI64 now
      → pos 0 ≤ℤ now
      → (verify c t secret now ≡ ok tt)
        ↔ ((now ≤ℤ at) × (pos_part at + neg_part now ≤ pos_part now + neg_part at + 300))
  verify-issue_scoped now ha hn h0 =
      let (k, hk, e) = issue_scoped-ok.fields in
      let at_record : (verify c (issued_with k) secret now ≡ ok tt) ↔ InWindow now = (
        (λ h.
            let a = (verify_iff c (issued_with k) secret now ha hn h0).0 h in
            (a.unexpired, a.short_lived)),
        (λ w.
            (verify_iff c (issued_with k) secret now ha hn h0).1
              (issued_with-Acceptable k now hk w)),
      ) in
      subst (λ u. (verify c u secret now ≡ ok tt) ↔ InWindow now) (sym e) at_record

-- The tag that verification computed is the tag of the issued ticket's claims.
same_tag : (c : Crypto) (sig p q : Text) → c.hex_decode sig ≡ some p → sig ≡ c.hex_encode q → p ≡ q
same_tag c sig p q h e = let direct : c.hex_decode sig ≡ some q = rw e (c.hex_decode-encode q) in cc

ticket_eq :
    (u t : RelayTicket)
    → SameClaims u.room_id t.room_id u.user_id t.user_id u.expires_at t.expires_at u.capability
        t.capability u.nonce t.nonce
    → u.signature ≡ t.signature
    → u ≡ t
ticket_eq u t s e = λ i. record {
  room_id = s.same_room i;
  user_id = s.same_user i;
  expires_at = s.same_expiry i;
  capability = s.same_capability i;
  nonce = s.same_nonce i;
  signature = e i;
}

-- A ticket with the signature of an issued one verifies, by a clock after the epoch and with its
-- times in `i64`, only if it is that ticket in every field, unless the MAC has one tag for two
-- different texts.
pub verify_tamper :
    (c : Crypto) (secret room user : Text) (at : ℤ) (cap : RelayCapability) (nonce : ℕ)
    (t u : RelayTicket) (now : ℤ)
    → issue_scoped c secret room user at cap nonce ≡ ok t
    → InI64 u.expires_at
    → InI64 now
    → pos 0 ≤ℤ now
    → u.signature ≡ t.signature
    → verify c u secret now ≡ ok tt
    → (u ≡ t) ⊎ ((k : c.Key) × (x : Text) × (y : Text) × (x ≢ y) × (c.tag k x ≡ c.tag k y))
verify_tamper c secret room user at cap nonce t u now issued ha hn h0 same h =
    let (k, hk, e) = (issue_scoped-ok c secret room user at cap nonce t issued).fields in
    let (p, k', hp, hk', ht) = (verify_sound c u secret now ha hn h0 h).signed in
    let x = canonical_claims c u.room_id u.user_id u.expires_at u.capability u.nonce in
    let y = canonical_claims c room user at cap nonce in
    let made : t.signature ≡ c.hex_encode (c.tag k y) = ap (λ (v : RelayTicket). v.signature) e in
    let p_eq : p ≡ c.tag k y = same_tag c u.signature p (c.tag k y) hp (same ∙ made) in
    let k_eq : k' ≡ k = cc in
    let tags : c.tag k x ≡ c.tag k y = ap (λ (κ : c.Key). c.tag κ x) (sym k_eq) ∙ ht ∙ p_eq in
    elim (Bool-cases (text_eq x y)) [
      | inl equal ↦ inl (
          subst (λ v. u ≡ v) (sym e)
            (ticket_eq u _
              (canonical_claims-injective c _ _ _ _ _ _ _ _ _ _ (text_eq_sound x y equal))
              (same ∙ made)))
      | inr differ ↦ inr (k, x, y, (λ q. cc ((text_eq_iff x y).1 q, differ)), tags)
    ]
