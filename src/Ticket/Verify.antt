-- ===== src/Ticket/Verify.antt =====
-- What `RelayTicket::verify` accepts: packages/shared/src/lib.rs.
use open_cade.Prelude.{
  ℕ, ◌+◌, ◌≤◌, ◌<◌, ◌≡◌, refl, ◌↔◌, Bool, true, false, not, some, arith, length,
}
use open_cade.Prelude.Int.{ℤ, pos, negsuc, ◌≤ℤ◌, pos_part, neg_part, ltb_ℤ}
use open_cade.Prelude.Text.{Text, is_blank}
use open_cade.Prelude.Outcome.{through_first, fail_if-ok, or_fail-ok}
use open_cade.Ticket.{
  RelayTicket, ok, weak_secret, Crypto, validate_inputs, sub_i64, canonical_claims, verify, fail_if,
  or_fail, expired, excessive_lifetime, invalid_signature,
}

abbrev pub i64_limit : ℕ
i64_limit = 9223372036854775808

-- A clock reading or an expiry that `i64` holds.
abbrev pub InI64 : ℤ → Type 0
InI64 z = (neg_part z ≤ i64_limit) × (pos_part z < i64_limit)

-- The conditions under which a ticket is good at `now`.
pub record Acceptable (c : Crypto) (t : RelayTicket) (secret : Text) (now : ℤ) : Type 0 where
  pub strong : 32 ≤ length secret
  pub room_named : is_blank t.room_id ≡ false
  pub user_named : is_blank t.user_id ≡ false
  pub unexpired : now ≤ℤ t.expires_at
  pub short_lived :
      pos_part t.expires_at + neg_part now ≤ pos_part now + neg_part t.expires_at + 300
  pub signed :
      (p : Text) × (k : c.Key) × (c.hex_decode t.signature ≡ some p)
      × (c.key secret ≡ some k)
      × (c.tag k (canonical_claims c t.room_id t.user_id t.expires_at t.capability t.nonce) ≡ p)

not_before : (a b : ℤ) → ltb_ℤ a b ≡ false → b ≤ℤ a
not_before a b h = ground arith

pub validate_inputs-ok :
    (secret room user : Text)
    → validate_inputs secret room user ≡ ok tt
    → (32 ≤ length secret) × (is_blank room ≡ false) × (is_blank user ≡ false)
unfolding validate_inputs
validate_inputs-ok secret room user h = ground arith

-- With a clock after the epoch and an unexpired ticket the subtraction does not wrap.
sub_i64_window :
    (at now : ℤ)
    → InI64 at
    → InI64 now
    → pos 0 ≤ℤ now
    → now ≤ℤ at
    → (ltb_ℤ (pos 300) (sub_i64 at now) ≡ false)
      ↔ (pos_part at + neg_part now ≤ pos_part now + neg_part at + 300)
unfolding sub_i64
sub_i64_window (pos a) (pos n) ha hn h0 h = ground arith
sub_i64_window (negsuc a) (pos n) ha hn h0 h = absurd (omega arith)
sub_i64_window (pos a) (negsuc n) ha hn h0 h = absurd (omega arith)
sub_i64_window (negsuc a) (negsuc n) ha hn h0 h = absurd (omega arith)

not-false : (b : Bool) → not b ≡ false → b ≡ true
not-false true h = refl
not-false false h = cc

module _ (c : Crypto) (t : RelayTicket) (secret : Text) (now : ℤ) (ha : InI64 t.expires_at)
    (hn : InI64 now) (h0 : pos 0 ≤ℤ now) where
  pub verify_sound : verify c t secret now ≡ ok tt → Acceptable c t secret now
  unfolding verify
  verify_sound h =
      let (_, e₁, h₁) = through_first (validate_inputs secret t.room_id t.user_id) _ h in
      let (_, e₂, h₂) = through_first (fail_if (ltb_ℤ t.expires_at now) expired) _ h₁ in
      let (_, e₃, h₃) =
        through_first (fail_if (ltb_ℤ (pos 300) (sub_i64 t.expires_at now)) excessive_lifetime) _
          h₂ in
      let (p, e₄, h₄) = through_first (or_fail (c.hex_decode t.signature) invalid_signature) _ h₃ in
      let (k, e₅, h₅) = through_first (or_fail (c.key secret) weak_secret) _ h₄ in
      let (strong, room, user) = validate_inputs-ok secret t.room_id t.user_id e₁ in
      let unexpired : now ≤ℤ t.expires_at =
        not_before t.expires_at now (fail_if-ok (ltb_ℤ t.expires_at now) expired e₂) in
      record {
        strong = strong;
        room_named = room;
        user_named = user;
        unexpired = unexpired;
        short_lived = (sub_i64_window _ _ ha hn h0 unexpired).0 (fail_if-ok _ _ e₃);
        signed = (
          p,
          k,
          or_fail-ok _ _ e₄,
          or_fail-ok _ _ e₅,
          (c.tag_eq-iff _ _).0 (not-false _ (fail_if-ok _ _ h₅)),
        );
      }

  verify_complete : Acceptable c t secret now → verify c t secret now ≡ ok tt
  unfolding verify validate_inputs
  verify_complete h =
      let (p, k, hp, hk, ht) = h.signed in
      let inputs : validate_inputs secret t.room_id t.user_id ≡ ok tt = ground arith in
      let fresh : ltb_ℤ t.expires_at now ≡ false = ground arith in
      let short : ltb_ℤ (pos 300) (sub_i64 t.expires_at now) ≡ false =
        (sub_i64_window _ _ ha hn h0 h.unexpired).1 h.short_lived in
      let same : c.tag_eq
            (c.tag k (canonical_claims c t.room_id t.user_id t.expires_at t.capability t.nonce)) p
          ≡ true =
        (c.tag_eq-iff _ _).1 ht in
      rw (inputs, fresh, short, hp, hk, same)

-- A ticket is never accepted after its expiry, whatever the clock.
pub verify-unexpired :
    (c : Crypto) (t : RelayTicket) (secret : Text) (now : ℤ)
    → verify c t secret now ≡ ok tt
    → now ≤ℤ t.expires_at
unfolding verify
verify-unexpired c t secret now h =
    let (_, e₁, h₁) = through_first (validate_inputs secret t.room_id t.user_id) _ h in
    let (_, e₂, h₂) = through_first (fail_if (ltb_ℤ t.expires_at now) expired) _ h₁ in
    not_before t.expires_at now (fail_if-ok (ltb_ℤ t.expires_at now) expired e₂)

-- By a clock after the epoch and with both times in `i64`, `verify` accepts a ticket exactly when the
-- secret has 32 bytes, the room and the user are not blank, the ticket is unexpired with at most 300
-- seconds left, and its signature decodes to the MAC of its claims.
pub verify_iff :
    (c : Crypto) (t : RelayTicket) (secret : Text) (now : ℤ)
    → InI64 t.expires_at
    → InI64 now
    → pos 0 ≤ℤ now
    → (verify c t secret now ≡ ok tt) ↔ Acceptable c t secret now
verify_iff c t secret now ha hn h0 =
    (verify_sound c t secret now ha hn h0, verify_complete c t secret now ha hn h0)
