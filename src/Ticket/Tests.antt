-- ===== src/Ticket/Tests.antt =====
-- The tickets at concrete inputs, with a MAC that prepends its key.
use open_cade.Prelude.{none, ◌≡◌, refl, ◌≢◌, ◌⊎◌, ◌↔◌, ◌++◌, some, arith, ◌+◌, ◌≤◌}
use open_cade.Prelude.Int.{pos, ◌≤ℤ◌, pos_part, neg_part}
use open_cade.Prelude.Text.{Text, codes, text_eq, text_eq_iff, is_blank}
use open_cade.Prelude.Digits.{show_ℤ, show_ℕ, show_ℕ-injective}
use open_cade.Ticket.{
  as_str, Crypto, RelayTicket, probe, native_tcp_tunnel, ok, err, issue_scoped, verify,
  canonical_claims, validate_inputs, sub_i64, invalid_signature, expired, excessive_lifetime,
}
use open_cade.Ticket.Verify.{Acceptable, verify_iff}
use open_cade.Ticket.Issued.{verify-issue_scoped, verify_tamper}

pub key-total : (s : Text) → some s ≢ none
key-total s e = cc

abbrev pub plain : Crypto
plain = record {
  Key = Text;
  key = λ s. some s;
  tag = λ k m. k ++ m;
  tag_eq = text_eq;
  hex_encode = λ t. t;
  hex_decode = λ t. some t;
  show_uuid = show_ℕ;
  tag_eq-iff = text_eq_iff;
  hex_decode-encode = λ t. refl;
  show_uuid-injective = show_ℕ-injective;
  key-total = key-total;
}

abbrev pub secret : Text
secret = codes "relay-test-secret-at-least-32-bytes-long"

abbrev pub ticket : RelayTicket
ticket = record {
  room_id = codes "room";
  user_id = codes "user";
  expires_at = pos 1120;
  capability = native_tcp_tunnel;
  nonce = 7;
  signature = secret ++ codes "4:room:4:user:1120:native_tcp_tunnel:7";
}

ticket_issued :
    issue_scoped plain secret (codes "room") (codes "user") (pos 1120) native_tcp_tunnel 7
    ≡ ok ticket
unfolding issue_scoped canonical_claims validate_inputs is_blank show_ℤ as_str
ticket_issued = refl

verify-issue_scoped_example : (verify plain ticket secret (pos 1000) ≡ ok tt) ↔ (
    (pos 1000 ≤ℤ pos 1120)
    × (pos_part (pos 1120) + neg_part (pos 1000) ≤ pos_part (pos 1000) + neg_part (pos 1120) + 300))
verify-issue_scoped_example =
    verify-issue_scoped plain secret (codes "room") (codes "user") (pos 1120) native_tcp_tunnel 7
      ticket ticket_issued (pos 1000) (omega arith) (omega arith) (omega arith)

verify_accepts : verify plain ticket secret (pos 1000) ≡ ok tt
verify_accepts = verify-issue_scoped_example.1 (omega arith)

verify_iff_example :
    (verify plain ticket secret (pos 1000) ≡ ok tt) ↔ Acceptable plain ticket secret (pos 1000)
verify_iff_example =
    verify_iff plain ticket secret (pos 1000) (omega arith) (omega arith) (omega arith)

verify_tamper_example :
    (ticket ≡ ticket) ⊎ ((k : Text) × (x : Text) × (y : Text) × (x ≢ y) × (k ++ x ≡ k ++ y))
verify_tamper_example =
    verify_tamper plain secret (codes "room") (codes "user") (pos 1120) native_tcp_tunnel 7 ticket
      ticket (pos 1000) ticket_issued (omega arith) (omega arith) (omega arith) refl verify_accepts

-- the tests of the source
verify_rejects :
    (verify plain (record ticket { room_id = codes "other" }) secret (pos 1000)
      ≡ err invalid_signature)
    × (verify plain ticket secret (pos 1121) ≡ err expired)
    × (verify plain ticket secret (pos 819) ≡ err excessive_lifetime)
    × (verify plain (record ticket { capability = probe }) secret (pos 1000)
        ≡ err invalid_signature)
unfolding verify canonical_claims validate_inputs sub_i64 is_blank show_ℤ text_eq as_str
verify_rejects = (refl, refl, refl, refl)
