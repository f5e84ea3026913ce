-- ===== src/Ticket.antt =====
-- packages/shared/src/lib.rs: the signed tickets that open a relay connection.
pub mod Claims
pub mod Verify
pub mod Issued
pub mod Tests
use open_cade.Prelude.{
  ℕ, ◌+◌, ◌-◌, ◌^◌, ◌≢◌, not, ◌≤◌, ◌<◌, ◌≡◌, ◌↔◌, Bool, true, false, ◌&&◌, ◌||◌, Option, none, some,
  List, [], ◌∷◌, ◌++◌, ltb, if◌then◌else◌, length,
}
use open_cade.Prelude.Int.{ℤ, pos, negsuc, ltb_ℤ, pos_part, neg_part, sub_ℕ}
use open_cade.Prelude.Text.{Text, codes, is_blank}
pub use open_cade.Prelude.Outcome.{ok, err, ◌>>=◌, ◌>>◌, fail_if, or_fail}
use open_cade.Prelude.Outcome.{Outcome}
use open_cade.Prelude.Digits.{show_ℕ, show_ℤ}

abbrev pub max_relay_ticket_lifetime_seconds : ℕ
max_relay_ticket_lifetime_seconds = 300

pub data RelayCapability : Type 0 where
  probe native_tcp_tunnel : RelayCapability

unfoldable pub as_str : RelayCapability → Text
as_str probe = codes "probe"
as_str native_tcp_tunnel = codes "native_tcp_tunnel"

-- `nonce` is the 128-bit value of the UUID.
pub record RelayTicket : Type 0 where
  pub room_id : Text
  pub user_id : Text
  pub expires_at : ℤ
  pub capability : RelayCapability
  pub nonce : ℕ
  pub signature : Text

pub data RelayTicketError : Type 0 where
  empty_identifier weak_secret expired excessive_lifetime invalid_signature : RelayTicketError

abbrev pub Result {ℓ} : Type ℓ → Type ℓ
Result A = Outcome RelayTicketError A

-- The crates `hmac`, `sha2`, `hex` and `uuid`. `key` is `new_from_slice`, `tag` the finished MAC of
-- a message, `tag_eq` the comparison of `verify_slice`.
pub record Crypto : Type 1 where
  pub Key : Type 0
  pub key : Text → Option Key
  pub tag : Key → Text → Text
  pub tag_eq : Text → Text → Bool
  pub hex_encode : Text → Text
  pub hex_decode : Text → Option Text
  pub show_uuid : ℕ → Text
  pub tag_eq-iff : (s t : Text) → (tag_eq s t ≡ true) ↔ (s ≡ t)
  pub hex_decode-encode : (t : Text) → hex_decode (hex_encode t) ≡ some t
  pub show_uuid-injective : (m n : ℕ) → show_uuid m ≡ show_uuid n → m ≡ n
  -- HMAC takes a key of any length.
  pub key-total : (s : Text) → key s ≢ none

unfoldable pub validate_inputs : Text → Text → Text → Result (Unit {0})
validate_inputs secret room_id user_id = do
  fail_if (ltb (length secret) 32) weak_secret
  fail_if (is_blank room_id || is_blank user_id) empty_identifier

-- `a - b` in `i64`, which wraps in a release build
unfoldable pub sub_i64 : ℤ → ℤ → ℤ
sub_i64 a b =
    let d = sub_ℕ (pos_part a + neg_part b) (neg_part a + pos_part b) in
    if ltb_ℤ d (negsuc (2 ^ 63 - 1))
    then sub_ℕ (pos_part a + neg_part b + 2 ^ 64) (neg_part a + pos_part b)
    else if ltb_ℤ (pos (2 ^ 63 - 1)) d
    then sub_ℕ (pos_part a + neg_part b) (neg_part a + pos_part b + 2 ^ 64)
    else d

module _ (c : Crypto) where
  open c use {key, tag, tag_eq, hex_encode, hex_decode, show_uuid}

  relay_mac : Text → Result c.Key
  relay_mac secret = or_fail (key secret) weak_secret

  -- `format!("{}:{room_id}:{}:{user_id}:{expires_at}:{}:{nonce}", …)`
  unfoldable pub canonical_claims : Text → Text → ℤ → RelayCapability → ℕ → Text
  canonical_claims room_id user_id expires_at capability nonce =
      show_ℕ (length room_id)
      ++ b':'
        ∷ (room_id
            ++ b':'
              ∷ (show_ℕ (length user_id)
                  ++ b':'
                    ∷ (user_id
                        ++ b':'
                          ∷ (show_ℤ expires_at
                              ++ b':' ∷ (as_str capability ++ b':' ∷ show_uuid nonce)))))

  signature_of : Text → Text → Text → ℤ → RelayCapability → ℕ → Result Text
  unfolding relay_mac
  signature_of secret room_id user_id expires_at capability nonce = do
    mac ← relay_mac secret
    ok (tag mac (canonical_claims room_id user_id expires_at capability nonce))

  -- The fresh nonce of `Uuid::new_v4` is the last argument.
  unfoldable pub issue_scoped : Text → Text → Text → ℤ → RelayCapability → ℕ → Result RelayTicket
  unfolding signature_of
  issue_scoped secret room_id user_id expires_at capability nonce = do
    validate_inputs secret room_id user_id
    signature ← signature_of secret room_id user_id expires_at capability nonce
    ok (record {
      room_id = room_id;
      user_id = user_id;
      expires_at = expires_at;
      capability = capability;
      nonce = nonce;
      signature = hex_encode signature;
    })

  unfoldable pub issue : Text → Text → Text → ℤ → ℕ → Result RelayTicket
  unfolding issue_scoped
  issue secret room_id user_id expires_at nonce =
      issue_scoped secret room_id user_id expires_at probe nonce

  unfoldable pub verify : RelayTicket → Text → ℤ → Result (Unit {0})
  unfolding relay_mac
  verify t secret now = do
    validate_inputs secret t.room_id t.user_id
    fail_if (ltb_ℤ t.expires_at now) expired
    fail_if (ltb_ℤ (pos max_relay_ticket_lifetime_seconds) (sub_i64 t.expires_at now))
        excessive_lifetime
    provided ← or_fail (hex_decode t.signature) invalid_signature
    mac ← relay_mac secret
    fail_if
        (not (
          tag_eq (tag mac (canonical_claims t.room_id t.user_id t.expires_at t.capability t.nonce))
            provided))
        invalid_signature
