-- ===== src/Ticket/Claims.antt =====
-- The text that a ticket's signature covers: packages/shared/src/lib.rs, `canonical_claims`.
use open_cade.Prelude.{ℕ, ◌≡◌, refl, ◌≢◌, ◌∷◌, ◌++◌, arith, length, append-injective, All}
use open_cade.Prelude.Int.{ℤ}
use open_cade.Prelude.Text.{Text, split_unique}
use open_cade.Prelude.Digits.{
  show_ℕ, show_ℕ-Lacks, show_ℤ-Lacks, show_ℕ-injective, show_ℤ-injective,
}
use open_cade.Ticket.{RelayCapability, probe, native_tcp_tunnel, as_str, Crypto, canonical_claims}

pub as_str-injective : (a b : RelayCapability) → as_str a ≡ as_str b → a ≡ b
unfolding as_str
as_str-injective probe probe e = refl
as_str-injective probe native_tcp_tunnel e = cc
as_str-injective native_tcp_tunnel probe e = cc
as_str-injective native_tcp_tunnel native_tcp_tunnel e = refl

as_str-Lacks : (c : RelayCapability) → All (λ b. b ≢ b':') (as_str c)
unfolding as_str
as_str-Lacks probe = omega arith
as_str-Lacks native_tcp_tunnel = omega arith

-- A field behind its length: it may hold any byte, the separator too.
field_unique :
    (xs ys us vs : Text)
    → show_ℕ (length xs) ++ b':' ∷ (xs ++ us) ≡ show_ℕ (length ys) ++ b':' ∷ (ys ++ vs)
    → (xs ≡ ys) × (us ≡ vs)
field_unique xs ys us vs e =
    let (len, rest) =
      split_unique b':' _ _ _ _ (show_ℕ-Lacks (length xs)) (show_ℕ-Lacks (length ys)) e in
    append-injective xs ys us vs (show_ℕ-injective _ _ len) rest

-- What one rearranged claim text determines.
pub record SameClaims (room room' user user' : Text) (at at' : ℤ) (cap cap' : RelayCapability)
    (nonce nonce' : ℕ) : Type 0 where
  pub same_room : room ≡ room'
  pub same_user : user ≡ user'
  pub same_expiry : at ≡ at'
  pub same_capability : cap ≡ cap'
  pub same_nonce : nonce ≡ nonce'

-- Two tickets have one claim text only if they agree on the room, the user, the expiry, the
-- capability and the nonce, whatever bytes the room's and the user's names hold.
pub canonical_claims-injective :
    (c : Crypto) (room room' user user' : Text) (at at' : ℤ) (cap cap' : RelayCapability)
    (nonce nonce' : ℕ)
    → canonical_claims c room user at cap nonce ≡ canonical_claims c room' user' at' cap' nonce'
    → SameClaims room room' user user' at at' cap cap' nonce nonce'
unfolding canonical_claims
canonical_claims-injective c room room' user user' at at' cap cap' nonce nonce' e =
    let (rooms, rest₁) = field_unique room room' _ _ e in
    let (users, rest₂) = field_unique user user' _ _ (tail_eq rest₁) in
    let (ats, rest₃) =
      split_unique b':' _ _ _ _ (show_ℤ-Lacks at) (show_ℤ-Lacks at') (tail_eq rest₂) in
    let (caps, rest₄) = split_unique b':' _ _ _ _ (as_str-Lacks cap) (as_str-Lacks cap') rest₃ in
    record {
      same_room = rooms;
      same_user = users;
      same_expiry = show_ℤ-injective at at' ats;
      same_capability = as_str-injective cap cap' caps;
      same_nonce = c.show_uuid-injective nonce nonce' rest₄;
    }
  where
    tail_eq : {x : ℕ} {xs ys : Text} → x ∷ xs ≡ x ∷ ys → xs ≡ ys
    tail_eq h = cc
