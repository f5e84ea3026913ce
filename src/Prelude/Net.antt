-- ===== src/Prelude/Net.antt =====
-- `std::net`: addresses and their equality.
use Prim.Native.Nat.{ℕ}
use mathlib.Core.Path.{◌≡◌, refl, ap}
use mathlib.Core.Logic.{◌≢◌, inl, inr}
use mathlib.Core.Bool.{Bool, true, false, ◌&&◌}
use native.Mathlib.Omega.{arith}
use open_cade.Prelude.Tests.{◌==◌, Bool-cases}
use open_cade.Prelude.Lists.{all}
use open_cade.Prelude.Text.{Text, text_eq, text_eq_iff}

-- The octets of an address, most significant first.
pub data IpAddr : Type 0 where
  v4 v6 : Text → IpAddr

-- `flow_info` and `scope_id` are 0 for IPv4.
pub record SocketAddr : Type 0 where
  pub ip : IpAddr
  pub port : ℕ
  pub flow_info : ℕ
  pub scope_id : ℕ

-- `SocketAddr::new`
abbrev pub socket_addr : IpAddr → ℕ → SocketAddr
socket_addr ip port = record { ip = ip; port = port; flow_info = 0; scope_id = 0 }

-- `IpAddr::is_unspecified`
unfoldable pub is_unspecified : IpAddr → Bool
is_unspecified (v4 octets) = all (λ octet. octet == 0) octets
is_unspecified (v6 octets) = all (λ octet. octet == 0) octets

unfoldable pub ip_eq : IpAddr → IpAddr → Bool
ip_eq (v4 octets) (v4 others) = text_eq octets others
ip_eq (v6 octets) (v6 others) = text_eq octets others
ip_eq _ _ = false

-- `==` on socket addresses
unfoldable pub addr_eq : SocketAddr → SocketAddr → Bool
unfolding ip_eq
addr_eq a b =
    ip_eq a.ip b.ip && a.port == b.port && a.flow_info == b.flow_info && a.scope_id == b.scope_id

pub ip_eq_sound : (a b : IpAddr) → ip_eq a b ≡ true → a ≡ b
unfolding ip_eq
ip_eq_sound (v4 octets) (v4 others) h = ap v4 ((text_eq_iff octets others).0 h)
ip_eq_sound (v6 octets) (v6 others) h = ap v6 ((text_eq_iff octets others).0 h)
ip_eq_sound (v4 octets) (v6 others) h = cc
ip_eq_sound (v6 octets) (v4 others) h = cc

pub ip_eq_refl : (a : IpAddr) → ip_eq a a ≡ true
unfolding ip_eq
ip_eq_refl (v4 octets) = (text_eq_iff octets octets).1 refl
ip_eq_refl (v6 octets) = (text_eq_iff octets octets).1 refl

pub addr_eq_refl : (a : SocketAddr) → addr_eq a a ≡ true
unfolding addr_eq
addr_eq_refl a = ground (arith, ip_eq_refl a.ip)

pub addr_eq_sound : (a b : SocketAddr) → addr_eq a b ≡ true → a ≡ b
unfolding addr_eq
addr_eq_sound a b h =
    let ip = ip_eq_sound a.ip b.ip in
    let same_ip : a.ip ≡ b.ip = ground arith in
    let same_port : a.port ≡ b.port = ground arith in
    let same_flow : a.flow_info ≡ b.flow_info = ground arith in
    let same_scope : a.scope_id ≡ b.scope_id = ground arith in
    cc (same_ip, same_port, same_flow, same_scope)

pub addr_neq : (a b : SocketAddr) → a ≢ b → addr_eq a b ≡ false
addr_neq a b apart = elim (Bool-cases (addr_eq a b)) [
  | inl same ↦ absurd (apart (addr_eq_sound a b same))
  | inr other ↦ other
]
