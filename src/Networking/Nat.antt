-- ===== src/Networking/Nat.antt =====
-- packages/networking/src/nat.rs: the classification of a NAT, the probe and the punch of its stub, and
-- the order of the transports. Name look-up, TCP and UDP are arguments: what each call comes to.
mod Tests
use open_cade.Prelude.{
  ℕ, zero, suc, ◌+◌, ◌-◌, ◌^◌, ◌%◌, ◌≤◌, ◌≡◌, refl, arith, Bool, true, false, ◌&&◌, not, ◌==◌, ltb,
  Option, none, some, List, [], ◌∷◌, if◌then◌else◌,
}
use open_cade.Prelude.Text.{Text, codes, text_eq}
use open_cade.Prelude.Net.{SocketAddr, IpAddr}
use open_cade.Sdk.{TransportKind, in_memory, direct_udp, hole_punch, stun, relay}

pub data NatType : Type 0 where
  open_nat cone symmetric blocked unknown : NatType

-- `Display`
unfoldable pub show_nat : NatType → Text
show_nat open_nat = codes "open"
show_nat cone = codes "cone"
show_nat symmetric = codes "symmetric"
show_nat blocked = codes "blocked"
show_nat unknown = codes "unknown"

pub record NatTraversal : Type 0 where
  pub stun_host : Text
  pub stun_port : ℕ
  pub local_addr : SocketAddr

-- `u16::wrapping_sub`
abbrev pub wrapping_sub : ℕ → ℕ → ℕ
wrapping_sub a b = (a + 2 ^ 16 - b) % 2 ^ 16

-- `resolved` is the first address of the STUN host, `connects` whether TCP reaches it in time.
unfoldable pub is_stun_reachable : Option SocketAddr → (SocketAddr → Bool) → Bool
is_stun_reachable none connects = false
is_stun_reachable (some addr) connects = connects addr

module _ (show_ip : IpAddr → Text) where
  unfoldable pub classify : (reachable : Bool) → NatTraversal → NatType
  classify reachable n =
      if not reachable
      then unknown
      else if n.local_addr.port == n.stun_port
      then open_nat
      else if text_eq n.stun_host (show_ip n.local_addr.ip)
          && ltb 1000 (wrapping_sub n.stun_port n.local_addr.port)
      then symmetric
      else cone

-- What the calls of one probe come to; `received` is the echo, if one came.
pub record UdpProbe : Type 0 where
  pub bound : Bool
  pub timeout_set : Bool
  pub sent : Bool
  pub received : Option Text

unfoldable pub direct_udp_probe : UdpProbe → Bool
direct_udp_probe p =
    if not p.bound
    then false
    else if not p.timeout_set
    then false
    else if not p.sent
    then false
    else elim p.received [ some echo ↦ text_eq echo (codes "opencade-probe") | none ↦ false ]

-- `NatTraversal::hole_punch`; the three sends are ignored by the source.
unfoldable pub stub_punch : UdpProbe → (reachable : Bool) → Bool
unfolding direct_udp_probe
stub_punch p reachable = if direct_udp_probe p then false else if not reachable then false else true

abbrev pub relay_fallback : TransportKind
relay_fallback = relay

abbrev pub fallback_order : List TransportKind
fallback_order = direct_udp ∷ hole_punch ∷ stun ∷ relay ∷ []

unfoldable pub kind_eq : TransportKind → TransportKind → Bool
kind_eq in_memory in_memory = true
kind_eq direct_udp direct_udp = true
kind_eq hole_punch hole_punch = true
kind_eq stun stun = true
kind_eq relay relay = true
kind_eq _ _ = false

abbrev pub first_of : List TransportKind → Option TransportKind
first_of [] = none
first_of (kind ∷ kinds) = some kind

-- The entry behind the first that is the current one.
unfoldable pub after : TransportKind → List TransportKind → Option TransportKind
unfolding kind_eq
after current [] = none
after current (kind ∷ kinds) =
    let later = after current kinds in if kind_eq kind current then first_of kinds else later

unfoldable pub next_transport : TransportKind → Option TransportKind
unfolding after
next_transport current = after current fallback_order

unfoldable pub transport_for_nat : NatType → TransportKind
transport_for_nat open_nat = direct_udp
transport_for_nat cone = hole_punch
transport_for_nat symmetric = stun
transport_for_nat blocked = relay
transport_for_nat unknown = relay

-- Falling back a number of times.
unfoldable pub fall_back : ℕ → TransportKind → Option TransportKind
unfolding next_transport
fall_back zero kind = some kind
fall_back (suc n) kind = elim (next_transport kind) [ none ↦ none | some next ↦ fall_back n next ]

-- From the transport of any NAT, at most three fallbacks lead to the relay, and there is none behind it.
pub fall_back-relay :
    (nat : NatType)
    → (n : ℕ) × (n ≤ 3)
      × (fall_back n (transport_for_nat nat) ≡ some relay)
      × (fall_back (suc n) (transport_for_nat nat) ≡ none)
unfolding fall_back transport_for_nat
fall_back-relay open_nat = (3, omega arith, refl, refl)
fall_back-relay cone = (2, omega arith, refl, refl)
fall_back-relay symmetric = (1, omega arith, refl, refl)
fall_back-relay blocked = (0, omega arith, refl, refl)
fall_back-relay unknown = (0, omega arith, refl, refl)
