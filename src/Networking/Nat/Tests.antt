-- ===== src/Networking/Nat/Tests.antt =====
-- nat.rs at concrete inputs.
use open_cade.Networking.Nat.{
  NatTraversal, classify, unknown, open_nat, cone, symmetric, stub_punch, next_transport,
  is_stun_reachable,
}
use open_cade.Prelude.{◌≡◌, refl, ◌∷◌, [], true, false, some, none}
use open_cade.Prelude.Text.{Text, codes, text_eq}
use open_cade.Prelude.Net.{IpAddr, v4, socket_addr}
use open_cade.Sdk.{direct_udp, hole_punch, relay}
use open_cade.Prelude.{ℕ}

abbrev show_ip : IpAddr → Text
show_ip ip = codes "127.0.0.1"

abbrev from_port : ℕ → NatTraversal
from_port port = record {
  stun_host = codes "127.0.0.1";
  stun_port = 3478;
  local_addr = socket_addr (v4 (127 ∷ 0 ∷ 0 ∷ 1 ∷ [])) port;
}

unreachable : classify show_ip (is_stun_reachable none (λ addr. true)) (from_port 41000) ≡ unknown
unfolding classify is_stun_reachable
unreachable = refl

same_port : classify show_ip true (from_port 3478) ≡ open_nat
unfolding classify
same_port = refl

-- 3478 - 41000 wraps around.
far_port : classify show_ip true (from_port 41000) ≡ symmetric
unfolding classify text_eq
far_port = refl

near_port : classify show_ip true (from_port 3000) ≡ cone
unfolding classify text_eq
near_port = refl

echo_wins :
    stub_punch
      (record {
        bound = true;
        timeout_set = true;
        sent = true;
        received = some (codes "opencade-probe");
      })
      true
    ≡ false
unfolding stub_punch text_eq
echo_wins = refl

next_of_direct : next_transport direct_udp ≡ some hole_punch
unfolding next_transport
next_of_direct = refl

last_is_relay : next_transport relay ≡ none
unfolding next_transport
last_is_relay = refl
