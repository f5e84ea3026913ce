-- ===== src/RoutePolicy.antt =====
-- apps/server/src/route_policy.rs: which native route the evidence allows. The counts are of a query.
pub mod Gate
use open_cade.Prelude.{ℕ, ◌+◌, ◌*◌, ◌^◌, ◌-◌, Bool, true, false, ◌&&◌, not, leb, ltb, if◌then◌else◌}
use open_cade.Prelude.Text.{Text, codes}
use open_cade.Protocol.Reports.{NativeRouteCapability, direct_lan, tcp_tunnel}

abbrev pub required_success_percent : ℕ
required_success_percent = 80

-- 32-bit counts
pub record RouteEvidence : Type 0 where
  pub attempts : ℕ
  pub verified : ℕ

pub record NativeRoutePolicyPayload : Type 0 where
  pub route : NativeRouteCapability
  pub reason : Text
  pub evidence_attempts : ℕ
  pub evidence_verified : ℕ

-- `u32::saturating_mul`
unfoldable pub saturating_mul : ℕ → ℕ → ℕ
saturating_mul a b = if ltb (a * b) (2 ^ 32) then a * b else 2 ^ 32 - 1

unfoldable pub meets_success_gate : RouteEvidence → Bool
unfolding saturating_mul
meets_success_gate e =
    ltb 0 e.attempts
    && leb (saturating_mul e.attempts required_success_percent) (saturating_mul e.verified 100)

unfoldable pub decide_native_route : Bool → ℕ → RouteEvidence → NativeRoutePolicyPayload
unfolding meets_success_gate
decide_native_route tunnel_enabled minimum_attempts tunnel =
    if tunnel_enabled && leb minimum_attempts tunnel.attempts && meets_success_gate tunnel
    then record {
      route = tcp_tunnel;
      reason = codes "physical_evidence_gate_passed";
      evidence_attempts = tunnel.attempts;
      evidence_verified = tunnel.verified;
    }
    else record {
      route = direct_lan;
      reason =
          if not tunnel_enabled
          then codes "tcp_tunnel_operator_disabled"
          else if not (leb minimum_attempts tunnel.attempts)
          then codes "tcp_tunnel_evidence_insufficient"
          else codes "tcp_tunnel_success_gate_failed";
      evidence_attempts = tunnel.attempts;
      evidence_verified = tunnel.verified;
    }
