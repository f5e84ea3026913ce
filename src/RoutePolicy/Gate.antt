-- ===== src/RoutePolicy/Gate.antt =====
-- The gate of route_policy.rs: eighty of a hundred attempts, within the bound of the 32-bit products.
mod Tests
use open_cade.RoutePolicy.{RouteEvidence, saturating_mul, meets_success_gate, decide_native_route}
use open_cade.Prelude.{
  ℕ, ◌+◌, ◌*◌, ◌^◌, ◌≡◌, ◌↔◌, ◌≤◌, ◌<◌, refl, arith, Bool, true, false, ◌&&◌, leb, ltb, Bool-cases,
  inl, inr, if◌then◌else◌,
}
use open_cade.Protocol.Reports.{NativeRouteCapability, direct_lan, tcp_tunnel}

saturating_mul-exact : (a b : ℕ) → a * b < 4294967296 → saturating_mul a b ≡ a * b
unfolding saturating_mul
saturating_mul-exact a b h = ground arith

saturating_mul-hundred : (a n : ℕ) → n ≤ 4294967295 → (n ≤ saturating_mul a 100) ↔ (n ≤ a * 100)
unfolding saturating_mul
saturating_mul-hundred a n h = ground arith

meets_success_gate_iff :
    (e : RouteEvidence)
    → e.attempts < 53687092
    → (meets_success_gate e ≡ true) ↔ ((0 < e.attempts) × (e.attempts * 80 ≤ e.verified * 100))
unfolding meets_success_gate
meets_success_gate_iff e small =
    let exact = saturating_mul-exact e.attempts 80 (omega arith) in
    let hundred = saturating_mul-hundred e.verified (e.attempts * 80) (omega arith) in
    ground (arith, exact, hundred)

-- With fewer than 53687092 attempts, where the product with 80 fits 32 bits, the tunnel is chosen just
-- when the operator enables it, there are the asked for number of attempts and at least one, and at
-- least eighty in a hundred are verified. Otherwise the route is direct.
pub decide_native_route_iff :
    (tunnel_enabled : Bool) (minimum_attempts : ℕ) (e : RouteEvidence)
    → e.attempts < 53687092
    → ((decide_native_route tunnel_enabled minimum_attempts e).route ≡ tcp_tunnel) ↔ (
        (tunnel_enabled ≡ true)
        × (minimum_attempts ≤ e.attempts)
        × (0 < e.attempts)
        × (e.attempts * 80 ≤ e.verified * 100))
unfolding decide_native_route
decide_native_route_iff tunnel_enabled minimum_attempts e small =
    let gate = meets_success_gate_iff e small in
    elim (Bool-cases (tunnel_enabled && leb minimum_attempts e.attempts && meets_success_gate e)) [
      | inl chosen ↦ ground (arith, gate)
      | inr not_chosen ↦ ground (arith, gate)
    ]

-- Where both products pass 32 bits the gate is open: an enabled tunnel with at least 53687092 attempts
-- is chosen from 42949673 verified ones on, whatever their share.
pub decide_native_route-saturated :
    (minimum_attempts : ℕ) (e : RouteEvidence)
    → minimum_attempts ≤ e.attempts
    → 53687092 ≤ e.attempts
    → 42949673 ≤ e.verified
    → (decide_native_route true minimum_attempts e).route ≡ tcp_tunnel
unfolding decide_native_route meets_success_gate saturating_mul
decide_native_route-saturated minimum_attempts e enough many some_verified =
    let top : saturating_mul e.attempts 80 ≡ 4294967295 = ground arith in
    let top₁ : saturating_mul e.verified 100 ≡ 4294967295 = ground arith in
    ground (arith, top, top₁)
