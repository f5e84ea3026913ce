-- ===== src/RoutePolicy/Gate/Tests.antt =====
-- route_policy.rs at the inputs of its own tests, and beyond 32 bits.
use open_cade.RoutePolicy.{RouteEvidence, decide_native_route}
use open_cade.RoutePolicy.Gate.{decide_native_route_iff}
use open_cade.Prelude.{ℕ, ◌*◌, ◌≡◌, ◌↔◌, ◌≤◌, ◌<◌, refl, arith, true}
use open_cade.Protocol.Reports.{direct_lan, tcp_tunnel}

abbrev evidence_of : ℕ → ℕ → RouteEvidence
evidence_of attempts verified = record { attempts = attempts; verified = verified }

passes : (decide_native_route true 10 (evidence_of 10 8)).route ≡ tcp_tunnel
unfolding decide_native_route
passes = refl

fails : (decide_native_route true 10 (evidence_of 10 7)).route ≡ direct_lan
unfolding decide_native_route
fails = refl

decide_native_route_iff_example :
    ((decide_native_route true 10 (evidence_of 10 8)).route ≡ tcp_tunnel)
    ↔ ((true ≡ true) × (10 ≤ 10) × (0 < 10) × (10 * 80 ≤ 8 * 100))
decide_native_route_iff_example = decide_native_route_iff true 10 (evidence_of 10 8) (omega arith)

-- Past 32 bits less than a hundredth is enough.
saturates : (decide_native_route true 10 (evidence_of 4294967295 42949673)).route ≡ tcp_tunnel
unfolding decide_native_route
saturates = refl
