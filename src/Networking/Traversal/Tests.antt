-- ===== src/Networking/Traversal/Tests.antt =====
-- traversal.rs at concrete inputs: the peer answers in the second attempt, after a stranger.
use open_cade.Networking.{hole_punch_timeout, invalid_configuration}
use open_cade.Networking.Traversal.{
  HolePunchConfig, PunchPacket, Arrival, datagram, Attempt, new_punch, punch_hole,
}
use open_cade.Networking.Traversal.Bounded.{Answers, punch_hole-Answers}
use open_cade.Prelude.{ℕ, ◌≡◌, ◌≤◌, refl, [], ◌∷◌, Option, some, ◌==◌, if◌then◌else◌}
use open_cade.Prelude.Text.{Text, codes, text_eq, is_blank}
use open_cade.Prelude.Net.{SocketAddr, v4, socket_addr, addr_eq, is_unspecified}
use open_cade.Prelude.Outcome.{ok, err}

abbrev here : ℕ → SocketAddr
here port = socket_addr (v4 (127 ∷ 0 ∷ 0 ∷ 1 ∷ [])) port

-- The bytes are the session key.
abbrev read_packet : Text → Option PunchPacket
read_packet bytes =
    some (record { version = 1; packet_room_id = codes "room-1"; packet_session_key = bytes })

abbrev config : HolePunchConfig
config = record {
  room_id = codes "room-1";
  session_key = codes "key";
  peer_candidates = here 5001 ∷ here 5002 ∷ [];
  attempts = 3;
  interval = 100;
}

configured :
    new_punch (codes "room-1") (codes "key") (here 5001 ∷ here 5001 ∷ here 5002 ∷ []) 3 100
    ≡ ok config
unfolding new_punch addr_eq is_unspecified is_blank text_eq
configured = refl

no_attempts :
    new_punch (codes "room-1") (codes "key") (here 5001 ∷ []) 0 100
    ≡ err (
        invalid_configuration
          (codes "hole punch requires 1 to 10 attempts and a non-zero interval"))
unfolding new_punch addr_eq is_unspecified is_blank text_eq
no_attempts = refl

abbrev from_port : ℕ → Text → Arrival
from_port port bytes = datagram (here port) bytes (ok tt) (ok tt)

abbrev socket : ℕ → Attempt
socket attempt = record {
  sends = λ candidate. ok tt;
  arrivals =
      if attempt == 2
      then from_port 9 (codes "key")
        ∷ from_port 5001 (codes "old")
        ∷ from_port 5002 (codes "key")
        ∷ []
      else [];
}

punched :
    punch_hole read_packet config socket
    ≡ ok (record { selected_peer = here 5002; punch_attempts = 2 })
unfolding punch_hole addr_eq text_eq
punched = refl

nobody_answers :
    punch_hole read_packet config (λ attempt. record { sends = λ candidate. ok tt; arrivals = [] })
    ≡ err (hole_punch_timeout 3)
unfolding punch_hole
nobody_answers = refl

punch_hole-Answers_example :
    (1 ≤ 2) × (2 ≤ 3) × Answers read_packet config (here 5002) (socket 2).arrivals
punch_hole-Answers_example =
    punch_hole-Answers read_packet config socket
      (record { selected_peer = here 5002; punch_attempts = 2 }) punched
