-- ===== src/Rooms/Admitted/Tests.antt =====
-- The routes that hand out tickets, at concrete inputs: the room of the room tests, in play.
use open_cade.Rooms.Lifecycle.{seat, add_member}
use open_cade.Prelude.Text.{Text, codes, text_eq, is_blank}
use open_cade.Prelude.Assoc.{contains_key, lookup, insert, nat_eq, text_eq_instance}
use open_cade.Prelude.{arith, ◌≡◌, ℕ, [], ◌∷◌, some, refl, true, false, ◌++◌}
use open_cade.Prelude.Int.{pos}
use open_cade.Rooms.{ok, Database}
use open_cade.Rooms.Challenges.{challenge_room}
use open_cade.Rooms.Inversion.{playing_room}
use open_cade.Ticket.{
  RelayTicket, RelayCapability, probe, native_tcp_tunnel, issue_scoped, canonical_claims,
  validate_inputs, as_str,
}
use open_cade.Ticket.Tests.{plain, secret}
use open_cade.Prelude.Digits.{show_ℤ}
use open_cade.Relay.{relay_ws_handler, upgraded}
use open_cade.Relay.Reach.{start}
use open_cade.Limiter.{check_at, is_exhausted, record_attempt, pop_old, attempts_of}
use open_cade.Rooms.Tickets.{
  RelayConfig, relay_ticket, native_tunnel_ticket, budgeted, require_ticket_budget, ticket_body,
  is_eligible,
}
use open_cade.Rooms.Admitted.{relay_ticket-upgraded}
use open_cade.Rooms.Tests.{in_play}

abbrev signing : RelayConfig
signing = record { relay_url = some (codes "wss://relay"); relay_secret = some secret }

-- Room 9 with both users, and the preflights of both.
abbrev ready_rooms : Database
ready_rooms = record {
  rooms = (9, record in_play { ready_preflights = 2 }) ∷ [];
  grants = [];
  rooms_created = 1;
  notices = [];
}

abbrev handed_out : ℕ → RelayCapability → Text → RelayTicket
handed_out nonce capability claims = record {
  room_id = codes "9";
  user_id = codes "1";
  expires_at = pos 1120;
  capability = capability;
  nonce = nonce;
  signature = secret ++ claims;
}

relay_ticket_given :
    (relay_ticket plain signing 1 9 1000 5 7 ready_rooms []).1
    ≡ ok (codes "wss://relay", handed_out 5 probe (codes "1:9:1:1:1120:probe:5"))
unfolding relay_ticket budgeted require_ticket_budget check_at is_exhausted record_attempt pop_old
    attempts_of lookup ticket_body is_eligible issue_scoped canonical_claims validate_inputs
    is_blank show_ℤ as_str insert contains_key text_eq playing_room seat challenge_room add_member
relay_ticket_given = refl

relay_ticket-upgraded_example :
    (is_eligible false 1 9 ready_rooms ≡ true)
    × ((relay_ws_handler plain secret
          (some 1010)
          (handed_out 5 probe (codes "1:9:1:1:1120:probe:5"))
          start).1
        ≡ upgraded (handed_out 5 probe (codes "1:9:1:1:1120:probe:5")))
unfolding lookup
relay_ticket-upgraded_example =
    relay_ticket-upgraded plain signing 1 9 1000 5 7 ready_rooms [] secret (codes "wss://relay")
      (handed_out 5 probe (codes "1:9:1:1:1120:probe:5")) 1010 start relay_ticket_given refl
      (record { not_early = omega arith; not_late = omega arith; in_range = omega arith }) refl

tunnel_ticket_given :
    (native_tunnel_ticket plain signing 1 9 1000 6 7 ready_rooms []).1
    ≡ ok (
      codes "wss://relay",
      handed_out 6 native_tcp_tunnel (codes "1:9:1:1:1120:native_tcp_tunnel:6"),
    )
unfolding native_tunnel_ticket budgeted require_ticket_budget check_at is_exhausted record_attempt
    pop_old attempts_of lookup ticket_body is_eligible issue_scoped canonical_claims validate_inputs
    is_blank show_ℤ as_str insert contains_key text_eq playing_room seat challenge_room add_member
tunnel_ticket_given = refl
