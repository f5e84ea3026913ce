-- ===== src/Relay/Tests.antt =====
-- The relay at concrete inputs: two users of one room, with the MAC of the ticket tests.
use open_cade.Prelude.{
  ap, none, ℕ, List, [], ◌∷◌, ◌+◌, ◌*◌, ◌≡◌, refl, ◌≢◌, ◌≤◌, some, arith, length, true,
}
use open_cade.Prelude.Int.{pos}
use open_cade.Prelude.Assoc.{lookup, insert, text_eq_instance, nat_eq}
use open_cade.Prelude.Text.{codes, text_eq}
use open_cade.Ticket.{native_tcp_tunnel, as_str}
use open_cade.Ticket.Tests.{plain, secret, ticket}
use open_cade.Prelude.Assoc.{contains_key}
use open_cade.Relay.Session.{on_binary, max_binary_bytes, roll, charge}
use open_cade.Ticket.{verify, canonical_claims, validate_inputs, sub_i64}
use open_cade.Prelude.Text.{is_blank}
use open_cade.Prelude.Digits.{show_ℤ}
use open_cade.Relay.{
  Channel, admit, clock_seconds, dismiss, binary, Room, RelayState, relay_ws_handler, upgraded,
  connect, join, update, try_send, send_all, broadcast_message, room_key, or_default, fresh_channel,
}
use open_cade.Relay.Session.{
  Session, Window, Json, frame, max_messages_per_second, max_bytes_per_second, on_event, on_text,
  exceeds_rate_limit,
}
use open_cade.Relay.Admission.{cleans, run, ticket_once}
use open_cade.Relay.Rate.{Arrival, accept_all, accept_all_burst}
use open_cade.Relay.Isolation.{Spared}
use open_cade.Relay.Frames.{TextEffect, on_text-TextEffect, Effect, on_event-Effect}
use open_cade.Relay.Reach.{Grant, key_of, connects, joins, Reach, here, next, start}
use open_cade.Relay.Safety.{relay-IsBounded, on_event_isolated}
use open_cade.Relay.Rooms.{IsBounded}

-- `relay_ws_handler`
abbrev opened : RelayState
opened = (relay_ws_handler plain secret (some 1000) ticket start).0

first_presentation : (relay_ws_handler plain secret (some 1000) ticket start).1 ≡ upgraded ticket
unfolding relay_ws_handler admit clock_seconds verify canonical_claims validate_inputs sub_i64
    is_blank show_ℤ text_eq as_str lookup
first_presentation = refl

ticket_once_example :
    (relay_ws_handler plain secret
      (some 1001)
      ticket
      (run plain secret opened (cleans (pos 1001) ∷ []))).1
    ≢ upgraded ticket
ticket_once_example =
    ticket_once plain secret (some 1000) 1001 ticket ticket ticket start (cleans (pos 1001) ∷ [])
      first_presentation (omega arith, tt)

abbrev new_window : Window
new_window = record { window_started = 0; messages = 0; bytes = 0 }

abbrev arrivals : List Arrival
arrivals =
    record { now = 5; later = 5; size = 100 }
    ∷ record { now = 999_999_999; later = 999_999_999; size = 7 }
    ∷ []

abbrev counted : Window
counted = record { window_started = 0; messages = 2; bytes = 107 }

arrivals_accepted : accept_all new_window arrivals ≡ some counted
unfolding accept_all exceeds_rate_limit roll charge
arrivals_accepted = refl

accept_all_burst_example :
    (0 + 2 ≤ 2 * max_messages_per_second) × (0 + 107 ≤ 2 * max_bytes_per_second)
accept_all_burst_example =
    accept_all_burst 5 new_window counted arrivals
      (record { few = omega arith; light = omega arith }) arrivals_accepted
      ((omega arith, omega arith, omega arith), ((omega arith, omega arith, omega arith), tt))

abbrev peers : Room
peers =
    (codes "ann", record { connection_id = 0 }) ∷ (codes "bob", record { connection_id = 1 }) ∷ []

abbrev two_rooms : RelayState
two_rooms = record {
  rooms = (codes "room:probe", peers) ∷ [];
  used_tickets = [];
  channels = λ i. fresh_channel;
}

stranger : Spared 2 0 (or_default (lookup (codes "room:probe") two_rooms.rooms))
unfolding or_default lookup text_eq
stranger = (λ e. omega arith, (λ e. omega arith, tt))

-- Envelopes that are never parsed.
abbrev no_json : Json
no_json = record {
  parse_envelope = λ t. none;
  payload_room_id = λ t. none;
  is_rfc3339 = λ t. true;
  unsupported_version_reply = λ v r. v;
  invalid_envelope_reply = λ e r. r;
}

abbrev granted : ℕ → Grant
granted i = record { room_id = codes "room"; user_id = i ∷ []; capability = native_tcp_tunnel }

abbrev ann : Session
ann = record {
  id = 0;
  room_id = codes "room";
  room_key = key_of (granted 0);
  capability = native_tcp_tunnel;
  window = new_window;
}

on_text-TextEffect_example :
    TextEffect no_json ann (codes "hello") start (on_text no_json ann (codes "hello") start)
on_text-TextEffect_example = on_text-TextEffect no_json ann (codes "hello") start

on_event-Effect_example :
    Effect no_json ann two_rooms (on_event no_json ann 1 1 (frame (binary (codes "x"))) two_rooms).1
on_event-Effect_example = on_event-Effect no_json ann 1 1 (frame (binary (codes "x"))) two_rooms

abbrev joined : RelayState
joined =
    (join (key_of (granted 1)) (1 ∷ []) 1
      (join (key_of (granted 0)) (0 ∷ []) 0 (connect 1 (connect 0 start))).0).0

joined_reached : Reach plain secret no_json granted start joined
joined_reached =
    next (next (next (next here (connects 0 start)) (connects 1 _)) (joins 0 _)) (joins 1 _)

relay-IsBounded_example : IsBounded joined
relay-IsBounded_example = relay-IsBounded plain secret no_json granted joined_reached

ann_reaches_bob :
    (on_event no_json ann 1 1 (frame (binary (codes "x"))) joined).1.channels 1 ≢ joined.channels 1
unfolding on_event on_binary max_binary_bytes exceeds_rate_limit roll charge broadcast_message
    send_all or_default lookup text_eq join dismiss insert connect update try_send contains_key
    room_key as_str
ann_reaches_bob e = omega (arith, ap (λ (ch : Channel). length ch.queue) e)

on_event_isolated_example :
    ((granted 1).room_id ≡ ann.room_id) × ((granted 1).capability ≡ ann.capability)
on_event_isolated_example =
    on_event_isolated plain secret no_json granted ann 1 1 (frame (binary (codes "x"))) 1
      joined_reached (record { same_room = refl; same_capability = refl; same_key = refl })
      (λ e. omega arith) ann_reaches_bob
