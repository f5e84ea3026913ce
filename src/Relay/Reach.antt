-- ===== src/Relay/Reach.antt =====
-- The relay as a transition system: services/relay/src/main.rs. Connections interleave at will.
use open_cade.Prelude.{ℕ, [], ◌≡◌, Option}
use open_cade.Prelude.Assoc.{text_eq_instance}
use open_cade.Prelude.Int.{ℤ}
use open_cade.Prelude.Text.{Text}
use open_cade.Ticket.{RelayTicket, RelayCapability, Crypto}
use open_cade.Relay.{
  RelayState, fresh_channel, connect, receive, stop_sending, ticket_cleanup, relay_ws_handler,
  room_key, join, leave, drop_if_empty,
}
use open_cade.Relay.Session.{Session, Event, Json, on_event}

-- What the ticket of a connection names.
pub record Grant : Type 0 where
  pub room_id : Text
  pub user_id : Text
  pub capability : RelayCapability

abbrev pub key_of : Grant → Text
key_of g = room_key g.room_id g.capability

-- A session runs under the ticket of its connection.
pub record IsOf (g : Grant) (session : Session) : Type 0 where
  pub same_room : session.room_id ≡ g.room_id
  pub same_capability : session.capability ≡ g.capability
  pub same_key : session.room_key ≡ key_of g

-- `grant i` is what the ticket of connection `i` names.
module _ (c : Crypto) (secret : Text) (j : Json) (grant : ℕ → Grant) where
  pub data Step : RelayState → RelayState → Type 0 where
    cleans : (now : ℤ) (s : RelayState) → Step s (ticket_cleanup now s)
    upgrades :
        (clock : Option ℕ) (t : RelayTicket) (s : RelayState)
        → Step s (relay_ws_handler c secret clock t s).0
    connects : (i : ℕ) (s : RelayState) → Step s (connect i s)
    joins : (i : ℕ) (s : RelayState) → Step s (join (key_of (grant i)) (grant i).user_id i s).0
    handles :
        (session : Session) (now later : ℕ) (e : Event) (s : RelayState)
        → IsOf (grant session.id) session
        → Step s (on_event j session now later e s).1
    leaves : (i : ℕ) (s : RelayState) → Step s (leave (key_of (grant i)) (grant i).user_id i s)
    drops : (key : Text) (s : RelayState) → Step s (drop_if_empty key s)
    receives : (i : ℕ) (s : RelayState) → Step s (receive i s)
    stops : (i : ℕ) (s : RelayState) → Step s (stop_sending i s)

  pub data Reach (s : RelayState) : RelayState → Type 0 where
    here : Reach s s
    next : {t u : RelayState} → Reach s t → Step t u → Reach s u

abbrev pub start : RelayState
start = record { rooms = []; used_tickets = []; channels = λ i. fresh_channel }
