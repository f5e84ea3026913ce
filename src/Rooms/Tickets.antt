-- ===== src/Rooms/Tickets.antt =====
-- apps/server/src/routes/rooms.rs: `relay_ticket`, `native_tunnel_ticket` and `require_ticket_budget`.
use open_cade.Prelude.{ℕ, ◌+◌, ◌++◌, Bool, true, false, ◌&&◌, ◌||◌, not, Option, none, some, ◌==◌}
use open_cade.Prelude.Assoc.{lookup, nat_eq}
use open_cade.Prelude.Int.{pos}
use open_cade.Prelude.Outcome.{Outcome}
use open_cade.Prelude.Text.{Text, codes}
use open_cade.Ticket.{
  Crypto, RelayTicket, RelayTicketError, RelayCapability, probe, native_tcp_tunnel, issue_scoped,
}
use open_cade.Limiter.{AuthRateLimiter, check_at}
use open_cade.Rooms.{
  AppError, forbidden, conflict, internal, rate_limited, Result, ok, err, ◌>>=◌, ◌>>◌, fail_if,
  Room, Database, is_member,
}
use open_cade.Rooms.Launch.{is_connecting, is_playing}

-- `config.relay_url` and `config.relay_secret`
pub record RelayConfig : Type 0 where
  pub relay_url : Option Text
  pub relay_secret : Option Text

abbrev pub ticket_seconds : ℕ
ticket_seconds = 120

abbrev pub ticket_budget : ℕ
ticket_budget = 20

-- The limiter's clock is in nanoseconds. `show_uuid` is the text of a user's id.
unfoldable pub require_ticket_budget :
    (ℕ → Text) → ℕ → ℕ → AuthRateLimiter → AuthRateLimiter × Result (Unit {0})
require_ticket_budget show_uuid user instant limiter =
    let (after, passed) =
      check_at (codes "relay-ticket:" ++ show_uuid user) ticket_budget instant limiter in
    (after, fail_if (not passed) rate_limited)

-- The query: a member of a room that connects or plays, and for a tunnel with two ready preflights.
abbrev pub is_eligible_room : Bool → ℕ → Room → Bool
is_eligible_room tunnel user r =
    is_member user r
    && (is_connecting r.state || is_playing r.state)
    && (not tunnel || r.ready_preflights == 2)

unfoldable pub is_eligible : Bool → ℕ → ℕ → Database → Bool
is_eligible tunnel user id db = elim (lookup id db.rooms) [
  | none ↦ false
  | some r ↦ is_eligible_room tunnel user r
]

abbrev pub or_else_err {ℓ} : {A : Type ℓ} → Option A → AppError → Result A
or_else_err none e = err e
or_else_err (some a) e = ok a

abbrev pub or_internal {ℓ} : {A : Type ℓ} → Outcome RelayTicketError A → Result A
or_internal (err e) = err internal
or_internal (ok a) = ok a

-- Either route after its budget; `RelayTicket::issue` is `issue_scoped` for a probe. `now` is the
-- server's clock in seconds, `nonce` a fresh UUID.
unfoldable pub ticket_body :
    Crypto
    → RelayConfig
    → Bool
    → RelayCapability
    → ℕ
    → ℕ
    → ℕ
    → ℕ
    → Database
    → Result (Text × RelayTicket)
unfolding is_eligible
ticket_body c config tunnel capability user id now nonce db = do
  url ← or_else_err config.relay_url conflict
  secret ← or_else_err config.relay_secret internal
  fail_if (not (is_eligible tunnel user id db)) forbidden
  ticket ← or_internal (
      issue_scoped c secret (c.show_uuid id) (c.show_uuid user) (pos (now + ticket_seconds))
        capability nonce)
  ok (url, ticket)

unfoldable pub budgeted :
    AuthRateLimiter × Result (Unit {0})
    → Result (Text × RelayTicket)
    → AuthRateLimiter × Result (Text × RelayTicket)
budgeted (limiter, spent) answer = (limiter, spent >> answer)

unfoldable pub relay_ticket :
    Crypto
    → RelayConfig
    → ℕ
    → ℕ
    → ℕ
    → ℕ
    → ℕ
    → Database
    → AuthRateLimiter
    → AuthRateLimiter × Result (Text × RelayTicket)
unfolding budgeted
relay_ticket c config user id now nonce instant db limiter =
    budgeted (require_ticket_budget c.show_uuid user instant limiter)
      (ticket_body c config false probe user id now nonce db)

unfoldable pub native_tunnel_ticket :
    Crypto
    → RelayConfig
    → ℕ
    → ℕ
    → ℕ
    → ℕ
    → ℕ
    → Database
    → AuthRateLimiter
    → AuthRateLimiter × Result (Text × RelayTicket)
unfolding budgeted
native_tunnel_ticket c config user id now nonce instant db limiter =
    budgeted (require_ticket_budget c.show_uuid user instant limiter)
      (ticket_body c config true native_tcp_tunnel user id now nonce db)
