-- ===== src/Rooms/Admitted.antt =====
-- The server's tickets at the relay: `relay_ticket` and `native_tunnel_ticket` of
-- apps/server/src/routes/rooms.rs against `relay_ws_handler` of services/relay/src/main.rs.
pub mod Tests
use open_cade.Prelude.{
  ℕ, ◌+◌, ◌^◌, ◌-◌, ◌≤◌, ◌<◌, ◌≡◌, ◌∙◌, sym, refl, ap, min, Bool, true, false, not, Option, none,
  some, arith,
}
use open_cade.Prelude.Assoc.{lookup, nat_eq}
use open_cade.Prelude.Int.{pos}
use open_cade.Prelude.Outcome.{Outcome, through_first, fail_if-ok}
use open_cade.Prelude.Text.{Text}
use open_cade.Ticket.{
  Crypto, RelayTicket, RelayTicketError, RelayCapability, probe, native_tcp_tunnel, issue_scoped,
  verify,
}
use open_cade.Ticket.Verify.{i64_limit}
use open_cade.Ticket.Issued.{verify-issue_scoped}
use open_cade.Relay.{RelayState, relay_ws_handler, admit, clock_seconds, upgraded}
use open_cade.Limiter.{AuthRateLimiter}
use open_cade.Rooms.{AppError, Result, ok, err, fail_if, forbidden, conflict, internal, Database}
use open_cade.Rooms.Tickets.{
  RelayConfig, ticket_seconds, require_ticket_budget, is_eligible, or_else_err, or_internal,
  ticket_body, budgeted, relay_ticket, native_tunnel_ticket,
}

or_internal-ok :
    (o : Outcome RelayTicketError RelayTicket) {t : RelayTicket} → or_internal o ≡ ok t → o ≡ ok t
or_internal-ok (err e) h = cc
or_internal-ok (ok t) h = cc

or_else_err-ok : (o : Option Text) (e : AppError) {s : Text} → or_else_err o e ≡ ok s → o ≡ some s
or_else_err-ok none e h = cc
or_else_err-ok (some s) e h = cc

record IsIssued (c : Crypto) (config : RelayConfig) (tunnel : Bool) (capability : RelayCapability)
    (user id now nonce : ℕ) (db : Database) (t : RelayTicket) : Type 0 where
  secret : Text
  configured : config.relay_secret ≡ some secret
  eligible : is_eligible tunnel user id db ≡ true
  issued :
      issue_scoped c secret
        (c.show_uuid id)
        (c.show_uuid user)
        (pos (now + ticket_seconds))
        capability
        nonce
      ≡ ok t

ticket_body-IsIssued :
    (c : Crypto) (config : RelayConfig) (tunnel : Bool) (capability : RelayCapability)
    (user id now nonce : ℕ) (db : Database) (url : Text) (t : RelayTicket)
    → ticket_body c config tunnel capability user id now nonce db ≡ ok (url, t)
    → IsIssued c config tunnel capability user id now nonce db t
unfolding ticket_body
ticket_body-IsIssued c config tunnel capability user id now nonce db url t e =
    let (u, e₁, h₁) = through_first (or_else_err config.relay_url conflict) _ e in
    let (secret, e₂, h₂) = through_first (or_else_err config.relay_secret internal) _ h₁ in
    let (_, e₃, h₃) =
      through_first (fail_if (not (is_eligible tunnel user id db)) forbidden) _ h₂ in
    let (t', e₄, h₄) =
      through_first
        (or_internal (
          issue_scoped c secret (c.show_uuid id) (c.show_uuid user) (pos (now + ticket_seconds))
            capability nonce))
        _ h₃ in
    let same : t' ≡ t = cc h₄ in
    record {
      secret = secret;
      configured = or_else_err-ok config.relay_secret internal e₂;
      eligible = ground (arith, fail_if-ok _ _ e₃);
      issued = or_internal-ok _ e₄ ∙ ap (λ (v : RelayTicket). ok v) same;
    }

-- The relay's clock is at most three minutes behind the server's at the issue, and not after the
-- expiry.
pub record OnTime (now secs : ℕ) : Type 0 where
  pub not_early : now ≤ secs + 180
  pub not_late : secs ≤ now + ticket_seconds
  pub in_range : now + ticket_seconds < i64_limit

issued-upgraded :
    (c : Crypto) (config : RelayConfig) (tunnel : Bool) (capability : RelayCapability)
    (user id now nonce : ℕ) (db : Database) (secret : Text) (t : RelayTicket) (secs : ℕ)
    (s : RelayState)
    → IsIssued c config tunnel capability user id now nonce db t
    → config.relay_secret ≡ some secret
    → OnTime now secs
    → lookup t.nonce s.used_tickets ≡ none
    → (relay_ws_handler c secret (some secs) t s).1 ≡ upgraded t
unfolding relay_ws_handler clock_seconds admit
issued-upgraded c config tunnel capability user id now nonce db secret t secs s i configured on_time
      unused =
    let same : i.secret ≡ secret = cc (i.configured, configured) in
    let clock : min secs (2 ^ 63 - 1) ≡ secs = omega (arith, on_time.not_late, on_time.in_range) in
    let window =
      verify-issue_scoped c i.secret (c.show_uuid id) (c.show_uuid user)
        (pos (now + ticket_seconds)) capability nonce t i.issued (pos secs)
        (omega arith, omega (arith, on_time.in_range))
        (omega arith, omega (arith, on_time.not_late, on_time.in_range)) (omega arith) in
    let good : verify c t i.secret (pos secs) ≡ ok tt =
      window.1 (omega (arith, on_time.not_late), omega (arith, on_time.not_early)) in
    rw clock (rw (sym same) (rw good (rw unused refl)))

budgeted-ok :
    (spent : AuthRateLimiter × Result (Unit {0})) (answer : Result (Text × RelayTicket))
    {given : Text × RelayTicket}
    → (budgeted spent answer).1 ≡ ok given
    → answer ≡ ok given
unfolding budgeted
budgeted-ok (limiter, ok u) answer e = e
budgeted-ok (limiter, err r) answer e = cc

-- A relay ticket is handed out only to a member of a room that connects or plays. A relay with the
-- server's secret lets its holder in if its clock is at most 180 seconds behind the server's at
-- the issue and not past the 120 seconds of the ticket, if the expiry fits `i64`, and if the nonce
-- was not used there.
pub relay_ticket-upgraded :
    (c : Crypto) (config : RelayConfig) (user id now nonce instant : ℕ) (db : Database)
    (limiter : AuthRateLimiter) (secret url : Text) (t : RelayTicket) (secs : ℕ) (s : RelayState)
    → (relay_ticket c config user id now nonce instant db limiter).1 ≡ ok (url, t)
    → config.relay_secret ≡ some secret
    → OnTime now secs
    → lookup t.nonce s.used_tickets ≡ none
    → (is_eligible false user id db ≡ true)
      × ((relay_ws_handler c secret (some secs) t s).1 ≡ upgraded t)
unfolding relay_ticket
relay_ticket-upgraded c config user id now nonce instant db limiter secret url t secs s e configured
      on_time unused =
    let body = budgeted-ok (require_ticket_budget c.show_uuid user instant limiter) _ e in
    let i = ticket_body-IsIssued c config false probe user id now nonce db url t body in
    (
      i.eligible,
      issued-upgraded c config false probe user id now nonce db secret t secs s i configured on_time
          unused,
    )

-- A tunnel ticket is handed out only to a member of a room that connects or plays with two ready
-- preflights. A relay with the server's secret lets its holder in if its clock is at most 180
-- seconds behind the server's at the issue and not past the 120 seconds of the ticket, if the
-- expiry fits `i64`, and if the nonce was not used there.
pub native_tunnel_ticket-upgraded :
    (c : Crypto) (config : RelayConfig) (user id now nonce instant : ℕ) (db : Database)
    (limiter : AuthRateLimiter) (secret url : Text) (t : RelayTicket) (secs : ℕ) (s : RelayState)
    → (native_tunnel_ticket c config user id now nonce instant db limiter).1 ≡ ok (url, t)
    → config.relay_secret ≡ some secret
    → OnTime now secs
    → lookup t.nonce s.used_tickets ≡ none
    → (is_eligible true user id db ≡ true)
      × ((relay_ws_handler c secret (some secs) t s).1 ≡ upgraded t)
unfolding native_tunnel_ticket
native_tunnel_ticket-upgraded c config user id now nonce instant db limiter secret url t secs s e
      configured on_time unused =
    let body = budgeted-ok (require_ticket_budget c.show_uuid user instant limiter) _ e in
    let i = ticket_body-IsIssued c config true native_tcp_tunnel user id now nonce db url t body in
    (
      i.eligible,
      issued-upgraded c config true native_tcp_tunnel user id now nonce db secret t secs s i
          configured on_time unused,
    )
