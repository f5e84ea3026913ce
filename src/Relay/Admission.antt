-- ===== src/Relay/Admission.antt =====
-- A ticket opens at most one connection: services/relay/src/main.rs, `relay_ws_handler` and
-- `spawn_ticket_cleanup`.
use open_cade.Prelude.{
  ==_iff, ap, ◌==◌, ◌-◌, ◌^◌, if◌then◌else◌, ==_refl, ◌∙◌, min, ℕ, List, [], ◌∷◌, ◌≡◌, ◌≢◌, ◌⊎◌,
  inl, inr, refl, true, not, Option, none, some, All, arith, Bool-cases,
}
use open_cade.Relay.{is_ok, admit, RelayState, upgraded, ticket_cleanup, relay_ws_handler}
use open_cade.Prelude.Int.{pos, ℤ, ltb_ℤ, ◌≤ℤ◌, ◌<ℤ◌}
use open_cade.Prelude.Assoc.{lookup, lookup-insert, lookup-retain, nat_eq}
use open_cade.Prelude.Text.{Text}
use open_cade.Ticket.{RelayTicket, Crypto, Result, ok, err, verify}
use open_cade.Ticket.Verify.{verify-unexpired}

-- The steps that touch the record of used tickets.
pub data TicketStep : Type 0 where
  presents : Option ℕ → RelayTicket → TicketStep
  cleans : ℤ → TicketStep

unfoldable pub after : Crypto → Text → RelayState → TicketStep → RelayState
after c secret s (presents clock t) = (relay_ws_handler c secret clock t s).0
after c secret s (cleans now) = ticket_cleanup now s

unfoldable pub run : Crypto → Text → RelayState → List TicketStep → RelayState
run c secret s [] = s
run c secret s (a ∷ as') = run c secret (after c secret s a) as'

-- Between two presentations of `t`: the clean-up reads no clock past `now`, and a ticket that
-- verifies under the nonce of `t` has its expiry.
abbrev pub Between : Crypto → Text → RelayTicket → ℤ → TicketStep → Type 0
Between c secret t now (presents clock u) =
    (m : ℤ) → verify c u secret m ≡ ok tt → u.nonce ≡ t.nonce → u.expires_at ≡ t.expires_at
Between c secret t now (cleans m) = m ≤ℤ now

-- The nonce is on record, or the ticket has run out.
abbrev Spent : RelayTicket → ℤ → RelayState → Type 0
Spent t now s = (lookup t.nonce s.used_tickets ≡ some t.expires_at) ⊎ (t.expires_at <ℤ now)

ticket_cleanup-Spent :
    (t : RelayTicket) (now m : ℤ) (s : RelayState)
    → m ≤ℤ now
    → Spent t now s
    → Spent t now (ticket_cleanup m s)
unfolding ticket_cleanup
ticket_cleanup-Spent t now m s h (inr over) = inr over
ticket_cleanup-Spent t now m s h (inl used) = elim (Bool-cases (ltb_ℤ t.expires_at m)) [
  | inl dropped ↦ inr (ground arith)
  | inr kept ↦
      inl (lookup-retain (λ e. not (ltb_ℤ e m)) t.nonce s.used_tickets t.expires_at used (rw kept))
]

is_ok-eq : (r : Result (Unit {0})) → is_ok r ≡ true → r ≡ ok tt
is_ok-eq (ok u) h = refl
is_ok-eq (err e) h = cc

admit-Spent :
    (c : Crypto) (secret : Text) (t u : RelayTicket) (now m : ℤ) (s : RelayState)
    → (verify c u secret m ≡ ok tt → u.nonce ≡ t.nonce → u.expires_at ≡ t.expires_at)
    → Spent t now s
    → Spent t now (admit c secret m u s).0
unfolding admit
admit-Spent c secret t u now m s h (inr over) = inr over
admit-Spent c secret t u now m s h (inl used) = elim (Bool-cases (is_ok (verify c u secret m))) [
  | inr bad ↦ rw bad (inl used)
  | inl good ↦
      rw good (
        inl
          (lookup-insert u.nonce t.nonce u.expires_at s.used_tickets ∙ same (h (is_ok-eq _ good))))
]
  where
    same :
        (u.nonce ≡ t.nonce → u.expires_at ≡ t.expires_at)
        → (if u.nonce == t.nonce then some u.expires_at else lookup t.nonce s.used_tickets)
          ≡ some t.expires_at
    same q = elim (Bool-cases (u.nonce == t.nonce)) [
      | inl hit ↦ rw hit (ap some (q ((==_iff _ _).0 hit)))
      | inr miss ↦ rw miss used
    ]

relay_ws_handler-Spent :
    (c : Crypto) (secret : Text) (t u : RelayTicket) (now : ℤ) (clock : Option ℕ) (s : RelayState)
    → Between c secret t now (presents clock u)
    → Spent t now s
    → Spent t now (relay_ws_handler c secret clock u s).0
unfolding relay_ws_handler
relay_ws_handler-Spent c secret t u now none s h p = p
relay_ws_handler-Spent c secret t u now (some secs) s h p = admit-Spent c secret t u now _ s (h _) p

run-Spent :
    (c : Crypto) (secret : Text) (t : RelayTicket) (now : ℤ) (s : RelayState)
    (as' : List TicketStep)
    → All (Between c secret t now) as'
    → Spent t now s
    → Spent t now (run c secret s as')
unfolding run after
run-Spent c secret t now s [] h p = p
run-Spent c secret t now s (presents clock u ∷ as') h p =
    run-Spent c secret t now (after c secret s (presents clock u)) as' h.1
      (relay_ws_handler-Spent c secret t u now clock s h.0 p)
run-Spent c secret t now s (cleans m ∷ as') h p =
    run-Spent c secret t now (after c secret s (cleans m)) as' h.1
      (ticket_cleanup-Spent t now m s h.0 p)

admit_spends :
    (c : Crypto) (secret : Text) (now : ℤ) (t u : RelayTicket) (s : RelayState)
    → (admit c secret now t s).1 ≡ upgraded u
    → lookup t.nonce (admit c secret now t s).0.used_tickets ≡ some t.expires_at
unfolding admit
admit_spends c secret now t u s h = elim (Bool-cases (is_ok (verify c t secret now))) [
  | inr bad ↦ absurd (ground arith)
  | inl good ↦
      rw good (lookup-insert t.nonce t.nonce t.expires_at s.used_tickets ∙ rw (==_refl t.nonce))
]

upgraded_spends :
    (c : Crypto) (secret : Text) (clock : Option ℕ) (t u : RelayTicket) (s : RelayState)
    → (relay_ws_handler c secret clock t s).1 ≡ upgraded u
    → lookup t.nonce (relay_ws_handler c secret clock t s).0.used_tickets ≡ some t.expires_at
unfolding relay_ws_handler
upgraded_spends c secret none t u s h = cc
upgraded_spends c secret (some secs) t u s h = admit_spends c secret _ t u s h

admit-not_Spent :
    (c : Crypto) (secret : Text) (now : ℤ) (t u : RelayTicket) (s : RelayState)
    → Spent t now s
    → (admit c secret now t s).1 ≢ upgraded u
unfolding admit
admit-not_Spent c secret now t u s (inl used) h = ground arith
admit-not_Spent c secret now t u s (inr over) h =
    elim (Bool-cases (is_ok (verify c t secret now))) [
      | inr bad ↦ ground arith
      | inl good ↦
          let on_time : now ≤ℤ t.expires_at = verify-unexpired c t secret now (is_ok-eq _ good) in
          omega arith
    ]

-- A ticket opens one connection: after a presentation that was let through, any later one is
-- refused, whatever is presented and cleaned up in between, as long as no clean-up reads a clock
-- past the later presentation's and no other ticket that verifies shares the nonce with another
-- expiry.
pub ticket_once :
    (c : Crypto) (secret : Text) (clock : Option ℕ) (secs : ℕ) (t u v : RelayTicket)
    (s : RelayState) (as' : List TicketStep)
    → (relay_ws_handler c secret clock t s).1 ≡ upgraded u
    → All (Between c secret t (pos (min secs (2 ^ 63 - 1)))) as'
    → (relay_ws_handler c secret
        (some secs)
        t
        (run c secret (relay_ws_handler c secret clock t s).0 as')).1
      ≢ upgraded v
unfolding relay_ws_handler
ticket_once c secret clock secs t u v s as' first between =
    admit-not_Spent c secret (pos (min secs (2 ^ 63 - 1))) t v _ (
      run-Spent c secret t (pos (min secs (2 ^ 63 - 1))) _ as' between
        (inl (upgraded_spends c secret clock t u s first)))
