-- ===== src/Relay/Isolation.antt =====
-- Who receives what `broadcast_message` sends: services/relay/src/main.rs.
use open_cade.Prelude.Text.{codes, Text}
use open_cade.Prelude.{
  sym, ap, ◌∙◌, ◌==◌, append-cancel_right, ℕ, [], ◌∷◌, ◌++◌, ◌≡◌, ◌≢◌, refl, All, arith, Bool-cases,
  inl, inr,
}
use open_cade.Prelude.Assoc.{lookup, text_eq_instance}
use open_cade.Ticket.{RelayCapability, probe, native_tcp_tunnel, as_str}
use open_cade.Relay.{
  Message, Channel, Room, RelayPeer, RelayState, update, try_send, room_key, or_default, send_all,
  broadcast_message,
}

last_from : ℕ → Text → ℕ
last_from d [] = d
last_from d (x ∷ xs) = last_from x xs

last_from-append :
    (d : ℕ) (xs : Text) (y : ℕ) (ys : Text) → last_from d (xs ++ y ∷ ys) ≡ last_from y ys
unfolding last_from
last_from-append d [] y ys = refl
last_from-append d (x ∷ xs) y ys = last_from-append x xs y ys

-- The names of the two capabilities end in different letters.
last_letters : (room room' : Text) → room_key room probe ≡ room_key room' native_tcp_tunnel → ⊥
unfolding room_key as_str last_from
last_letters room room' e = omega (
  arith,
  ap (last_from 0) e,
  last_from-append 0 room b':' (codes "probe"),
  last_from-append 0 room' b':' (codes "native_tcp_tunnel"),
)

-- One room for each pair of a room name and a capability, whatever the name holds.
pub room_key-injective :
    (room room' : Text) (cap cap' : RelayCapability)
    → room_key room cap ≡ room_key room' cap'
    → (room ≡ room') × (cap ≡ cap')
unfolding room_key as_str
room_key-injective room room' probe probe e = (append-cancel_right room room' _ e, refl)
room_key-injective room room' native_tcp_tunnel native_tcp_tunnel e =
    (append-cancel_right room room' _ e, refl)
room_key-injective room room' probe native_tcp_tunnel e = absurd (last_letters room room' e)
room_key-injective room room' native_tcp_tunnel probe e = absurd (last_letters room' room (sym e))

pub try_send_other :
    (f : ℕ → Channel) (i j : ℕ) (msg : Message) → i ≢ j → (try_send f i msg).0 j ≡ f j
unfolding try_send update
try_send_other f i j msg h = ground arith

try_send_cong :
    (f g : ℕ → Channel) (i : ℕ) (msg : Message)
    → f i ≡ g i
    → (try_send f i msg).0 i ≡ (try_send g i msg).0 i
unfolding try_send update
try_send_cong f g i msg h = ground arith

-- The connection is no peer of the room, or it is the sender.
abbrev pub Spared : ℕ → ℕ → Room → Type 0
Spared i skip_id room = All (λ e. e.1.connection_id ≡ i → i ≡ skip_id) room

pub send_all_spares :
    (room : Room) (msg : Message) (skip_id i : ℕ) (f : ℕ → Channel)
    → Spared i skip_id room
    → (send_all room msg skip_id f).0 i ≡ f i
unfolding send_all
send_all_spares [] msg skip_id i f h = refl
send_all_spares ((user, peer) ∷ room) msg skip_id i f h =
    let sent : ℕ → Channel = (try_send f peer.connection_id msg).0 in
    elim (Bool-cases (peer.connection_id == skip_id)) [
      | inl own ↦ rw own (send_all_spares room msg skip_id i f h.1)
      | inr other ↦
          let apart : peer.connection_id ≢ i = λ e. ground (arith, h.0 e) in
          rw other (
            send_all_spares room msg skip_id i sent h.1
            ∙ try_send_other f peer.connection_id i msg apart)
    ]

absent-Spared :
    (room : Room) (i skip_id : ℕ) → All (λ e. e.1.connection_id ≢ i) room → Spared i skip_id room
absent-Spared [] i skip_id h = tt
absent-Spared (e ∷ room) i skip_id h = ((λ q. absurd (h.0 q)), absent-Spared room i skip_id h.1)

-- A peer whose connection stands once in the room, and is not the sender's, finds its channel after
-- the broadcast as its own `try_send` leaves it, whatever the channels of the other peers do.
pub send_all_delivers :
    (before after : Room) (user : Text) (peer : RelayPeer) (msg : Message) (skip_id : ℕ)
    (f : ℕ → Channel)
    → All (λ e. e.1.connection_id ≢ peer.connection_id) before
    → All (λ e. e.1.connection_id ≢ peer.connection_id) after
    → peer.connection_id ≢ skip_id
    → (send_all (before ++ (user, peer) ∷ after) msg skip_id f).0 peer.connection_id
      ≡ (try_send f peer.connection_id msg).0 peer.connection_id
unfolding send_all
send_all_delivers [] after user peer msg skip_id f hb ha h =
    elim (Bool-cases (peer.connection_id == skip_id)) [
      | inl own ↦ absurd (ground arith)
      | inr other ↦ rw other (
          send_all_spares after msg skip_id peer.connection_id _
            (absent-Spared after peer.connection_id skip_id ha))
    ]
send_all_delivers ((u, p) ∷ before) after user peer msg skip_id f hb ha h =
    let sent : ℕ → Channel = (try_send f p.connection_id msg).0 in
    elim (Bool-cases (p.connection_id == skip_id)) [
      | inl own ↦ rw own (send_all_delivers before after user peer msg skip_id f hb.1 ha h)
      | inr other ↦ rw other (
          send_all_delivers before after user peer msg skip_id sent hb.1 ha h
          ∙ try_send_cong sent f peer.connection_id msg
              (try_send_other f p.connection_id peer.connection_id msg hb.0))
    ]

-- A broadcast changes no channel of the sender or of a connection outside the room.
pub broadcast_message_spares :
    (key : Text) (msg : Message) (skip_id i : ℕ) (s : RelayState)
    → Spared i skip_id (or_default (lookup key s.rooms))
    → (broadcast_message key msg skip_id s).0.channels i ≡ s.channels i
unfolding broadcast_message
broadcast_message_spares key msg skip_id i s h =
    send_all_spares (or_default (lookup key s.rooms)) msg skip_id i s.channels h
