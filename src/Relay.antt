-- ===== src/Relay.antt =====
-- services/relay/src/main.rs: the relay's shared state and the steps that change it. A step is what
-- the code does under one lock of a map, so a run of the relay is a sequence of steps.
pub mod Session
pub mod Rooms
pub mod Admission
pub mod Isolation
pub mod Rate
pub mod Frames
pub mod Reach
pub mod Safety
pub mod Tests
use open_cade.Prelude.Assoc.{Assoc, insert, remove, lookup, contains_key, text_eq_instance, nat_eq}
use open_cade.Prelude.Int.{ℤ, pos, ltb_ℤ}
use open_cade.Prelude.Text.{Text, codes}
use open_cade.Ticket.{RelayTicket, RelayCapability, Crypto, Result, ok, err, verify, as_str}
use open_cade.Prelude.{
  ℕ, List, [], ◌∷◌, ◌++◌, ◌+◌, ◌-◌, ◌^◌, ◌==◌, Bool, true, false, ◌&&◌, not, Option, none, some,
  ltb, leb, length, retain, if◌then◌else◌, min,
}

-- A WebSocket message. A text frame is the bytes of its text.
pub data Message : Type 0 where
  text binary ping pong : Text → Message
  close : Message

-- `mpsc::channel(64)`, and the `watch` channel that replaces a connection.
abbrev pub channel_capacity : ℕ
channel_capacity = 64

-- The two channels of one connection. `open` says that the send task still holds the receiver.
pub record Channel : Type 0 where
  pub queue : List Message
  pub open_for_send : Bool
  pub cancelled : Bool

abbrev pub fresh_channel : Channel
fresh_channel = record { queue = []; open_for_send = true; cancelled = false }

-- `sender` and `cancel` are handles of the channels of `connection_id`.
pub record RelayPeer : Type 0 where
  pub connection_id : ℕ

abbrev pub Room : Type 0
Room = Assoc Text RelayPeer

pub record RelayState : Type 0 where
  pub rooms : Assoc Text Room
  pub used_tickets : Assoc ℕ ℤ
  pub channels : ℕ → Channel

unfoldable pub update : (ℕ → Channel) → ℕ → Channel → ℕ → Channel
update f i c j = if i == j then c else f j

-- `Sender::try_send`: it fails on a full or closed channel.
unfoldable pub try_send : (ℕ → Channel) → ℕ → Message → (ℕ → Channel) × Bool
try_send f i msg =
    let c = f i in
    if c.open_for_send && ltb (length c.queue) channel_capacity
    then (update f i (record c { queue = c.queue ++ msg ∷ [] }), true)
    else (f, false)

-- `cancel.send(())`
unfoldable pub cancel : (ℕ → Channel) → ℕ → ℕ → Channel
cancel f i = update f i (record (f i) { cancelled = true })

-- A new connection makes its channels.
unfoldable pub connect : ℕ → RelayState → RelayState
connect id s = record s { channels = update s.channels id fresh_channel }

pub next_queue : List Message → List Message
next_queue [] = []
next_queue (m ∷ ms) = ms

-- `rx.recv()` in the send task takes the oldest message.
unfoldable pub receive : ℕ → RelayState → RelayState
unfolding next_queue
receive id s = record s {
  channels =
      update s.channels id (record (s.channels id) { queue = next_queue (s.channels id).queue });
}

-- The send task ends, on a failed write or by `send_task.abort()`, and drops the receiver.
unfoldable pub stop_sending : ℕ → RelayState → RelayState
stop_sending id s = record s {
  channels = update s.channels id (record (s.channels id) { queue = []; open_for_send = false });
}

-- The task behind `spawn_ticket_cleanup`, one tick.
unfoldable pub ticket_cleanup : ℤ → RelayState → RelayState
ticket_cleanup now s = record s { used_tickets = retain (λ t. not (ltb_ℤ t.1 now)) s.used_tickets }

-- The reading of the clock in seconds: `none` before the epoch, and capped at `i64::MAX`.
unfoldable pub clock_seconds : Option ℕ → Option ℤ
clock_seconds none = none
clock_seconds (some secs) = some (pos (min secs (2 ^ 63 - 1)))

pub data Upgrade : Type 0 where
  clock_unavailable unauthorized already_used : Upgrade
  upgraded : RelayTicket → Upgrade

abbrev pub is_ok {ℓ} : {A : Type ℓ} → Result A → Bool
is_ok (ok a) = true
is_ok (err e) = false

abbrev pub is_some {ℓ} : {A : Type ℓ} → Option A → Bool
is_some (some a) = true
is_some none = false

-- `relay_ws_handler` once the clock is read. The nonce is recorded, also over an earlier entry,
-- before the answer.
unfoldable pub admit : Crypto → Text → ℤ → RelayTicket → RelayState → RelayState × Upgrade
admit c secret now ticket s =
    if is_ok (verify c ticket secret now)
    then (
      record s { used_tickets = insert ticket.nonce ticket.expires_at s.used_tickets },
      if is_some (lookup ticket.nonce s.used_tickets) then already_used else upgraded ticket,
    )
    else (s, unauthorized)

unfoldable pub relay_ws_handler :
    Crypto → Text → Option ℕ → RelayTicket → RelayState → RelayState × Upgrade
unfolding clock_seconds admit
relay_ws_handler c secret clock ticket s = elim (clock_seconds clock) [
  | none ↦ (s, clock_unavailable)
  | some now ↦ admit c secret now ticket s
]

-- `format!("{room_id}:{}", capability.as_str())`
unfoldable pub room_key : Text → RelayCapability → Text
room_key room_id capability = room_id ++ b':' ∷ as_str capability

unfoldable pub or_default : Option Room → Room
or_default none = []
or_default (some room) = room

-- A replaced connection is cancelled and told to close.
unfoldable pub dismiss : (ℕ → Channel) → Option RelayPeer → ℕ → Channel
dismiss f none = f
dismiss f (some previous) =
    (try_send (cancel f previous.connection_id) previous.connection_id close).0

-- The block of `handle_socket` that enters the room, under the lock of the room's entry; `false` is
-- the early return from a full room. `id` is the fresh connection's.
unfoldable pub join : Text → Text → ℕ → RelayState → RelayState × Bool
unfolding or_default dismiss
join key user_id id s =
    let room = or_default (lookup key s.rooms) in
    if leb 2 (length room) && not (contains_key user_id room)
    then (record s { rooms = insert key room s.rooms }, false)
    else (
      record s {
        rooms = insert key (insert user_id (record { connection_id = id }) room) s.rooms;
        channels = dismiss s.channels (lookup user_id room);
      },
      true,
    )

-- The loop of `broadcast_message` over a room.
unfoldable pub send_all : Room → Message → ℕ → (ℕ → Channel) → (ℕ → Channel) × ℕ
send_all [] msg skip_id f = (f, 0)
send_all ((user, peer) ∷ room) msg skip_id f =
    let (f', delivered) = try_send f peer.connection_id msg in
    let skipped = send_all room msg skip_id f in
    let (f'', sent) = send_all room msg skip_id f' in
    if peer.connection_id == skip_id then skipped else (f'', if delivered then sent + 1 else sent)

unfoldable pub broadcast_message : Text → Message → ℕ → RelayState → RelayState × ℕ
unfolding send_all or_default
broadcast_message key msg skip_id s =
    let (f, sent) = send_all (or_default (lookup key s.rooms)) msg skip_id s.channels in
    (record s { channels = f }, sent)

unfoldable pub holds_connection : Option RelayPeer → ℕ → Bool
holds_connection none id = false
holds_connection (some peer) id = peer.connection_id == id

-- The first part of the clean-up at the end of `handle_socket`: a user who reconnected stays.
unfoldable pub leave : Text → Text → ℕ → RelayState → RelayState
unfolding holds_connection
leave key user_id id s = elim (lookup key s.rooms) [
  | none ↦ s
  | some room ↦
      if holds_connection (lookup user_id room) id
      then record s { rooms = insert key (remove user_id room) s.rooms }
      else s
]

-- `rooms.remove_if(&room_key, |_, room| room.is_empty())`
unfoldable pub drop_if_empty : Text → RelayState → RelayState
drop_if_empty key s = elim (lookup key s.rooms) [
  | some [] ↦ record s { rooms = remove key s.rooms }
  | _ ↦ s
]
