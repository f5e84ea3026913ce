-- ===== src/Relay/Rooms.antt =====
-- The shared state of the relay under all its steps: services/relay/src/main.rs.
use open_cade.Prelude.Assoc.{
  contains_key, Assoc, lookup, insert, remove, Values, Values-insert, Values-remove, Values-lookup,
  length-insert-le, length-insert_old, length-remove-le, text_eq_instance,
}
use open_cade.Prelude.{
  length-append, not, ltb, ◌==◌, ◌&&◌, leb, ℕ, [], ◌∷◌, ◌≡◌, ◌≤◌, false, Option, none, some, arith,
  Bool-cases, Option-cases, inl, inr, length,
}
use open_cade.Relay.{
  holds_connection, Message, Channel, Room, RelayPeer, RelayState, channel_capacity, update,
  try_send, cancel, or_default, dismiss, join, send_all, broadcast_message, leave, drop_if_empty,
}
use open_cade.Prelude.Text.{Text}

abbrev pub IsPair : Room → Type 0
IsPair room = length room ≤ 2

-- No room holds more than two peers, and no channel more than 64 messages.
pub record IsBounded (s : RelayState) : Type 0 where
  pub pairs : Values IsPair s.rooms
  pub queues : (i : ℕ) → length (s.channels i).queue ≤ channel_capacity

abbrev pub Queues : (ℕ → Channel) → Type 0
Queues f = (i : ℕ) → length (f i).queue ≤ channel_capacity

pub update-Queues :
    (f : ℕ → Channel) (i : ℕ) (c : Channel)
    → Queues f
    → length c.queue ≤ channel_capacity
    → Queues (update f i c)
unfolding update
update-Queues f i c h q j = ground (arith, h j)

pub try_send-Queues :
    (f : ℕ → Channel) (i : ℕ) (msg : Message) → Queues f → Queues (try_send f i msg).0
unfolding try_send
try_send-Queues f i msg h =
    elim (Bool-cases ((f i).open_for_send && ltb (length (f i).queue) channel_capacity)) [
      | inl fits ↦
          rw fits (update-Queues f i _ h (ground (arith, length-append (f i).queue (msg ∷ []))))
      | inr full ↦ rw full h
    ]

dismiss-Queues : (f : ℕ → Channel) (o : Option RelayPeer) → Queues f → Queues (dismiss f o)
unfolding dismiss cancel
dismiss-Queues f none h = h
dismiss-Queues f (some peer) h =
    try_send-Queues _ peer.connection_id _ (update-Queues f peer.connection_id _ h (h _))

send_all-Queues :
    (room : Room) (msg : Message) (skip_id : ℕ) (f : ℕ → Channel)
    → Queues f
    → Queues (send_all room msg skip_id f).0
unfolding send_all
send_all-Queues [] msg skip_id f h = h
send_all-Queues ((user, peer) ∷ room) msg skip_id f h =
    let sent : ℕ → Channel = (try_send f peer.connection_id msg).0 in
    let right : Queues (send_all room msg skip_id sent).0 =
      send_all-Queues room msg skip_id sent (try_send-Queues f peer.connection_id msg h) in
    elim (Bool-cases (peer.connection_id == skip_id)) [
      | inl own ↦ rw own (send_all-Queues room msg skip_id f h)
      | inr other ↦ rw other right
    ]

or_default-IsPair :
    (key : Text) (rooms : Assoc Text Room)
    → Values IsPair rooms
    → IsPair (or_default (lookup key rooms))
unfolding or_default
or_default-IsPair key rooms h = elim (Option-cases (lookup key rooms)) [
  | inl e ↦ rw e (omega arith)
  | inr (room, e) ↦ rw e (Values-lookup IsPair key rooms h e)
]

-- A third user is turned away, and a user who is there replaces its own entry.
pub join-IsBounded :
    (key user : Text) (id : ℕ) (s : RelayState) → IsBounded s → IsBounded (join key user id s).0
unfolding join
join-IsBounded key user id s h =
    let room : Room = or_default (lookup key s.rooms) in
    let pair : IsPair room = or_default-IsPair key s.rooms h.pairs in
    elim (Bool-cases (leb 2 (length room) && not (contains_key user room))) [
      | inl full ↦
          rw full (record {
            pairs = Values-insert IsPair key room s.rooms pair h.pairs;
            queues = h.queues;
          })
      | inr fits ↦ rw fits (record {
        pairs = Values-insert IsPair key _ s.rooms (stays_pair room fits pair) h.pairs;
        queues = dismiss-Queues s.channels (lookup user room) h.queues;
      })
    ]
  where
    stays_pair :
        (room : Room)
        → (leb 2 (length room) && not (contains_key user room)) ≡ false
        → IsPair room
        → IsPair (insert user (record { connection_id = id }) room)
    stays_pair room fits pair = ground (
      arith,
      length-insert-le user (record { connection_id = id }) room,
      length-insert_old user (record { connection_id = id }) room,
    )

pub leave-IsBounded :
    (key user : Text) (id : ℕ) (s : RelayState) → IsBounded s → IsBounded (leave key user id s)
unfolding leave
leave-IsBounded key user id s h = elim (Option-cases (lookup key s.rooms)) [
  | inl e ↦ rw (e, leave) h
  | inr (room, e) ↦ elim (Bool-cases (holds_connection (lookup user room) id)) [
    | inl mine ↦
        rw (e, leave, mine)
          (record {
            pairs = Values-insert IsPair key _ s.rooms (smaller room e) h.pairs;
            queues = h.queues;
          })
    | inr other ↦ rw (e, leave, other) h
  ]
]
  where
    smaller : (room : Room) → lookup key s.rooms ≡ some room → IsPair (remove user room)
    smaller room e =
        omega (arith, length-remove-le user room, Values-lookup IsPair key s.rooms h.pairs e)

pub drop_if_empty-IsBounded :
    (key : Text) (s : RelayState) → IsBounded s → IsBounded (drop_if_empty key s)
unfolding drop_if_empty
drop_if_empty-IsBounded key s h = elim (Option-cases (lookup key s.rooms)) [
  | inl e ↦ rw (e, drop_if_empty) h
  | inr ([], e) ↦
      rw (e, drop_if_empty)
        (record { pairs = Values-remove IsPair key s.rooms h.pairs; queues = h.queues })
  | inr (peer ∷ room, e) ↦ rw (e, drop_if_empty) h
]

pub broadcast_message-IsBounded :
    (key : Text) (msg : Message) (skip_id : ℕ) (s : RelayState)
    → IsBounded s
    → IsBounded (broadcast_message key msg skip_id s).0
unfolding broadcast_message
broadcast_message-IsBounded key msg skip_id s h = record {
  pairs = h.pairs;
  queues = send_all-Queues _ msg skip_id s.channels h.queues;
}
