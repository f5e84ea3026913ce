-- ===== src/Relay/Safety.antt =====
-- What holds in every state that the relay reaches: services/relay/src/main.rs.
use open_cade.Prelude.{
  ◌∙◌, sym, subst, if◌then◌else◌, not, ◌&&◌, leb, ℕ, List, [], ◌∷◌, ◌≡◌, ◌≢◌, ◌≤◌, refl, Option,
  none, some, arith, Bool-cases, Option-cases, inl, inr, length,
}
use open_cade.Prelude.Assoc.{
  contains_key, lookup, insert, remove, lookup-insert, lookup-remove, text_eq_instance, Values,
  Values-insert, Values-remove,
}
use open_cade.Prelude.Text.{Text, text_eq, text_eq_sound, text_eq_iff}
use open_cade.Ticket.{RelayTicket, Crypto}
use open_cade.Relay.{
  Message, Channel, Room, RelayPeer, RelayState, connect, receive, stop_sending, ticket_cleanup,
  relay_ws_handler, or_default, dismiss, join, broadcast_message, leave, drop_if_empty, next_queue,
  holds_connection,
}
use open_cade.Relay.Session.{Session, Event, Json, reply, on_event}
use open_cade.Relay.Frames.{Effect, nothing, replies, passes_on, on_event-Effect}
use open_cade.Relay.Isolation.{Spared, broadcast_message_spares, room_key-injective, try_send_other}
use open_cade.Relay.Rooms.{
  IsBounded, update-Queues, try_send-Queues, join-IsBounded, leave-IsBounded,
  drop_if_empty-IsBounded, broadcast_message-IsBounded,
}
use open_cade.Relay.Reach.{
  Grant, key_of, IsOf, Step, cleans, upgrades, connects, joins, handles, leaves, drops, receives,
  stops, Reach, here, next, start,
}

relay_ws_handler_keeps :
    (c : Crypto) (secret : Text) (clock : Option ℕ) (t : RelayTicket) (s : RelayState)
    → ((relay_ws_handler c secret clock t s).0.rooms ≡ s.rooms)
      × ((relay_ws_handler c secret clock t s).0.channels ≡ s.channels)
unfolding relay_ws_handler
relay_ws_handler_keeps c secret none t s = (refl, refl)
relay_ws_handler_keeps c secret (some secs) t s = ground arith

next_queue-le : (q : List Message) → length (next_queue q) ≤ length q
unfolding next_queue
next_queue-le [] = omega arith
next_queue-le (m ∷ q) = omega arith

-- A peer of a room came with a ticket for that room and capability.
abbrev pub Holds : (ℕ → Grant) → Text → RelayPeer → Type 0
Holds grant key peer = key_of (grant peer.connection_id) ≡ key

abbrev pub IsOwned : (ℕ → Grant) → RelayState → Type 0
IsOwned grant s =
    (key : Text) (room : Room) → lookup key s.rooms ≡ some room → Values (Holds grant key) room

insert-IsOwned :
    (grant : ℕ → Grant) (s : RelayState) (key : Text) (new : Room) (f : ℕ → Channel)
    → Values (Holds grant key) new
    → IsOwned grant s
    → IsOwned grant (record s { rooms = insert key new s.rooms; channels = f })
insert-IsOwned grant s key new f fits h k room e =
    let split : (if text_eq key k then some new else lookup k s.rooms) ≡ some room =
      sym (lookup-insert key k new s.rooms) ∙ e in
    elim (Bool-cases (text_eq key k)) [
      | inl hit ↦
          let there : Values (Holds grant k) new =
            subst (λ q. Values (Holds grant q) new) (text_eq_sound key k hit) fits in
          let same : new ≡ room = ground arith in subst (Values (Holds grant k)) same there
      | inr miss ↦ h k room (rw miss at split)
    ]

or_default-Holds :
    (grant : ℕ → Grant) (s : RelayState) (key : Text)
    → IsOwned grant s
    → Values (Holds grant key) (or_default (lookup key s.rooms))
unfolding or_default
or_default-Holds grant s key h = elim (Option-cases (lookup key s.rooms)) [
  | inl e ↦ rw e tt
  | inr (room, e) ↦ rw e (h key room e)
]

join-IsOwned :
    (grant : ℕ → Grant) (i : ℕ) (s : RelayState)
    → IsOwned grant s
    → IsOwned grant (join (key_of (grant i)) (grant i).user_id i s).0
unfolding join
join-IsOwned grant i s h =
    let key : Text = key_of (grant i) in
    let room : Room = or_default (lookup key s.rooms) in
    let held : Values (Holds grant key) room = or_default-Holds grant s key h in
    elim (Bool-cases (leb 2 (length room) && not (contains_key (grant i).user_id room))) [
      | inl full ↦ rw full (insert-IsOwned grant s key room s.channels held h)
      | inr fits ↦ rw fits (
          insert-IsOwned grant s key _ (dismiss s.channels (lookup (grant i).user_id room))
            (Values-insert (Holds grant key) (grant i).user_id (record { connection_id = i }) room
              refl held)
            h)
    ]

leave-IsOwned :
    (grant : ℕ → Grant) (key user : Text) (i : ℕ) (s : RelayState)
    → IsOwned grant s
    → IsOwned grant (leave key user i s)
unfolding leave
leave-IsOwned grant key user i s h = elim (Option-cases (lookup key s.rooms)) [
  | inl e ↦ rw (e, leave) h
  | inr (room, e) ↦ elim (Bool-cases (holds_connection (lookup user room) i)) [
    | inl mine ↦
        rw (e, leave, mine)
          (insert-IsOwned grant s key _ s.channels
            (Values-remove (Holds grant key) user room (h key room e)) h)
    | inr other ↦ rw (e, leave, other) h
  ]
]

drop_if_empty-IsOwned :
    (grant : ℕ → Grant) (key : Text) (s : RelayState)
    → IsOwned grant s
    → IsOwned grant (drop_if_empty key s)
unfolding drop_if_empty
drop_if_empty-IsOwned grant key s h = elim (Option-cases (lookup key s.rooms)) [
  | inl e ↦ rw (e, drop_if_empty) h
  | inr ([], e) ↦ rw (e, drop_if_empty) (λ k room q. h k room (kept k room q))
  | inr (peer ∷ room, e) ↦ rw (e, drop_if_empty) h
]
  where
    kept :
        (k : Text) (room : Room)
        → lookup k (remove key s.rooms) ≡ some room
        → lookup k s.rooms ≡ some room
    kept k room q =
        let split : (if text_eq key k then none else lookup k s.rooms) ≡ some room =
          sym (lookup-remove key k s.rooms) ∙ q in
        elim (Bool-cases (text_eq key k)) [ inl hit ↦ ground arith | inr miss ↦ rw miss at split ]

-- A room whose peers all hold its key spares a connection with another key.
stranger-Spared :
    (grant : ℕ → Grant) (key : Text) (i skip_id : ℕ) (room : Room)
    → Values (Holds grant key) room
    → key_of (grant i) ≢ key
    → Spared i skip_id room
stranger-Spared grant key i skip_id [] h apart = tt
stranger-Spared grant key i skip_id (e ∷ room) h apart = (
  (λ q. absurd (apart (subst (λ n. key_of (grant n) ≡ key) q h.0))),
  stranger-Spared grant key i skip_id room h.1 apart,
)

Effect-spares :
    {j : Json} {session : Session} {s s' : RelayState} (i : ℕ)
    → Effect j session s s'
    → i ≢ session.id
    → Spared i session.id (or_default (lookup session.room_key s.rooms))
    → s'.channels i ≡ s.channels i
unfolding reply
Effect-spares i nothing other h = refl
Effect-spares {session = session} {s = s} i (replies m) other h =
    try_send_other s.channels session.id i m (λ e. other (sym e))
Effect-spares {session = session} {s = s} i (passes_on m) other h =
    broadcast_message_spares session.room_key m session.id i s h

module _ (c : Crypto) (secret : Text) (j : Json) (grant : ℕ → Grant) where
  Effect-IsBounded :
      {session : Session} {s s' : RelayState} → Effect j session s s' → IsBounded s → IsBounded s'
  unfolding reply
  Effect-IsBounded nothing h = h
  Effect-IsBounded {session} {s} (replies m) h = record {
    pairs = h.pairs;
    queues = try_send-Queues s.channels session.id m h.queues;
  }
  Effect-IsBounded {session} {s} (passes_on m) h =
      broadcast_message-IsBounded session.room_key m session.id s h

  Step-IsBounded : {s s' : RelayState} → Step c secret j grant s s' → IsBounded s → IsBounded s'
  unfolding ticket_cleanup connect receive stop_sending
  Step-IsBounded (cleans now s) h = record { pairs = h.pairs; queues = h.queues }
  Step-IsBounded (upgrades clock t s) h =
      let (rooms, channels) = relay_ws_handler_keeps c secret clock t s in
      record { pairs = rw rooms h.pairs; queues = rw channels h.queues }
  Step-IsBounded (connects i s) h = record {
    pairs = h.pairs;
    queues = update-Queues s.channels i _ h.queues (omega arith);
  }
  Step-IsBounded (joins i s) h = join-IsBounded _ _ i s h
  Step-IsBounded (handles session now later e s o) h =
      Effect-IsBounded (on_event-Effect j session now later e s) h
  Step-IsBounded (leaves i s) h = leave-IsBounded _ _ i s h
  Step-IsBounded (drops key s) h = drop_if_empty-IsBounded key s h
  Step-IsBounded (receives i s) h = record {
    pairs = h.pairs;
    queues =
        update-Queues s.channels i _ h.queues
          (omega (arith, next_queue-le (s.channels i).queue, h.queues i));
  }
  Step-IsBounded (stops i s) h = record {
    pairs = h.pairs;
    queues = update-Queues s.channels i _ h.queues (omega arith);
  }

  Reach-IsBounded : {s s' : RelayState} → IsBounded s → Reach c secret j grant s s' → IsBounded s'
  Reach-IsBounded h here = h
  Reach-IsBounded h (next r st) = Step-IsBounded st (Reach-IsBounded h r)

  start-IsBounded : IsBounded start
  start-IsBounded = record { pairs = tt; queues = λ i. omega arith }

  -- In every state that the relay reaches, in any interleaving of its connections, no room holds
  -- more than two peers and no channel more than 64 messages.
  pub relay-IsBounded : {s : RelayState} → Reach c secret j grant start s → IsBounded s
  relay-IsBounded r = Reach-IsBounded start-IsBounded r

  Effect-IsOwned :
      {session : Session} {s s' : RelayState}
      → Effect j session s s'
      → IsOwned grant s
      → IsOwned grant s'
  unfolding reply broadcast_message
  Effect-IsOwned nothing h = h
  Effect-IsOwned (replies m) h = h
  Effect-IsOwned (passes_on m) h = h

  Step-IsOwned :
      {s s' : RelayState} → Step c secret j grant s s' → IsOwned grant s → IsOwned grant s'
  unfolding ticket_cleanup connect receive stop_sending
  Step-IsOwned (cleans now s) h = h
  Step-IsOwned (upgrades clock t s) h = rw (relay_ws_handler_keeps c secret clock t s).0 h
  Step-IsOwned (connects i s) h = h
  Step-IsOwned (joins i s) h = join-IsOwned grant i s h
  Step-IsOwned (handles session now later e s o) h =
      Effect-IsOwned (on_event-Effect j session now later e s) h
  Step-IsOwned (leaves i s) h = leave-IsOwned grant _ _ i s h
  Step-IsOwned (drops key s) h = drop_if_empty-IsOwned grant key s h
  Step-IsOwned (receives i s) h = h
  Step-IsOwned (stops i s) h = h

  Reach-IsOwned : {s : RelayState} → Reach c secret j grant start s → IsOwned grant s
  unfolding lookup
  Reach-IsOwned here = λ k room e. cc
  Reach-IsOwned (next r st) = Step-IsOwned st (Reach-IsOwned r)

  -- No frame reaches a stranger: in any state that the relay reaches, an event of one connection
  -- changes the channel of another only if the tickets of both name one room and one capability.
  pub on_event_isolated :
      {s : RelayState} (session : Session) (now later : ℕ) (e : Event) (i : ℕ)
      → Reach c secret j grant start s
      → IsOf (grant session.id) session
      → i ≢ session.id
      → (on_event j session now later e s).1.channels i ≢ s.channels i
      → ((grant i).room_id ≡ session.room_id) × ((grant i).capability ≡ session.capability)
  on_event_isolated {s} session now later e i r o other changed =
      elim (Bool-cases (text_eq (key_of (grant i)) session.room_key)) [
        | inl same ↦
            let keys = text_eq_sound _ _ same ∙ o.same_key in
            let (rooms, caps) = room_key-injective _ _ _ _ keys in
            (rooms ∙ sym o.same_room, caps ∙ sym o.same_capability)
        | inr apart ↦ absurd (
            changed (
              Effect-spares i (on_event-Effect j session now later e s) other (
                stranger-Spared grant session.room_key i session.id _
                  (or_default-Holds grant s session.room_key (Reach-IsOwned r))
                  (λ q. cc ((text_eq_iff (key_of (grant i)) session.room_key).1 q, apart)))))
      ]
