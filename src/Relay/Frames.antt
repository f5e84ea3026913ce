-- ===== src/Relay/Frames.antt =====
-- What a frame of one connection does to the others: services/relay/src/main.rs, the loop of
-- `handle_socket`.
use open_cade.Prelude.{
  sym, subst, ltb, ℕ, ◌≡◌, ◌≤◌, refl, true, none, some, arith, Bool-cases, Option-cases, inl, inr,
  length,
}
use open_cade.Relay.Session.{
  on_valid, on_envelope, Session, Event, replaced, expired, ended, failed, frame, Json, or_empty,
  reply, on_text, on_binary, on_event, max_text_bytes, max_binary_bytes, exceeds_rate_limit,
}
use open_cade.Prelude.Text.{Text, text_eq, text_eq_sound}
use open_cade.Protocol.{BorrowedEnvelope, validate, is_supported_version}
use open_cade.Relay.{Message, text, binary, ping, pong, close, RelayState, broadcast_message}

-- A text that is passed on is an envelope of the protocol, of at most 64 KiB, for this room.
pub record IsRelayable (j : Json) (session : Session) (body : Text) : Type 0 where
  pub sized : length body ≤ max_text_bytes
  pub parsed :
      (e : BorrowedEnvelope) × (j.parse_envelope body ≡ some e)
      × (is_supported_version e.version ≡ true)
      × (validate j.is_rfc3339 e ≡ none)
      × (or_empty (j.payload_room_id e.payload) ≡ session.room_id)

-- The three things that a text frame can do: nothing, a reply to its sender, or a broadcast.
pub data TextEffect (j : Json) (session : Session) (body : Text) (s s' : RelayState) : Type 0 where
  ignored : s' ≡ s → TextEffect j session body s s'
  answered : (m : Message) → s' ≡ reply session m s → TextEffect j session body s s'
  relayed :
      IsRelayable j session body
      → s' ≡ (broadcast_message session.room_key (text body) session.id s).0
      → TextEffect j session body s s'

on_valid-TextEffect :
    (j : Json) (session : Session) (body : Text) (e : BorrowedEnvelope) (s : RelayState)
    → length body ≤ max_text_bytes
    → j.parse_envelope body ≡ some e
    → is_supported_version e.version ≡ true
    → validate j.is_rfc3339 e ≡ none
    → TextEffect j session body s (on_valid j session body e s)
unfolding on_valid
on_valid-TextEffect j session body e s sized parsed supported valid =
    let same_room = text_eq (or_empty (j.payload_room_id e.payload)) session.room_id in
    elim (Bool-cases same_room) [
      | inl here ↦ rw here (
          relayed
            (record {
              sized = sized;
              parsed = (e, parsed, supported, valid, text_eq_sound _ _ here);
            })
            refl)
      | inr elsewhere ↦ rw elsewhere (ignored refl)
    ]

on_envelope-TextEffect :
    (j : Json) (session : Session) (body : Text) (e : BorrowedEnvelope) (s : RelayState)
    → length body ≤ max_text_bytes
    → j.parse_envelope body ≡ some e
    → TextEffect j session body s (on_envelope j session body e s)
unfolding on_envelope
on_envelope-TextEffect j session body e s sized parsed =
    elim (Bool-cases (is_supported_version e.version)) [
      | inr old ↦ rw old (answered _ refl)
      | inl supported ↦ elim (Option-cases (validate j.is_rfc3339 e)) [
        | inr (x, invalid) ↦ rw (supported, invalid, on_envelope) (answered _ refl)
        | inl valid ↦
            rw (supported, valid, on_envelope)
              (on_valid-TextEffect j session body e s sized parsed supported valid)
      ]
    ]

-- A text frame inside the rate limit changes nothing, or only answers its sender, or is broadcast; and
-- it is broadcast only if it has at most 64 KiB and is a valid envelope of a supported version whose
-- payload names the session's room.
pub on_text-TextEffect :
    (j : Json) (session : Session) (body : Text) (s : RelayState)
    → TextEffect j session body s (on_text j session body s)
unfolding on_text
on_text-TextEffect j session body s = elim (Bool-cases (ltb max_text_bytes (length body))) [
  | inl large ↦ rw large (ignored refl)
  | inr sized ↦ elim (Option-cases (j.parse_envelope body)) [
    | inl e ↦ rw (sized, e, on_text) (ignored refl)
    | inr (envelope, e) ↦
        rw (sized, e, on_text) (on_envelope-TextEffect j session body envelope s (ground arith) e)
  ]
]

-- What one event of a connection does to the shared state.
pub data Effect (j : Json) (session : Session) (s : RelayState) : RelayState → Type 0 where
  nothing : Effect j session s s
  replies : (m : Message) → Effect j session s (reply session m s)
  passes_on :
      (m : Message) → Effect j session s (broadcast_message session.room_key m session.id s).0

TextEffect-Effect :
    {j : Json} {session : Session} {body : Text} {s s' : RelayState}
    → TextEffect j session body s s'
    → Effect j session s s'
TextEffect-Effect {j} {session} {body} {s} (ignored e) = subst (Effect j session s) (sym e) nothing
TextEffect-Effect {j} {session} {body} {s} (answered m e) =
    subst (Effect j session s) (sym e) (replies m)
TextEffect-Effect {j} {session} {body} {s} (relayed r e) =
    subst (Effect j session s) (sym e) (passes_on (text body))

on_binary-Effect :
    (j : Json) (session : Session) (body : Text) (s : RelayState)
    → Effect j session s (on_binary j session body s)
unfolding on_binary
on_binary-Effect j session body s =
    elim (Bool-cases (ltb (max_binary_bytes session.capability) (length body))) [
      | inl large ↦ rw large nothing
      | inr sized ↦ rw sized (passes_on (binary body))
    ]

-- An event changes nothing, answers its own connection, or broadcasts to its own room.
pub on_event-Effect :
    (j : Json) (session : Session) (now later : ℕ) (e : Event) (s : RelayState)
    → Effect j session s (on_event j session now later e s).1
unfolding on_event
on_event-Effect j session now later replaced s = nothing
on_event-Effect j session now later expired s = nothing
on_event-Effect j session now later ended s = nothing
on_event-Effect j session now later failed s = nothing
on_event-Effect j session now later (frame (text body)) s =
    elim (Bool-cases (exceeds_rate_limit session.window now later (length body)).1) [
      | inl over ↦ rw over nothing
      | inr fine ↦ rw fine (TextEffect-Effect (on_text-TextEffect j session body s))
    ]
on_event-Effect j session now later (frame (binary body)) s =
    elim (Bool-cases (exceeds_rate_limit session.window now later (length body)).1) [
      | inl over ↦ rw over nothing
      | inr fine ↦ rw fine (on_binary-Effect j session body s)
    ]
on_event-Effect j session now later (frame (ping payload)) s = replies (pong payload)
on_event-Effect j session now later (frame (pong payload)) s = nothing
on_event-Effect j session now later (frame close) s = nothing
