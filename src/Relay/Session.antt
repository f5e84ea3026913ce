-- ===== src/Relay/Session.antt =====
-- services/relay/src/main.rs: one connection of the relay, the loop of `handle_socket` and
-- `exceeds_rate_limit`. Instants are nanoseconds of the monotonic clock.
use open_cade.Prelude.{
  ℕ, [], ◌+◌, ◌-◌, ◌*◌, ◌^◌, Bool, true, false, ◌||◌, not, Option, none, some, ltb, leb, length,
  if◌then◌else◌, min,
}
use open_cade.Prelude.Text.{Text, text_eq}
use open_cade.Protocol.{BorrowedEnvelope, EnvelopeError, validate, is_supported_version}
use open_cade.Ticket.{RelayCapability, probe, native_tcp_tunnel}
use open_cade.Relay.{
  Message, text, binary, ping, pong, close, RelayState, try_send, broadcast_message,
}

abbrev pub max_messages_per_second : ℕ
max_messages_per_second = 128

abbrev pub max_bytes_per_second : ℕ
max_bytes_per_second = 1024 * 1024

abbrev pub one_second : ℕ
one_second = 1_000_000_000

abbrev pub u32_max : ℕ
u32_max = 2 ^ 32 - 1

abbrev pub usize_max : ℕ
usize_max = 2 ^ 64 - 1

pub record Window : Type 0 where
  pub window_started : ℕ
  pub messages : ℕ
  pub bytes : ℕ

-- The reset at a window's end. `now` is the clock that `elapsed` reads, and `later` the one that
-- the new window starts at.
unfoldable pub roll : Window → ℕ → ℕ → Window
roll w now later =
    if leb one_second (now - w.window_started)
    then record { window_started = later; messages = 0; bytes = 0 }
    else w

-- `saturating_add` of the counters
unfoldable pub charge : Window → ℕ → Window
charge w frame_bytes = record w {
  messages = min (w.messages + 1) u32_max;
  bytes = min (w.bytes + frame_bytes) usize_max;
}

abbrev pub over_limit : Window → Bool
over_limit w = ltb max_messages_per_second w.messages || ltb max_bytes_per_second w.bytes

unfoldable pub exceeds_rate_limit : Window → ℕ → ℕ → ℕ → Window × Bool
exceeds_rate_limit w now later frame_bytes =
    let w' = charge (roll w now later) frame_bytes in (w', over_limit w')

-- What one connection knows of itself.
pub record Session : Type 0 where
  pub id : ℕ
  pub room_id : Text
  pub room_key : Text
  pub capability : RelayCapability
  pub window : Window

-- `serde_json` and chrono: `from_str` of an envelope, the `room_id` of a payload, the timestamp
-- test, and the JSON texts of the two error replies.
pub record Json : Type 0 where
  pub parse_envelope : Text → Option BorrowedEnvelope
  pub payload_room_id : Text → Option Text
  pub is_rfc3339 : Text → Bool
  pub unsupported_version_reply : Text → Text → Text
  pub invalid_envelope_reply : EnvelopeError → Text → Text

-- What `tokio::select!` yields: the connection was replaced, its ticket ran out, the stream ended
-- or failed, or a frame came.
pub data Event : Type 0 where
  replaced expired ended failed : Event
  frame : Message → Event

-- `biased`: the branches are polled in order. The last argument is `ws_receiver.next()`.
unfoldable pub select : Bool → Bool → Option Event → Option Event
select true _ next = some replaced
select false true next = some expired
select false false next = next

abbrev pub or_empty : Option Text → Text
or_empty none = []
or_empty (some s) = s

abbrev pub max_text_bytes : ℕ
max_text_bytes = 64 * 1024

unfoldable pub max_binary_bytes : RelayCapability → ℕ
max_binary_bytes probe = 64 * 1024
max_binary_bytes native_tcp_tunnel = 16 * 1024

-- `tx.try_send(..)` to the connection itself, the result ignored
unfoldable pub reply : Session → Message → RelayState → RelayState
reply session msg s = record s { channels = (try_send s.channels session.id msg).0 }

module _ (j : Json) where
  -- A text frame that is a valid envelope goes to the room that it names, if that is this one.
  unfoldable pub on_valid : Session → Text → BorrowedEnvelope → RelayState → RelayState
  on_valid session body envelope s =
      if text_eq (or_empty (j.payload_room_id envelope.payload)) session.room_id
      then (broadcast_message session.room_key (text body) session.id s).0
      else s

  unfoldable pub on_envelope : Session → Text → BorrowedEnvelope → RelayState → RelayState
  on_envelope session body envelope s =
      if not (is_supported_version envelope.version)
      then reply session (text (j.unsupported_version_reply envelope.version envelope.request_id)) s
      else elim (validate j.is_rfc3339 envelope) [
        | some e ↦ reply session (text (j.invalid_envelope_reply e envelope.request_id)) s
        | none ↦ on_valid session body envelope s
      ]

  -- A text frame inside the rate limit.
  unfoldable pub on_text : Session → Text → RelayState → RelayState
  on_text session body s =
      if ltb max_text_bytes (length body) then s else elim (j.parse_envelope body) [
        | none ↦ s
        | some envelope ↦ on_envelope session body envelope s
      ]

  -- A binary frame inside the rate limit.
  unfoldable pub on_binary : Session → Text → RelayState → RelayState
  unfolding max_binary_bytes
  on_binary session body s =
      if ltb (max_binary_bytes session.capability) (length body)
      then s
      else (broadcast_message session.room_key (binary body) session.id s).0

  -- One round of the loop: the session goes on with its new window, or `none`: it breaks.
  unfoldable pub on_event : Session → ℕ → ℕ → Event → RelayState → Option Session × RelayState
  on_event session now later replaced s = (none, s)
  on_event session now later expired s = (none, s)
  on_event session now later ended s = (none, s)
  on_event session now later failed s = (none, s)
  on_event session now later (frame (text body)) s =
      let (w, exceeded) = exceeds_rate_limit session.window now later (length body) in
      if exceeded then (none, s) else (some (record session { window = w }), on_text session body s)
  on_event session now later (frame (binary body)) s =
      let (w, exceeded) = exceeds_rate_limit session.window now later (length body) in
      if exceeded
      then (none, s)
      else (some (record session { window = w }), on_binary session body s)
  on_event session now later (frame (ping payload)) s =
      (some session, reply session (pong payload) s)
  on_event session now later (frame (pong payload)) s = (some session, s)
  on_event session now later (frame close) s = (none, s)
