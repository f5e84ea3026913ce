-- ===== src/Networking/Frames.antt =====
-- packages/networking/src/lib.rs: input frames, the checks of `UdpPeer`, and the in-memory pair of
-- peers, whose channel is a queue. serde_json is the record `Codec`.
mod Queue
mod Tests
use open_cade.Prelude.{
  ℕ, zero, suc, ◌+◌, ◌≤◌, ◌<◌, ◌≡◌, refl, arith, Bool, true, false, ◌||◌, ltb, leb, Option, none,
  some, List, [], ◌∷◌, ◌++◌, length, if◌then◌else◌,
}
use open_cade.Prelude.Text.{Text, codes, is_blank}
use open_cade.Prelude.Outcome.{Outcome, err, ok, ◌>>=◌, ◌>>◌, fail_if, or_fail}
use open_cade.Networking.{
  TransportError, invalid_player, frame_too_large, serialization, backpressure, closed,
  peer_unavailable, io,
}

abbrev pub max_input_bytes : ℕ
max_input_bytes = 256

abbrev pub input_queue_capacity : ℕ
input_queue_capacity = 120

abbrev pub max_datagram_bytes : ℕ
max_datagram_bytes = 2048

pub record InputFrame : Type 0 where
  pub frame : ℕ
  pub player_id : Text
  pub input : Text

-- `InputFrame::new`
unfoldable pub new_frame : ℕ → Text → Text → Outcome TransportError InputFrame
new_frame frame player_id input = do
  done ← fail_if (is_blank player_id) invalid_player
  done ← fail_if (ltb max_input_bytes (length input)) (frame_too_large (length input))
  ok (record { frame = frame; player_id = player_id; input = input })

-- The kind of a socket's error.
pub data ErrorKind : Type 0 where
  connection_refused connection_reset other_kind : ErrorKind

unfoldable pub map_udp_error : ErrorKind → Text → TransportError
map_udp_error connection_refused message = peer_unavailable
map_udp_error connection_reset message = peer_unavailable
map_udp_error other_kind message = io message

-- The JSON of a value, and back, with the library's error texts.
pub record Codec (A : Type 0) : Type 0 where
  pub to_vec : A → Outcome Text Text
  pub from_slice : Text → Outcome Text A

abbrev pub or_serialization {ℓ} : {A : Type ℓ} → Outcome Text A → Outcome TransportError A
or_serialization (ok value) = ok value
or_serialization (err message) = err (serialization message)

module _ (c : Codec InputFrame) where
  -- The datagram that `UdpPeer::send` puts on the socket.
  unfoldable pub send_bytes : InputFrame → Outcome TransportError Text
  send_bytes frame = do
    done ←
        fail_if (ltb max_input_bytes (length frame.input) || is_blank frame.player_id)
          (serialization (codes "invalid input frame"))
    or_serialization (c.to_vec frame)

  -- `UdpPeer::receive` on a datagram of the socket, cut to the buffer.
  unfoldable pub receive_bytes : Text → Outcome TransportError InputFrame
  unfolding new_frame
  receive_bytes datagram = do
    frame ← or_serialization (c.from_slice datagram)
    new_frame frame.frame frame.player_id frame.input

-- One direction of `InMemoryPeer::pair`: what waits in the channel, and whether its receiver is there.
pub record Link : Type 0 where
  pub queue : List InputFrame
  pub receiver_alive : Bool
  pub sender_alive : Bool

abbrev pub fresh_link : Link
fresh_link = record { queue = []; receiver_alive = true; sender_alive = true }

-- `InMemoryPeer::try_send`
unfoldable pub try_send : InputFrame → Link → Outcome TransportError Link
try_send frame l =
    if l.receiver_alive
    then (if leb input_queue_capacity (length l.queue)
        then err backpressure
        else ok (record l { queue = l.queue ++ frame ∷ [] }))
    else err closed

-- What `InMemoryPeer::receive` answers, or `none` while it waits.
unfoldable pub receive : Link → Option (Outcome TransportError (InputFrame × Link))
receive l = elim l.queue [
  | frame ∷ rest ↦ some (ok (frame, record l { queue = rest }))
  | [] ↦ if l.sender_alive then none else some (err closed)
]
