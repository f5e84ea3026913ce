-- ===== src/Networking/Probe.antt =====
-- packages/networking/src/probe.rs: the exchange of deterministic frames that proves a match. What the
-- transport does is a list of ticks: what arrives within one wait, and what the next send answers.
-- The end of the list is the deadline.
pub mod Run
mod Honest
mod Transcript
mod Lossless
mod Tests
use Prim.Native.Nat.{bit_xor}
use open_cade.Prelude.{
  ℕ, zero, suc, ◌+◌, ◌-◌, ◌*◌, ◌/◌, ◌%◌, ◌^◌, min, Bool, true, false, ◌||◌, ◌&&◌, not, ◌==◌, ltb,
  leb, Option, none, some, List, [], ◌∷◌, ◌++◌, length, if◌then◌else◌,
}
use open_cade.Prelude.Text.{Text, codes, text_eq, is_blank}
use open_cade.Prelude.Outcome.{Outcome, err, ok, ◌>>=◌, ◌>>◌, fail_if, or_fail}
use open_cade.Protocol.Reports.{NatMappingState, unknown_nat, MatchCandidateKind, host_candidate}
use open_cade.Sdk.{
  MatchDescriptor, PeerRole, host, guest, TransportKind, in_memory, direct_udp, hole_punch, stun,
  relay, validate, AdapterError,
}
use open_cade.Networking.{
  TransportError, invalid_configuration, peer_unavailable, peer_mismatch, timeout,
}
use open_cade.Networking.Frames.{InputFrame, new_frame, max_input_bytes}

abbrev pub max_probe_frames : ℕ
max_probe_frames = 10000

pub data ProbePacket : Type 0 where
  input_packet : (room_id session_key : Text) (frame : InputFrame) → ProbePacket
  hole_punch_packet : (version : ℕ) (room_id session_key : Text) → ProbePacket

pub record MatchProbeConfig : Type 0 where
  pub descriptor : MatchDescriptor
  pub session_key : Text
  pub frame_count : ℕ
  pub time_limit : ℕ

unfoldable pub probes : TransportKind → Bool
probes direct_udp = true
probes relay = true
probes _ = false

unfoldable pub usable_descriptor :
    (describe : AdapterError → Text) → MatchDescriptor → Outcome TransportError (Unit {0})
unfolding validate
usable_descriptor describe descriptor = elim (validate descriptor) [
  | err reason ↦ err (invalid_configuration (describe reason))
  | ok done ↦ ok tt
]

-- `MatchProbeConfig::new`. `describe` is the text of an adapter's error.
unfoldable pub new_config :
    (describe : AdapterError → Text)
    → MatchDescriptor
    → Text
    → (frame_count time_limit : ℕ) → Outcome TransportError MatchProbeConfig
unfolding probes usable_descriptor
new_config describe descriptor session_key frame_count time_limit = do
  done ← usable_descriptor describe descriptor
  done ←
      fail_if (not (probes descriptor.transport))
        (invalid_configuration (codes "match probe requires direct_udp or relay transport"))
  done ←
      fail_if (is_blank session_key || ltb 128 (length session_key))
        (invalid_configuration (codes "session key must contain between 1 and 128 bytes"))
  done ←
      fail_if (not (leb 1 frame_count && leb frame_count max_probe_frames))
        (invalid_configuration (codes "frame count must be between 1 and 10000"))
  done ←
      fail_if (time_limit == 0) (invalid_configuration (codes "timeout must be greater than zero"))
  ok (record {
    descriptor = descriptor;
    session_key = session_key;
    frame_count = frame_count;
    time_limit = time_limit;
  })

-- The one byte of a player's input at a frame.
unfoldable pub deterministic_input : ℕ → PeerRole → ℕ
deterministic_input frame host = frame % 4
deterministic_input frame guest = (frame + 2) % 4

unfoldable pub deterministic_frame : ℕ → Text → PeerRole → Outcome TransportError InputFrame
unfolding deterministic_input new_frame
deterministic_frame frame player_id role =
    new_frame frame player_id (deterministic_input frame role ∷ [])

abbrev pub fnv_offset_basis : ℕ
fnv_offset_basis = 0xcbf29ce484222325

abbrev pub fnv_prime : ℕ
fnv_prime = 0x100000001b3

-- The loop of `update_transcript_checksum`: `wrapping_mul` on `u64`.
unfoldable pub absorb : Text → ℕ → ℕ
absorb [] checksum = checksum
absorb (byte ∷ rest) checksum = absorb rest (bit_xor checksum byte * fnv_prime % 2 ^ 64)

unfoldable pub update_transcript_checksum : ℕ → PeerRole → (mine remote : InputFrame) → ℕ
unfolding absorb
update_transcript_checksum checksum host mine remote = absorb (mine.input ++ remote.input) checksum
update_transcript_checksum checksum guest mine remote = absorb (remote.input ++ mine.input) checksum

-- The packet is of another match or player.
unfoldable pub mismatches : (room_id session_key : Text) → InputFrame → MatchProbeConfig → Bool
mismatches room_id session_key frame config =
    not (text_eq room_id config.descriptor.room_id)
    || not (text_eq session_key config.session_key)
    || not (text_eq frame.player_id config.descriptor.peer_user_id)
    || ltb max_input_bytes (length frame.input)

unfoldable pub validated_remote_frame :
    ProbePacket → MatchProbeConfig → Outcome TransportError (Option InputFrame)
unfolding mismatches
validated_remote_frame (hole_punch_packet version room_id session_key) config = ok none
validated_remote_frame (input_packet room_id session_key frame) config = do
  done ← fail_if (mismatches room_id session_key frame config) peer_mismatch
  ok (some frame)

-- What one wait brings.
pub data Arrival : Type 0 where
  silence : Arrival
  failure : TransportError → Arrival
  packet : ProbePacket → Arrival

pub record Tick : Type 0 where
  pub arrival : Arrival
  pub send_result : Outcome TransportError (Unit {0})

-- `outbox` has the frames that were sent, the last one last.
pub record Exchange : Type 0 where
  pub frame_number : ℕ
  pub frames_sent : ℕ
  pub checksum : ℕ
  pub outbox : List InputFrame

unfoldable pub send_probe_frame :
    Outcome TransportError (Unit {0}) → Outcome TransportError (Unit {0})
send_probe_frame (err peer_unavailable) = ok tt
send_probe_frame result = result

-- A send, and `frames_sent += 1`.
unfoldable pub transmit :
    Outcome TransportError (Unit {0}) → InputFrame → Exchange → Outcome TransportError Exchange
unfolding send_probe_frame
transmit result frame e = do
  done ← send_probe_frame result
  ok (record e { frames_sent = suc e.frames_sent; outbox = e.outbox ++ frame ∷ [] })

module _ (config : MatchProbeConfig) where
  abbrev pub my_frame : ℕ → Outcome TransportError InputFrame
  my_frame number =
      deterministic_frame number config.descriptor.local_user_id config.descriptor.role

  -- The top of the loop over the frames.
  unfoldable pub begin_frame :
      Outcome TransportError (Unit {0}) → Exchange → Outcome TransportError Exchange
  unfolding deterministic_frame transmit
  begin_frame result e = my_frame e.frame_number >>= λ frame. transmit result frame e

  -- A frame of the peer while the frame `mine` is open. A new frame number is the loop's `break`.
  unfoldable pub on_remote :
      Outcome TransportError (Unit {0})
      → (mine remote : InputFrame) → Exchange
      → Outcome TransportError Exchange
  unfolding deterministic_frame transmit update_transcript_checksum
  on_remote result mine remote e =
      if ltb remote.frame e.frame_number
      then (my_frame remote.frame >>= λ previous. transmit result previous e)
      else if ltb e.frame_number remote.frame
      then transmit result mine e
      else ok (record e {
        frame_number = suc e.frame_number;
        checksum = update_transcript_checksum e.checksum config.descriptor.role mine remote;
      })

  unfoldable pub on_arrival :
      Outcome TransportError (Unit {0})
      → Arrival
      → InputFrame
      → Exchange
      → Outcome TransportError Exchange
  unfolding on_remote validated_remote_frame
  on_arrival result silence mine e = transmit result mine e
  on_arrival result (failure peer_unavailable) mine e = transmit result mine e
  on_arrival result (failure reason) mine e = err reason
  on_arrival result (packet p) mine e = validated_remote_frame p config >>= λ found. elim found [
    | none ↦ ok e
    | some remote ↦ on_remote result mine remote e
  ]
