-- ===== src/Networking/Traversal.antt =====
-- packages/networking/src/traversal.rs: the configuration of a hole punch and `punch_hole`. What the
-- socket hands over within one attempt is a list, whose end is the attempt's deadline; serde_json is
-- the parameters `packet` and `read_packet`.
pub mod Bounded
mod Tests
use open_cade.Prelude.{
  ℕ, zero, suc, ◌+◌, Bool, true, false, ◌||◌, ◌&&◌, not, ◌==◌, ltb, Option, none, some, List, [],
  ◌∷◌, length, any, if◌then◌else◌,
}
use open_cade.Prelude.Text.{Text, codes, text_eq, is_blank}
use open_cade.Prelude.Net.{SocketAddr, is_unspecified, addr_eq}
use open_cade.Prelude.Outcome.{Outcome, err, ok, ◌>>=◌, ◌>>◌, fail_if}
use open_cade.Networking.{TransportError, invalid_configuration, hole_punch_timeout}
use open_cade.Networking.Frames.{ErrorKind, connection_refused, map_udp_error}

abbrev pub max_punch_candidates : ℕ
max_punch_candidates = 8

abbrev pub max_punch_bytes : ℕ
max_punch_bytes = 1024

-- `interval` is in any unit; it is zero for the zero duration.
pub record HolePunchConfig : Type 0 where
  pub room_id : Text
  pub session_key : Text
  pub peer_candidates : List SocketAddr
  pub attempts : ℕ
  pub interval : ℕ

unfoldable pub has_addr : SocketAddr → List SocketAddr → Bool
has_addr addr addrs = any (λ other. addr_eq other addr) addrs

-- `filter(|candidate| seen.insert(*candidate))`
unfoldable pub first_ones : (seen rest : List SocketAddr) → List SocketAddr
unfolding has_addr
first_ones seen [] = []
first_ones seen (addr ∷ rest) =
    let skipped = first_ones seen rest in
    let kept = first_ones (addr ∷ seen) rest in if has_addr addr seen then skipped else addr ∷ kept

abbrev pub unusable : SocketAddr → Bool
unusable addr = is_unspecified addr.ip || addr.port == 0

abbrev pub unbounded : Text → Bool
unbounded id = is_blank id || ltb 128 (length id)

-- `HolePunchConfig::new`
unfoldable pub new_punch :
    (room_id session_key : Text) (peer_candidates : List SocketAddr) (attempts interval : ℕ)
    → Outcome TransportError HolePunchConfig
unfolding first_ones
new_punch room_id session_key peer_candidates attempts interval = do
  done ←
      fail_if (unbounded room_id || unbounded session_key)
        (invalid_configuration (codes "hole punch requires bounded room and session identifiers"))
  done ←
      fail_if
        (length (first_ones [] peer_candidates) == 0
          || ltb max_punch_candidates (length (first_ones [] peer_candidates))
          || any unusable (first_ones [] peer_candidates))
        (invalid_configuration (codes "hole punch requires 1 to 8 usable peer candidates"))
  done ←
      fail_if (attempts == 0 || ltb 10 attempts || interval == 0) (
        invalid_configuration
          (codes "hole punch requires 1 to 10 attempts and a non-zero interval"))
  ok (record {
    room_id = room_id;
    session_key = session_key;
    peer_candidates = first_ones [] peer_candidates;
    attempts = attempts;
    interval = interval;
  })

pub record HolePunchReport : Type 0 where
  pub selected_peer : SocketAddr
  pub punch_attempts : ℕ

-- `PunchPacket::HolePunch`
pub record PunchPacket : Type 0 where
  pub version : ℕ
  pub packet_room_id : Text
  pub packet_session_key : Text

-- An operation of the socket that failed, with the text of its error.
pub record SocketFailure : Type 0 where
  pub failure : ErrorKind
  pub message : Text

-- `recv_from`: the bytes that fit the buffer and their sender, with what the answer to it and the
-- connection come to, or an error.
pub data Arrival : Type 0 where
  datagram :
      (source : SocketAddr) (bytes : Text) (replied connected : Outcome SocketFailure (Unit {0}))
      → Arrival
  broken : (reason : SocketFailure) → Arrival

-- One attempt: what each `send_to` comes to, and what arrives.
pub record Attempt : Type 0 where
  pub sends : SocketAddr → Outcome SocketFailure (Unit {0})
  pub arrivals : List Arrival

abbrev pub is_refused : ErrorKind → Bool
is_refused connection_refused = true
is_refused _ = false

abbrev pub map_failure : SocketFailure → TransportError
map_failure f = map_udp_error f.failure f.message

abbrev pub or_udp : Outcome SocketFailure (Unit {0}) → Outcome TransportError (Unit {0})
or_udp (ok done) = ok done
or_udp (err f) = err (map_failure f)

-- A refused connection is passed over.
abbrev pub unless_refused : Outcome SocketFailure (Unit {0}) → Outcome TransportError (Unit {0})
unless_refused (ok done) = ok done
unless_refused (err f) = if is_refused f.failure then ok tt else err (map_failure f)

unfoldable pub send_to_all :
    (SocketAddr → Outcome SocketFailure (Unit {0}))
    → List SocketAddr
    → Outcome TransportError (Unit {0})
send_to_all sends [] = ok tt
send_to_all sends (candidate ∷ rest) =
    unless_refused (sends candidate) >>= λ done. send_to_all sends rest

module _ (read_packet : Text → Option PunchPacket) (config : HolePunchConfig) where
  -- The datagram is of a candidate, and of this room and session.
  unfoldable pub is_answer : SocketAddr → Text → Bool
  unfolding has_addr
  is_answer source bytes = has_addr source config.peer_candidates && elim (read_packet bytes) [
    | none ↦ false
    | some packet ↦
        packet.version == 1
        && text_eq packet.packet_room_id config.room_id
        && text_eq packet.packet_session_key config.session_key
  ]

  -- The inner loop; `none` is the deadline.
  unfoldable pub await_answer :
      (attempt : ℕ) → List Arrival → Outcome TransportError (Option HolePunchReport)
  unfolding is_answer
  await_answer attempt [] = ok none
  await_answer attempt (broken f ∷ rest) =
      let later = await_answer attempt rest in
      if is_refused f.failure then later else err (map_failure f)
  await_answer attempt (datagram source bytes replied connected ∷ rest) =
      let later = await_answer attempt rest in
      if is_answer source bytes
      then (or_udp replied >>= λ done. or_udp connected >>= λ done.
          ok (some (record { selected_peer = source; punch_attempts = attempt })))
      else later

  -- One round of the outer loop.
  unfoldable pub punch_once :
      (attempt : ℕ) → Attempt → Outcome TransportError (Option HolePunchReport)
  unfolding send_to_all await_answer
  punch_once attempt a = do
    done ← send_to_all a.sends config.peer_candidates
    await_answer attempt a.arrivals

  -- The outer loop from an attempt on, with `left` attempts to go.
  unfoldable pub punch_from :
      (attempt left : ℕ) → (ℕ → Attempt) → Outcome TransportError HolePunchReport
  unfolding punch_once
  punch_from attempt zero socket = err (hole_punch_timeout config.attempts)
  punch_from attempt (suc left) socket =
      let later = punch_from (suc attempt) left socket in
      elim (punch_once attempt (socket attempt)) [
        | err reason ↦ err reason
        | ok (some report) ↦ ok report
        | ok none ↦ later
      ]

  unfoldable pub punch_hole : (ℕ → Attempt) → Outcome TransportError HolePunchReport
  unfolding punch_from
  punch_hole socket = punch_from 1 config.attempts socket
