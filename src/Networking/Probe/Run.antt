-- ===== src/Networking/Probe/Run.antt =====
-- packages/networking/src/probe.rs: the loops of `run_match_probe_with` and `linger_for_peer`, and the
-- report. `MatchProbeConfig::new` has made sure that there is a frame.
use open_cade.Prelude.{
  ℕ, ◌-◌, min, true, false, ◌==◌, Option, none, some, List, [], ◌∷◌, if◌then◌else◌,
}
use open_cade.Prelude.Text.{Text}
use open_cade.Prelude.Digits.{show_hex}
use open_cade.Prelude.Outcome.{Outcome, err, ok, ◌>>=◌}
use open_cade.Protocol.Reports.{NatMappingState, unknown_nat, MatchCandidateKind, host_candidate}
use open_cade.Sdk.{PeerRole, TransportKind}
use open_cade.Networking.{TransportError, peer_unavailable, timeout}
use open_cade.Networking.Frames.{InputFrame}
use open_cade.Networking.Probe.{
  MatchProbeConfig, Exchange, Tick, Arrival, silence, failure, packet, fnv_offset_basis, my_frame,
  begin_frame, on_arrival, transmit, validated_remote_frame, deterministic_frame,
}

pub record MatchProbeReport : Type 0 where
  pub room_id : Text
  pub local_user_id : Text
  pub peer_user_id : Text
  pub role : PeerRole
  pub transport : TransportKind
  pub frames_sent : ℕ
  pub frames_received : ℕ
  pub transcript_checksum : Text
  pub elapsed_ms : ℕ
  pub nat : NatMappingState
  pub candidate : MatchCandidateKind
  pub punch_attempts : ℕ

module _ (config : MatchProbeConfig) where
  -- After a tick: the frame is still open, or it was the last one, or the next one begins.
  unfoldable pub next_round : Tick → (before after : ℕ) → Exchange → Outcome TransportError Exchange
  unfolding begin_frame
  next_round tick before after e =
      if after == before
      then ok e
      else if after == config.frame_count
      then ok e
      else begin_frame config tick.send_result e

  unfoldable pub on_tick : Tick → Exchange → Outcome TransportError Exchange
  unfolding next_round on_arrival deterministic_frame
  on_tick tick e = do
    mine ← my_frame config e.frame_number
    after ← on_arrival config tick.send_result tick.arrival mine e
    next_round tick e.frame_number after.frame_number after

  -- With the ticks that are left after the last frame.
  unfoldable pub exchange : List Tick → Exchange → Outcome TransportError Exchange
  unfolding on_tick
  exchange [] e = err (timeout e.frame_number config.frame_count)
  exchange (tick ∷ rest) e = on_tick tick e >>= λ e. elim (e.frame_number == config.frame_count) [
    | true ↦ ok e
    | false ↦ exchange rest e
  ]

  abbrev pub final_number : ℕ
  final_number = config.frame_count - 1

  unfoldable pub answer_late :
      Outcome TransportError (Unit {0})
      → Option InputFrame
      → Exchange
      → Outcome TransportError Exchange
  unfolding transmit deterministic_frame
  answer_late result none e = ok e
  answer_late result (some remote) e =
      my_frame config (min remote.frame final_number) >>= λ frame. transmit result frame e

  unfoldable pub linger_tick :
      Outcome TransportError (Unit {0})
      → Arrival
      → InputFrame
      → Exchange
      → Outcome TransportError Exchange
  unfolding transmit validated_remote_frame answer_late
  linger_tick result silence final e = transmit result final e
  linger_tick result (failure peer_unavailable) final e = transmit result final e
  linger_tick result (failure reason) final e = err reason
  linger_tick result (packet p) final e =
      validated_remote_frame p config >>= λ found. answer_late result found e

  unfoldable pub linger_for_peer :
      List Tick → InputFrame → Exchange → Outcome TransportError Exchange
  unfolding linger_tick
  linger_for_peer [] final e = ok e
  linger_for_peer (tick ∷ rest) final e =
      linger_tick tick.send_result tick.arrival final e >>= λ e. linger_for_peer rest final e

  abbrev pub report_of : ℕ → Exchange → MatchProbeReport
  report_of elapsed_ms e = record {
    room_id = config.descriptor.room_id;
    local_user_id = config.descriptor.local_user_id;
    peer_user_id = config.descriptor.peer_user_id;
    role = config.descriptor.role;
    transport = config.descriptor.transport;
    frames_sent = e.frames_sent;
    frames_received = config.frame_count;
    transcript_checksum = show_hex 16 e.checksum;
    elapsed_ms = elapsed_ms;
    nat = unknown_nat;
    candidate = host_candidate;
    punch_attempts = 0;
  }

  abbrev pub at_start : Exchange
  at_start = record { frame_number = 0; frames_sent = 0; checksum = fnv_offset_basis; outbox = [] }

  -- `first` is what the first send answers, `late` are the ticks of the grace period.
  unfoldable pub run_match_probe_with :
      (first : Outcome TransportError (Unit {0})) (ticks late : List Tick) (elapsed_ms : ℕ)
      → Outcome TransportError MatchProbeReport
  unfolding begin_frame exchange linger_for_peer deterministic_frame
  run_match_probe_with first ticks late elapsed_ms = do
    opened ← begin_frame config first at_start
    complete ← exchange ticks opened
    final ← my_frame config final_number
    lingered ← linger_for_peer late final complete
    ok (report_of elapsed_ms lingered)
