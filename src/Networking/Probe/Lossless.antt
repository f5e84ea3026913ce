-- ===== src/Networking/Probe/Lossless.antt =====
-- On a link that loses nothing a probe completes.
use open_cade.Prelude.{
  none, some, min, ◌++◌, length, map, ap, if◌then◌else◌, Option, ℕ, zero, suc, ◌+◌, ◌-◌, ◌≤◌, ◌≡◌,
  refl, ◌∙◌, arith, true, false, ◌==◌, ltb, some, List, [], ◌∷◌, All, Bool-cases, inl, inr,
}
use open_cade.Networking.Probe.{
  min, length, silence, Option, MatchProbeConfig, Exchange, Tick, packet, input_packet, my_frame,
  begin_frame, on_arrival, on_remote, transmit, send_probe_frame, validated_remote_frame,
  mismatches, deterministic_frame, deterministic_input,
}
use open_cade.Networking.Probe.Run.{
  answer_late, linger_tick, MatchProbeReport, next_round, on_tick, exchange, linger_for_peer,
  run_match_probe_with, report_of, at_start,
}
use open_cade.Prelude.Text.{is_blank, text_eq_refl}
use open_cade.Prelude.Digits.{show_hex}
use open_cade.Prelude.Outcome.{ok}
use open_cade.Networking.Frames.{InputFrame, new_frame}
use open_cade.Networking.Probe.Honest.{opposite, transcript}
use open_cade.Networking.Probe.Transcript.{HonestTick, run_match_probe_with-transcript}

module _ (config : MatchProbeConfig) where
  abbrev pub peer_frame : ℕ → InputFrame
  peer_frame number = record {
    frame = number;
    player_id = config.descriptor.peer_user_id;
    input = deterministic_input number (opposite config.descriptor.role) ∷ [];
  }

  -- The peer's frame arrives, and what is sent goes out.
  abbrev pub delivery : ℕ → Tick
  delivery number = record {
    arrival =
        packet (input_packet config.descriptor.room_id config.session_key (peer_frame number));
    send_result = ok tt;
  }

  abbrev pub deliveries : (number count : ℕ) → List Tick
  deliveries number zero = []
  deliveries number (suc count) = delivery number ∷ deliveries (suc number) count

  -- A tick of the grace period: the peer is silent, or one of its frames arrives again. What is sent
  -- goes out.
  abbrev pub grace : Option ℕ → Tick
  grace none = record { arrival = silence; send_result = ok tt }
  grace (some number) = delivery number

  deliveries-HonestTick : (number count : ℕ) → All (HonestTick config) (deliveries number count)
  deliveries-HonestTick number zero = tt
  deliveries-HonestTick number (suc count) = (refl, deliveries-HonestTick (suc number) count)

  exchange_last :
      (tick : Tick) (rest : List Tick) (e after : Exchange)
      → on_tick config tick e ≡ ok after
      → (after.frame_number == config.frame_count) ≡ true
      → exchange config (tick ∷ rest) e ≡ ok after
  unfolding exchange
  exchange_last tick rest e after q last = cc

  exchange_more :
      (tick : Tick) (rest : List Tick) (e after : Exchange)
      → on_tick config tick e ≡ ok after
      → (after.frame_number == config.frame_count) ≡ false
      → exchange config (tick ∷ rest) e ≡ exchange config rest after
  unfolding exchange
  exchange_more tick rest e after q more = ground (arith, q, more)

  module _ (named : is_blank config.descriptor.local_user_id ≡ false) where
    my_frame-ok : (number : ℕ) → (f : InputFrame) × (my_frame config number ≡ ok f)
    unfolding deterministic_frame new_frame
    my_frame-ok number = rw named (_, refl)

    validated_remote_frame-peer_frame :
        (number : ℕ)
        → validated_remote_frame
            (input_packet config.descriptor.room_id config.session_key (peer_frame number))
            config
          ≡ ok (some (peer_frame number))
    unfolding validated_remote_frame mismatches
    validated_remote_frame-peer_frame number =
        rw
          (
            validated_remote_frame,
            mismatches,
            text_eq_refl config.descriptor.room_id,
            text_eq_refl config.session_key,
            text_eq_refl config.descriptor.peer_user_id,
          )
          refl

    begin_frame-ok :
        (e : Exchange)
        → (after : Exchange) × (begin_frame config (ok tt) e ≡ ok after)
          × (after.frame_number ≡ e.frame_number)
          × (after.frames_sent ≡ suc e.frames_sent)
    unfolding begin_frame transmit send_probe_frame
    begin_frame-ok e = let (f, q) = my_frame-ok e.frame_number in rw q (_, refl, refl, refl)

    on_arrival-delivery :
        (e : Exchange) (mine : InputFrame)
        → (after : Exchange) × (on_arrival config (ok tt) (delivery e.frame_number).arrival mine e
            ≡ ok after)
          × (after.frame_number ≡ suc e.frame_number)
          × (after.frames_sent ≡ e.frames_sent)
    unfolding on_arrival on_remote
    on_arrival-delivery e mine =
        let same : ltb e.frame_number e.frame_number ≡ false = ground arith in
        rw (validated_remote_frame-peer_frame e.frame_number, on_remote, same) (_, refl, refl, refl)

    on_tick-delivery :
        (e : Exchange)
        → (after : Exchange) × (on_tick config (delivery e.frame_number) e ≡ ok after)
          × (after.frame_number ≡ suc e.frame_number)
          × (after.frames_sent ≡ (
              if suc e.frame_number == config.frame_count
              then e.frames_sent
              else suc e.frames_sent))
    unfolding on_tick next_round
    on_tick-delivery e =
        let (mine, q) = my_frame-ok e.frame_number in
        let (moved, q₁, step, sent) = on_arrival-delivery e mine in
        let closed : (moved.frame_number == e.frame_number) ≡ false = ground arith in
        elim (Bool-cases (moved.frame_number == config.frame_count)) [
          | inl last ↦
              let last₁ : (suc e.frame_number == config.frame_count) ≡ true = ground arith in
              rw (q, q₁, next_round, closed, last) (moved, refl, step, sent ∙ rw last₁ refl)
          | inr more ↦
              let (next, q₂, kept, sent₁) = begin_frame-ok moved in
              let more₁ : (suc e.frame_number == config.frame_count) ≡ false = ground arith in
              rw (q, q₁, next_round, closed, more)
                (next, q₂, kept ∙ step, sent₁ ∙ ap suc sent ∙ rw more₁ refl)
        ]

    exchange-deliveries :
        (left : ℕ) (e : Exchange)
        → e.frame_number + suc left ≡ config.frame_count
        → (after : Exchange) × (exchange config (deliveries e.frame_number (suc left)) e ≡ ok after)
          × (after.frames_sent ≡ e.frames_sent + left)
    exchange-deliveries zero e count =
        let (after, q, step, sent) = on_tick-delivery e in
        let last : (after.frame_number == config.frame_count) ≡ true = ground arith in
        let last₁ : (suc e.frame_number == config.frame_count) ≡ true = ground arith in
        let sent₁ = rw last₁ at sent in
        (after, exchange_last (delivery e.frame_number) [] e after q last, omega arith)
    exchange-deliveries (suc left) e count =
        let (moved, q, step, sent) = on_tick-delivery e in
        let more₁ : (suc e.frame_number == config.frame_count) ≡ false = ground arith in
        let sent₁ = rw more₁ at sent in
        let more : (moved.frame_number == config.frame_count) ≡ false = ground arith in
        let (after, rest, sent₂) = exchange-deliveries left moved (omega arith) in
        (
          after,
          exchange_more (delivery e.frame_number) (deliveries (suc e.frame_number) (suc left)) e
                moved q more
              ∙ rw step at rest,
          omega arith,
        )

    linger-grace :
        (late : List (Option ℕ)) (final : InputFrame) (e : Exchange)
        → (after : Exchange) × (linger_for_peer config (map grace late) final e ≡ ok after)
          × (after.frames_sent ≡ e.frames_sent + length late)
    unfolding linger_for_peer linger_tick answer_late transmit send_probe_frame
    linger-grace [] final e = (e, refl, omega arith)
    linger-grace (none ∷ late) final e =
        let sent : Exchange = record e {
          frames_sent = suc e.frames_sent;
          outbox = e.outbox ++ final ∷ [];
        } in
        let (after, q, count) = linger-grace late final sent in (after, q, omega arith)
    linger-grace (some number ∷ late) final e =
        let (f, mine) = my_frame-ok (min number (config.frame_count - 1)) in
        let sent : Exchange = record e {
          frames_sent = suc e.frames_sent;
          outbox = e.outbox ++ f ∷ [];
        } in
        let (after, q, count) = linger-grace late final sent in
        (after, rw (validated_remote_frame-peer_frame number, answer_late, mine) q, omega arith)

    -- Where every frame of the peer arrives once, in order, and every send goes out, the probe of a
    -- named player completes with a report, whatever frames of the peer come again in the grace
    -- period and whenever it is silent there: as many frames are received as are configured, as many
    -- are sent and one more for each tick of the grace period, and the checksum is that of the
    -- transcript. There is a frame to exchange.
    pub run_match_probe_with-deliveries :
        (late : List (Option ℕ)) (elapsed_ms : ℕ)
        → 1 ≤ config.frame_count
        → (report : MatchProbeReport) × (run_match_probe_with config
              (ok tt)
              (deliveries 0 config.frame_count)
              (map grace late)
              elapsed_ms
            ≡ ok report)
          × (report.transcript_checksum ≡ show_hex 16 (transcript config.frame_count))
          × (report.frames_received ≡ config.frame_count)
          × (report.frames_sent ≡ config.frame_count + length late)
    unfolding run_match_probe_with
    run_match_probe_with-deliveries late elapsed_ms some_frame =
        let (opened, q, at, sent) = begin_frame-ok (at_start config) in
        let left = config.frame_count - 1 in
        let count : config.frame_count ≡ suc left = omega arith in
        let (complete, q₁, sent₁) = exchange-deliveries left opened (omega arith) in
        let exchanged : exchange config (deliveries 0 config.frame_count) opened ≡ ok complete =
          cc (q₁, at, count) in
        let (final, q₂) = my_frame-ok left in
        let (lingered, q₃, sent₂) = linger-grace late final complete in
        let run : run_match_probe_with config (ok tt) (deliveries 0 config.frame_count)
              (map grace late) elapsed_ms
            ≡ ok (report_of config elapsed_ms lingered) =
          rw (run_match_probe_with, q, exchanged, q₂, q₃) refl in
        let sound =
          run_match_probe_with-transcript config (ok tt) (deliveries 0 config.frame_count)
            (map grace late) elapsed_ms _ (deliveries-HonestTick 0 config.frame_count) run in
        (report_of config elapsed_ms lingered, run, sound.0, sound.1, omega arith)
