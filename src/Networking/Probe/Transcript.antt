-- ===== src/Networking/Probe/Transcript.antt =====
-- Two probes of one match get the same transcript.
use open_cade.Prelude.{
  min, ℕ, ◌-◌, ◌≤◌, ◌≡◌, refl, sym, ◌∙◌, ap, subst, arith, true, false, ◌==◌, Option, none, some,
  List, [], ◌∷◌, All, Bool-cases, ◌⊎◌, inl, inr,
}
use open_cade.Networking.Probe.{
  min, MatchProbeConfig, Exchange, Tick, Arrival, my_frame, begin_frame, on_arrival, transmit,
  validated_remote_frame, packet, silence, failure,
}
use open_cade.Prelude.Digits.{show_hex}
use open_cade.Prelude.Outcome.{Outcome, ok, through_first}
use open_cade.Networking.{TransportError, peer_unavailable}
use open_cade.Networking.Frames.{InputFrame}
use open_cade.Networking.Probe.Run.{
  MatchProbeReport, next_round, on_tick, exchange, linger_for_peer, linger_tick, answer_late,
  run_match_probe_with, report_of, at_start,
}
use open_cade.Networking.Probe.Honest.{
  Sound, HonestArrival, IsFrameOf, Progress, transcript, on_arrival-Progress, Sound-weaken,
  deterministic_frame-IsFrameOf, transmit-Sound,
}

module _ (config : MatchProbeConfig) where
  abbrev pub HonestTick : Tick → Type 0
  HonestTick t = HonestArrival config t.arrival

  -- Before the last frame a frame is open.
  abbrev Standing : Exchange → Type 0
  Standing e = Sound config 1 e ⊎ (Sound config 0 e × (e.frame_number ≡ config.frame_count))

  begin_frame-Sound :
      (result : Outcome TransportError (Unit {0})) (e : Exchange) {after : Exchange}
      → begin_frame config result e ≡ ok after
      → Sound config 0 e
      → Sound config 1 after × (after.frame_number ≡ e.frame_number)
  unfolding begin_frame
  begin_frame-Sound result e run s =
      let (mine, q, h) = through_first (my_frame config e.frame_number) _ run in
      transmit-Sound config 0 result mine e (deterministic_frame-IsFrameOf e.frame_number _ _ q).0 h
        s

  next_round-Standing :
      (tick : Tick) (e before : Exchange) {after : Exchange}
      → Progress config before e
      → next_round config tick before.frame_number e.frame_number e ≡ ok after
      → Standing after
  unfolding next_round
  next_round-Standing tick e before {after = after} (inl (s, kept)) run =
      let open_still : (e.frame_number == before.frame_number) ≡ true = ground arith in
      let h = rw (open_still, next_round) at run in inl (subst (Sound config 1) (same h) s)
    where
      same :
          {x : Exchange} → ◌≡◌ {A = Outcome TransportError Exchange} (ok x) (ok after) → x ≡ after
      same h = cc
  next_round-Standing tick e before {after = after} (inr (s, moved)) run =
      let closed : (e.frame_number == before.frame_number) ≡ false = ground arith in
      elim (Bool-cases (e.frame_number == config.frame_count)) [
        | inl last ↦
            let h = rw (closed, last, next_round) at run in
            inr (
              subst (λ (x : Exchange). Sound config 0 x × (x.frame_number ≡ config.frame_count))
                (same h) (s, ground arith))
        | inr more ↦
            let h = rw (closed, more, next_round) at run in
            inl ((begin_frame-Sound tick.send_result e h s).0)
      ]
    where
      same :
          {x : Exchange} → ◌≡◌ {A = Outcome TransportError Exchange} (ok x) (ok after) → x ≡ after
      same h = cc

  on_tick-Standing :
      (tick : Tick) (e : Exchange) {after : Exchange}
      → HonestTick tick
      → on_tick config tick e ≡ ok after
      → Sound config 1 e
      → Standing after
  unfolding on_tick
  on_tick-Standing tick e honest run s =
      let (mine, q, h) = through_first (my_frame config e.frame_number) _ run in
      let (own, number) = deterministic_frame-IsFrameOf e.frame_number _ _ q in
      let (moved, q₁, h₁) =
        through_first (on_arrival config tick.send_result tick.arrival mine e) _ h in
      let progress =
        on_arrival-Progress config tick.send_result tick.arrival mine e honest own number q₁ s in
      next_round-Standing tick moved e progress h₁

  -- All frames are exchanged.
  abbrev Complete : Exchange → Type 0
  Complete e = Sound config 0 e × (e.frame_number ≡ config.frame_count)

  exchange-Complete :
      (ticks : List Tick) (e : Exchange) {after : Exchange}
      → All HonestTick ticks
      → exchange config ticks e ≡ ok after
      → Sound config 1 e
      → Complete after
  unfolding exchange
  exchange-Complete [] e honest run s = cc
  exchange-Complete (tick ∷ rest) e {after = after} (honest, later) run s =
      let (e₁, q, h) = through_first (on_tick config tick e) _ run in
      let standing = on_tick-Standing tick e honest q s in
      elim (Bool-cases (e₁.frame_number == config.frame_count)) [
        | inl last ↦
            let h₁ = rw last at h in
            let same : e₁ ≡ after = cc in
            let number : e₁.frame_number ≡ config.frame_count = ground arith in
            elim standing [
              | inl held ↦
                  subst Complete same (Sound-weaken config 1 0 e₁ (omega arith) held, number)
              | inr (held, done) ↦ subst Complete same (held, done)
            ]
        | inr more ↦
            let h₁ = rw more at h in
            elim standing [
              | inl held ↦ exchange-Complete rest e₁ later h₁ held
              | inr (held, done) ↦ absurd (ground arith)
            ]
      ]

  again :
      (result : Outcome TransportError (Unit {0})) (f : InputFrame) (e : Exchange)
      {after : Exchange}
      → IsFrameOf config.descriptor.local_user_id config.descriptor.role f
      → transmit result f e ≡ ok after
      → Complete e
      → Complete after
  again result f e {after = after} own run (s, number) =
      let (held, kept) = transmit-Sound config 0 result f e own run s in
      (Sound-weaken config 1 0 after (omega arith) held, kept ∙ number)

  linger_tick-Complete :
      (result : Outcome TransportError (Unit {0})) (a : Arrival) (final : InputFrame) (e : Exchange)
      {after : Exchange}
      → IsFrameOf config.descriptor.local_user_id config.descriptor.role final
      → linger_tick config result a final e ≡ ok after
      → Complete e
      → Complete after
  unfolding linger_tick answer_late
  linger_tick-Complete result silence final e own run c = again result final e own run c
  linger_tick-Complete result (failure peer_unavailable) final e own run c =
      again result final e own run c
  linger_tick-Complete result (packet p) final e {after = after} own run c =
      let (found, q, h) = through_first (validated_remote_frame p config) _ run in late found h
    where
      late :
          (found : Option InputFrame)
          → answer_late config result found e ≡ ok after
          → Complete after
      late none h = let same : e ≡ after = cc in subst Complete same c
      late (some remote) h =
          let (f, q, h₁) =
            through_first (my_frame config (min remote.frame (config.frame_count - 1))) _ h in
          again result f e (deterministic_frame-IsFrameOf _ _ _ q).0 h₁ c
  linger_tick-Complete result (failure reason) final e own run c = cc

  linger_for_peer-Complete :
      (ticks : List Tick) (final : InputFrame) (e : Exchange) {after : Exchange}
      → IsFrameOf config.descriptor.local_user_id config.descriptor.role final
      → linger_for_peer config ticks final e ≡ ok after
      → Complete e
      → Complete after
  unfolding linger_for_peer
  linger_for_peer-Complete [] final e {after = after} own run c =
      let same : e ≡ after = cc in subst Complete same c
  linger_for_peer-Complete (tick ∷ rest) final e own run c =
      let (e₁, q, h) =
        through_first (linger_tick config tick.send_result tick.arrival final e) _ run in
      linger_for_peer-Complete rest final e₁ own h
        (linger_tick-Complete tick.send_result tick.arrival final e own q c)

  -- A probe that completes has summed the transcript of all its frames and sent each of them, whatever
  -- is lost, repeated or late on the way: if every input that arrives is the one which the other
  -- role sends under its frame's number, then the checksum of the report is that of the frames, in
  -- 16 hexadecimal digits, the report counts all frames as received, and at least as many as sent.
  pub run_match_probe_with-transcript :
      (first : Outcome TransportError (Unit {0})) (ticks late : List Tick) (elapsed_ms : ℕ)
      (report : MatchProbeReport)
      → All HonestTick ticks
      → run_match_probe_with config first ticks late elapsed_ms ≡ ok report
      → (report.transcript_checksum ≡ show_hex 16 (transcript config.frame_count))
        × (report.frames_received ≡ config.frame_count)
        × (report.frames_received ≤ report.frames_sent)
  unfolding run_match_probe_with transcript
  run_match_probe_with-transcript first ticks late elapsed_ms report honest run =
      let (e, q, h) = through_first (begin_frame config first (at_start config)) _ run in
      let (e₁, q₁, h₁) = through_first (exchange config ticks e) _ h in
      let (final, q₂, h₂) = through_first (my_frame config (config.frame_count - 1)) _ h₁ in
      let (e₂, q₃, h₃) = through_first (linger_for_peer config late final e₁) _ h₂ in
      let opened = begin_frame-Sound first (at_start config) q nothing in
      let complete = exchange-Complete ticks e honest q₁ opened.0 in
      let own = (deterministic_frame-IsFrameOf (config.frame_count - 1) _ _ q₂).0 in
      let (s, number) = linger_for_peer-Complete late final e₁ own q₃ complete in
      let same : report_of config elapsed_ms e₂ ≡ report = cc in
      subst
        (λ (r : MatchProbeReport).
          (r.transcript_checksum ≡ show_hex 16 (transcript config.frame_count))
          × (r.frames_received ≡ config.frame_count)
          × (r.frames_received ≤ r.frames_sent))
        same (ap (show_hex 16) (s.summed ∙ ap transcript number), refl, omega (arith, s.sent))
    where
      nothing : Sound config 0 (at_start config)
      nothing = record { summed = refl; sent = omega arith; own = tt }

-- The two sides of a match report one transcript: if two probes with equally many frames complete,
-- each getting the inputs of the role opposite to its own, then their checksums are the same, whatever
-- was lost, repeated or late on either side.
pub run_match_probe_with-agree :
    (a b : MatchProbeConfig) (first_a first_b : Outcome TransportError (Unit {0}))
    (ticks_a late_a ticks_b late_b : List Tick) (elapsed_a elapsed_b : ℕ)
    (report_a report_b : MatchProbeReport)
    → a.frame_count ≡ b.frame_count
    → All (HonestTick a) ticks_a
    → All (HonestTick b) ticks_b
    → run_match_probe_with a first_a ticks_a late_a elapsed_a ≡ ok report_a
    → run_match_probe_with b first_b ticks_b late_b elapsed_b ≡ ok report_b
    → report_a.transcript_checksum ≡ report_b.transcript_checksum
run_match_probe_with-agree a b first_a first_b ticks_a late_a ticks_b late_b elapsed_a elapsed_b
      report_a report_b same honest_a honest_b run_a run_b =
    let left =
      run_match_probe_with-transcript a first_a ticks_a late_a elapsed_a report_a honest_a run_a in
    let right =
      run_match_probe_with-transcript b first_b ticks_b late_b elapsed_b report_b honest_b run_b in
    left.0 ∙ ap (λ n. show_hex 16 (transcript n)) same ∙ sym right.0
