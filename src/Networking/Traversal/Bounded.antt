-- ===== src/Networking/Traversal/Bounded.antt =====
-- A hole punch of traversal.rs ends within its attempts, and only with a peer that was named.
use open_cade.Prelude.{
  ◌∙◌, ℕ, zero, suc, ◌+◌, ◌≤◌, ◌<◌, ◌≡◌, refl, sym, ap, subst, arith, true, Option, none, some,
  List, [], ◌∷◌, Bool-cases, inl, inr, ◌⊎◌,
}
use open_cade.Networking.Traversal.{
  HolePunchConfig, HolePunchReport, Arrival, datagram, broken, Attempt, SocketFailure, PunchPacket,
  is_answer, await_answer, punch_once, punch_from, punch_hole, send_to_all, or_udp, is_refused,
}
use open_cade.Prelude.Text.{Text}
use open_cade.Prelude.Net.{SocketAddr}
use open_cade.Prelude.Outcome.{Outcome, err, ok, through_first, Outcome-cases}

-- A datagram of the list that answers, from a peer to which the answer and the connection went well.
abbrev pub Answers :
    (Text → Option PunchPacket) → HolePunchConfig → SocketAddr → List Arrival → Type 0
Answers read_packet config peer [] = ⊥
Answers read_packet config peer (broken f ∷ rest) = Answers read_packet config peer rest
Answers read_packet config peer (datagram source bytes replied connected ∷ rest) =
    ((source ≡ peer)
      × (is_answer read_packet config source bytes ≡ true)
      × (replied ≡ ok tt)
      × (connected ≡ ok tt))
    ⊎ Answers read_packet config peer rest

or_udp-ok : (o : Outcome SocketFailure (Unit {0})) {u : Unit {0}} → or_udp o ≡ ok u → o ≡ ok tt
or_udp-ok (ok done) h = refl
or_udp-ok (err f) h = cc

module _ (read_packet : Text → Option PunchPacket) (config : HolePunchConfig) where
  await_answer-Answers :
      (attempt : ℕ) (arrivals : List Arrival) {report : HolePunchReport}
      → await_answer read_packet config attempt arrivals ≡ ok (some report)
      → (report.punch_attempts ≡ attempt) × Answers read_packet config report.selected_peer arrivals
  unfolding await_answer
  await_answer-Answers attempt [] h = cc
  await_answer-Answers attempt (broken f ∷ rest) h = elim (Bool-cases (is_refused f.failure)) [
    | inl refused ↦ let h₁ = rw refused at h in await_answer-Answers attempt rest h₁
    | inr failed ↦ let h₁ = rw failed at h in cc
  ]
  await_answer-Answers attempt (datagram source bytes replied connected ∷ rest) {report} h =
      elim (Bool-cases (is_answer read_packet config source bytes)) [
        | inr other ↦
            let h₁ = rw other at h in
            let (same, later) = await_answer-Answers attempt rest h₁ in (same, inr later)
        | inl good ↦
            let h₁ = rw good at h in
            let (_, e, h₂) = through_first (or_udp replied) _ h₁ in
            let (_, e₁, h₃) = through_first (or_udp connected) _ h₂ in
            let made : HolePunchReport = record {
              selected_peer = source;
              punch_attempts = attempt;
            } in
            let one : made ≡ report = cc h₃ in
            (
              sym (ap (λ (r : HolePunchReport). r.punch_attempts) one),
              inl (
                ap (λ (r : HolePunchReport). r.selected_peer) one,
                good,
                or_udp-ok replied e,
                or_udp-ok connected e₁,
              ),
            )
      ]

  punch_once-Answers :
      (attempt : ℕ) (a : Attempt) {report : HolePunchReport}
      → punch_once read_packet config attempt a ≡ ok (some report)
      → (report.punch_attempts ≡ attempt)
        × Answers read_packet config report.selected_peer a.arrivals
  unfolding punch_once
  punch_once-Answers attempt a run =
      let (_, e, h) = through_first (send_to_all a.sends config.peer_candidates) _ run in
      await_answer-Answers attempt a.arrivals h

  punch_from-Answers :
      (attempt left : ℕ) (socket : ℕ → Attempt) {report : HolePunchReport}
      → punch_from read_packet config attempt left socket ≡ ok report
      → (attempt ≤ report.punch_attempts)
        × (report.punch_attempts < attempt + left)
        × Answers read_packet config report.selected_peer (socket report.punch_attempts).arrivals
  unfolding punch_from
  punch_from-Answers attempt zero socket h = cc
  punch_from-Answers attempt (suc left) socket {report} h =
      elim (Outcome-cases (punch_once read_packet config attempt (socket attempt))) [
        | inr (reason, q) ↦ let h₁ = rw (punch_from, q) at h in cc
        | inl (none, q) ↦
            let h₁ = rw (punch_from, q) at h in
            let (low, high, found) = punch_from-Answers (suc attempt) left socket h₁ in
            (omega arith, omega arith, found)
        | inl (some early, q) ↦
            let h₁ = rw (punch_from, q) at h in
            let one : early ≡ report = cc h₁ in
            let (same, found) = punch_once-Answers attempt (socket attempt) q in
            let same₁ : report.punch_attempts ≡ attempt =
              ap (λ (r : HolePunchReport). r.punch_attempts) (sym one) ∙ same in
            let found₁ =
              subst
                (λ (r : HolePunchReport).
                  Answers read_packet config r.selected_peer (socket attempt).arrivals)
                one found in
            (
              omega arith,
              omega arith,
              subst (λ n. Answers read_packet config report.selected_peer (socket n).arrivals)
                  (sym same₁) found₁,
            )
      ]

  -- A hole punch that succeeds took between one attempt and as many as are configured, and chose a peer
  -- from which a datagram arrived in the attempt that it reports: one of the candidates, which sent the
  -- room and the session key of the configuration in a packet of version 1, and to which the answer and
  -- the connection went well. Whatever else arrives, of strangers or with another key, is never chosen.
  pub punch_hole-Answers :
      (socket : ℕ → Attempt) (report : HolePunchReport)
      → punch_hole read_packet config socket ≡ ok report
      → (1 ≤ report.punch_attempts)
        × (report.punch_attempts ≤ config.attempts)
        × Answers read_packet config report.selected_peer (socket report.punch_attempts).arrivals
  unfolding punch_hole
  punch_hole-Answers socket report run =
      let (low, high, found) = punch_from-Answers 1 config.attempts socket run in
      (low, omega arith, found)
