-- ===== src/Networking/Probe/Honest.antt =====
-- What a probe sends and what it adds up, frame by frame.
use open_cade.Networking.Probe.{
  is_blank, MatchProbeConfig, input_packet, hole_punch_packet, Exchange, Arrival, silence, failure,
  packet, fnv_offset_basis, my_frame, on_arrival, on_remote, transmit, send_probe_frame,
  validated_remote_frame, mismatches, deterministic_frame, deterministic_input, absorb,
  update_transcript_checksum,
}
use open_cade.Prelude.{
  ℕ, zero, suc, ◌+◌, ◌≤◌, ◌≡◌, refl, sym, subst, arith, ltb, Option, some, [], ◌∷◌, ◌++◌, All,
  All-append, Bool-cases, ◌⊎◌, inl, inr,
}
use open_cade.Prelude.Text.{Text}
use open_cade.Prelude.Outcome.{Outcome, ok, fail_if, through_first}
use open_cade.Sdk.{PeerRole, host, guest}
use open_cade.Networking.{TransportError, peer_unavailable}
use open_cade.Networking.Frames.{InputFrame, new_frame}

abbrev pub opposite : PeerRole → PeerRole
opposite host = guest
opposite guest = host

-- The frame that a player in the role sends under its number.
abbrev pub IsFrameOf : Text → PeerRole → InputFrame → Type 0
IsFrameOf player_id role f =
    (f.player_id ≡ player_id) × (f.input ≡ deterministic_input f.frame role ∷ [])

pub deterministic_frame-IsFrameOf :
    (number : ℕ) (player_id : Text) (role : PeerRole) {f : InputFrame}
    → deterministic_frame number player_id role ≡ ok f
    → IsFrameOf player_id role f × (f.frame ≡ number)
unfolding deterministic_frame new_frame
deterministic_frame-IsFrameOf number player_id role {f = f} run =
    let (_, e, h) = through_first (fail_if (is_blank player_id) _) _ run in
    let same : record {
      frame = number;
      player_id = player_id;
      input = deterministic_input number role ∷ [];
    }
        ≡ f =
      cc in
    let player : f.player_id ≡ player_id = cc in
    let number_kept : f.frame ≡ number = cc in ((player, cc), number_kept)

transmit-ok :
    (result : Outcome TransportError (Unit {0})) (f : InputFrame) (e : Exchange) {after : Exchange}
    → transmit result f e ≡ ok after
    → record e { frames_sent = suc e.frames_sent; outbox = e.outbox ++ f ∷ [] } ≡ after
unfolding transmit
transmit-ok result f e run = let (_, q, h) = through_first (send_probe_frame result) _ run in cc

-- The checksum of the first frames of a match, from both players' inputs, the host's first.
unfoldable pub transcript : ℕ → ℕ
transcript zero = fnv_offset_basis
transcript (suc n) =
    absorb (deterministic_input n host ∷ deterministic_input n guest ∷ []) (transcript n)

module _ (config : MatchProbeConfig) where
  abbrev me : Text
  me = config.descriptor.local_user_id

  abbrev my_role : PeerRole
  my_role = config.descriptor.role

  -- The sum is the transcript up to the open frame, all frames are the player's own, and at least so
  -- many were sent.
  pub record Sound (slack : ℕ) (e : Exchange) : Type 0 where
    pub summed : e.checksum ≡ transcript e.frame_number
    pub sent : slack + e.frame_number ≤ e.frames_sent
    pub own : All (IsFrameOf me my_role) e.outbox

  -- An input of the other player's is the one of its number.
  abbrev pub HonestArrival : Arrival → Type 0
  HonestArrival (packet (input_packet room_id session_key frame)) =
      frame.input ≡ deterministic_input frame.frame (opposite my_role) ∷ []
  HonestArrival (packet (hole_punch_packet version room_id session_key)) = Unit
  HonestArrival silence = Unit
  HonestArrival (failure reason) = Unit

  pub transmit-Sound :
      (slack : ℕ) (result : Outcome TransportError (Unit {0})) (f : InputFrame) (e : Exchange)
      {after : Exchange}
      → IsFrameOf me my_role f
      → transmit result f e ≡ ok after
      → Sound slack e
      → Sound (suc slack) after × (after.frame_number ≡ e.frame_number)
  transmit-Sound slack result f e {after = after} mine run s =
      let same = transmit-ok result f e run in
      subst (λ (x : Exchange). Sound (suc slack) x × (x.frame_number ≡ e.frame_number)) same
        (
          record {
            summed = s.summed;
            sent = omega (arith, s.sent);
            own = All-append (IsFrameOf me my_role) e.outbox (f ∷ []) s.own (mine, tt);
          },
          refl,
        )

  update_transcript_checksum-transcript :
      (mine remote : InputFrame) (number : ℕ)
      → mine.input ≡ deterministic_input number my_role ∷ []
      → remote.input ≡ deterministic_input number (opposite my_role) ∷ []
      → update_transcript_checksum (transcript number) my_role mine remote ≡ transcript (suc number)
  unfolding update_transcript_checksum transcript
  update_transcript_checksum-transcript mine remote number own other = go my_role own other
    where
      go :
          (role : PeerRole)
          → mine.input ≡ deterministic_input number role ∷ []
          → remote.input ≡ deterministic_input number (opposite role) ∷ []
          → update_transcript_checksum (transcript number) role mine remote
            ≡ transcript (suc number)
      go host own other = rw (own, other) refl
      go guest own other = rw (own, other) refl

  pub Sound-weaken : (slack less : ℕ) (e : Exchange) → less ≤ slack → Sound slack e → Sound less e
  Sound-weaken slack less e le s = record {
    summed = s.summed;
    sent = omega (arith, s.sent);
    own = s.own;
  }

  -- The frame stays open, or it is closed and counted.
  abbrev pub Progress : Exchange → Exchange → Type 0
  Progress e after =
      (Sound 1 after × (after.frame_number ≡ e.frame_number))
      ⊎ (Sound 0 after × (after.frame_number ≡ suc e.frame_number))

  sent_again :
      (result : Outcome TransportError (Unit {0})) (f : InputFrame) (e : Exchange)
      {after : Exchange}
      → IsFrameOf me my_role f
      → transmit result f e ≡ ok after
      → Sound 1 e
      → Progress e after
  sent_again result f e {after = after} mine run s =
      let (kept, same) = transmit-Sound 1 result f e mine run s in
      inl (Sound-weaken 2 1 after (omega arith) kept, same)

  on_remote-Progress :
      (result : Outcome TransportError (Unit {0})) (mine remote : InputFrame) (e : Exchange)
      {after : Exchange}
      → IsFrameOf me my_role mine
      → mine.frame ≡ e.frame_number
      → remote.input ≡ deterministic_input remote.frame (opposite my_role) ∷ []
      → on_remote config result mine remote e ≡ ok after
      → Sound 1 e
      → Progress e after
  unfolding on_remote
  on_remote-Progress result mine remote e {after = after} own number other run s =
      elim (Bool-cases (ltb remote.frame e.frame_number)) [
        | inl older ↦
            let h = rw (older, on_remote) at run in
            let (previous, q, h₁) = through_first (my_frame config remote.frame) _ h in
            sent_again result previous e (deterministic_frame-IsFrameOf remote.frame me my_role q).0
              h₁ s
        | inr not_older ↦ elim (Bool-cases (ltb e.frame_number remote.frame)) [
          | inl newer ↦
              let h = rw (not_older, newer, on_remote) at run in sent_again result mine e own h s
          | inr not_newer ↦
              let h = rw (not_older, not_newer, on_remote) at run in
              let number₁ : remote.frame ≡ e.frame_number = ground arith in
              let added =
                update_transcript_checksum-transcript mine remote e.frame_number
                  (rw number at (own.1)) (rw number₁ at other) in
              inr (
                subst (λ (x : Exchange). Sound 0 x × (x.frame_number ≡ suc e.frame_number)) (same h)
                  (
                    record {
                      summed = rw (s.summed) added;
                      sent = omega (arith, s.sent);
                      own = s.own;
                    },
                    refl,
                  ))
        ]
      ]
    where
      same :
          {before : Exchange}
          → ◌≡◌ {A = Outcome TransportError Exchange} (ok before) (ok after)
          → before ≡ after
      same h = cc

  validated_remote_frame-input :
      (room_id session_key : Text) (frame : InputFrame) {found : Option InputFrame}
      → validated_remote_frame (input_packet room_id session_key frame) config ≡ ok found
      → some frame ≡ found
  unfolding validated_remote_frame
  validated_remote_frame-input room_id session_key frame run =
      let (_, q, h) =
        through_first (fail_if (mismatches room_id session_key frame config) _) _ run in
      cc

  pub on_arrival-Progress :
      (result : Outcome TransportError (Unit {0})) (a : Arrival) (mine : InputFrame) (e : Exchange)
      {after : Exchange}
      → HonestArrival a
      → IsFrameOf me my_role mine
      → mine.frame ≡ e.frame_number
      → on_arrival config result a mine e ≡ ok after
      → Sound 1 e
      → Progress e after
  unfolding on_arrival validated_remote_frame
  on_arrival-Progress result silence mine e honest own number run s =
      sent_again result mine e own run s
  on_arrival-Progress result (failure peer_unavailable) mine e honest own number run s =
      sent_again result mine e own run s
  on_arrival-Progress result (packet (hole_punch_packet version room_id session_key)) mine e
        {after = after} honest own number run s =
      let same : e ≡ after = cc in
      inl (subst (λ (x : Exchange). Sound 1 x × (x.frame_number ≡ e.frame_number)) same (s, refl))
  on_arrival-Progress result (packet (input_packet room_id session_key frame)) mine e honest own
        number run s =
      let (found, q, h) =
        through_first (validated_remote_frame (input_packet room_id session_key frame) config) _
          run in
      let same = validated_remote_frame-input room_id session_key frame q in
      let h₁ = rw (sym same) at h in on_remote-Progress result mine frame e own number honest h₁ s
  on_arrival-Progress result (failure reason) mine e honest own number run s = cc
