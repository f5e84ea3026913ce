-- ===== src/Networking/Probe/Tests.antt =====
-- probe.rs on short runs, and the checksum of its own 60 frames.
use open_cade.Prelude.{some, none, map, Option, ℕ, ◌≡◌, refl, arith, false, List, [], ◌∷◌, All}
use open_cade.Networking.Probe.{
  some, none, Option, MatchProbeConfig, Tick, silence, failure, absorb, deterministic_input,
}
use open_cade.Prelude.Text.{codes, text_eq, is_blank}
use open_cade.Prelude.Digits.{show_hex}
use open_cade.Prelude.Net.{SocketAddr, socket_addr, v4}
use open_cade.Prelude.Outcome.{err, ok}
use open_cade.Sdk.{host, guest, direct_udp}
use open_cade.Networking.{timeout, peer_unavailable, peer_mismatch}
use open_cade.Networking.Probe.Run.{run_match_probe_with, MatchProbeReport, report_of}
use open_cade.Networking.Probe.Honest.{transcript}
use open_cade.Networking.Probe.Transcript.{HonestTick, run_match_probe_with-agree}
use open_cade.Networking.Probe.Lossless.{
  grace, delivery, deliveries, run_match_probe_with-deliveries,
}

abbrev port_of : ℕ → SocketAddr
port_of port = socket_addr (v4 (127 ∷ 0 ∷ 0 ∷ 1 ∷ [])) port

abbrev host_side : MatchProbeConfig
host_side = record {
  descriptor = record {
    room_id = codes "room-1";
    game_id = codes "sfiii3";
    local_user_id = codes "host";
    peer_user_id = codes "guest";
    role = host;
    transport = direct_udp;
    local_endpoint = port_of 41000;
    peer_endpoint = port_of 41001;
    input_delay_frames = 2;
  };
  session_key = codes "session-1";
  frame_count = 2;
  time_limit = 1;
}

abbrev guest_side : MatchProbeConfig
guest_side = record {
  descriptor = record {
    room_id = codes "room-1";
    game_id = codes "sfiii3";
    local_user_id = codes "guest";
    peer_user_id = codes "host";
    role = guest;
    transport = direct_udp;
    local_endpoint = port_of 41001;
    peer_endpoint = port_of 41000;
    input_delay_frames = 2;
  };
  session_key = codes "session-1";
  frame_count = 2;
  time_limit = 1;
}

-- The checksum of a whole proof.
sixty_frames : show_hex 16 (transcript 60) ≡ codes "80896395aaa3d09d"
unfolding show_hex transcript absorb deterministic_input
sixty_frames = refl

abbrev quiet : Tick
quiet = record { arrival = silence; send_result = ok tt }

abbrev unavailable : Tick
unavailable = record { arrival = failure peer_unavailable; send_result = ok tt }

-- A wait in vain, a peer that is not up, and a frame that comes twice.
abbrev bumpy : MatchProbeConfig → List Tick
bumpy c = quiet ∷ unavailable ∷ delivery c 0 ∷ delivery c 0 ∷ delivery c 1 ∷ []

-- What a side that sent so many frames reports.
abbrev reported : MatchProbeConfig → ℕ → MatchProbeReport
reported c frames_sent =
    report_of c 240
      (record { frame_number = 2; frames_sent = frames_sent; checksum = transcript 2; outbox = [] })

host_run :
    run_match_probe_with host_side (ok tt) (bumpy host_side) [] 240 ≡ ok (reported host_side 5)
unfolding run_match_probe_with transcript text_eq is_blank
host_run = refl

guest_run :
    run_match_probe_with guest_side (ok tt) (deliveries guest_side 0 2) [] 240
    ≡ ok (reported guest_side 2)
unfolding run_match_probe_with transcript text_eq is_blank
guest_run = refl

host_late :
    run_match_probe_with host_side (ok tt) (quiet ∷ delivery host_side 0 ∷ []) [] 240
    ≡ err (timeout 1 2)
unfolding run_match_probe_with text_eq is_blank
host_late = refl

stranger :
    run_match_probe_with host_side (ok tt) (delivery guest_side 0 ∷ []) [] 240 ≡ err peer_mismatch
unfolding run_match_probe_with text_eq is_blank
stranger = refl

bumpy_honest : All (HonestTick host_side) (bumpy host_side)
bumpy_honest = (tt, (tt, (refl, (refl, (refl, tt)))))

run_match_probe_with-agree_example :
    (reported host_side 5).transcript_checksum ≡ (reported guest_side 2).transcript_checksum
run_match_probe_with-agree_example =
    run_match_probe_with-agree host_side guest_side (ok tt) (ok tt) (bumpy host_side) []
      (deliveries guest_side 0 2) [] 240 240 (reported host_side 5) (reported guest_side 2) refl
      bumpy_honest (refl, (refl, tt)) host_run guest_run

host_named : is_blank (codes "host") ≡ false
unfolding is_blank
host_named = refl

-- The peer is silent, and then sends its last frame again.
abbrev late_ticks : List (Option ℕ)
late_ticks = none ∷ some 1 ∷ []

run_match_probe_with-deliveries_example :
    (report : MatchProbeReport) × (run_match_probe_with host_side
        (ok tt)
        (deliveries host_side 0 2)
        (map (grace host_side) late_ticks)
        240
      ≡ ok report)
    × (report.transcript_checksum ≡ show_hex 16 (transcript 2))
    × (report.frames_received ≡ 2)
    × (report.frames_sent ≡ 4)
run_match_probe_with-deliveries_example =
    run_match_probe_with-deliveries host_side host_named late_ticks 240 (omega arith)
