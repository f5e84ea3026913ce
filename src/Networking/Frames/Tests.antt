-- ===== src/Networking/Frames/Tests.antt =====
-- Two frames through the channel of packages/networking/src/lib.rs.
use open_cade.Prelude.{true, ℕ, ◌≡◌, refl, [], ◌∷◌}
use open_cade.Networking.{true}
use open_cade.Networking.Frames.{InputFrame, new_frame}
use open_cade.Networking.Frames.Queue.{receive_all}
use open_cade.Prelude.Text.{codes, is_blank}
use open_cade.Prelude.Outcome.{ok}

abbrev frame_of : ℕ → InputFrame
frame_of n = record { frame = n; player_id = codes "p1"; input = 1 ∷ 0 ∷ [] }

frame_made : new_frame 3 (codes "p1") (1 ∷ 0 ∷ []) ≡ ok (frame_of 3)
unfolding new_frame is_blank
frame_made = refl

both_delivered :
    receive_all 2
      (record { queue = frame_of 1 ∷ frame_of 2 ∷ []; receiver_alive = true; sender_alive = true })
    ≡ frame_of 1 ∷ frame_of 2 ∷ []
unfolding receive_all
both_delivered = refl
