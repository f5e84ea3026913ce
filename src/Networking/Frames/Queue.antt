-- ===== src/Networking/Frames/Queue.antt =====
-- The channel between two in-memory peers is a bounded queue.
use open_cade.Prelude.{
  ◌↔◌, ℕ, zero, suc, ◌+◌, ◌≤◌, ◌≡◌, refl, arith, true, false, leb, none, some, List, [], ◌∷◌, ◌++◌,
  length, length-append, append-nil, append_assoc, Bool-cases, inl, inr, ◌∙◌, ap,
}
use open_cade.Networking.{backpressure, TransportError}
use open_cade.Prelude.Outcome.{Outcome, err, ok, ◌>>=◌}
use open_cade.Networking.Frames.{
  InputFrame, Link, try_send, receive, input_queue_capacity, fresh_link,
}

-- Sends in a row.
unfoldable pub send_all : List InputFrame → Link → Outcome TransportError Link
unfolding try_send
send_all [] l = ok l
send_all (frame ∷ rest) l = try_send frame l >>= λ l. send_all rest l

-- Receives in a row, with what they gave.
unfoldable pub receive_all : ℕ → Link → List InputFrame
unfolding receive
receive_all zero l = []
receive_all (suc n) l = elim (receive l) [
  | none ↦ []
  | some (err reason) ↦ []
  | some (ok (frame, l₁)) ↦ frame ∷ receive_all n l₁
]

-- Both ends are there.
abbrev link : List InputFrame → Link
link queue = record { queue = queue; receiver_alive = true; sender_alive = true }

send_all-link :
    (frames queue : List InputFrame)
    → length queue + length frames ≤ 120
    → send_all frames (link queue) ≡ ok (link (queue ++ frames))
unfolding send_all try_send
send_all-link [] queue room = rw (append-nil queue) refl
send_all-link (frame ∷ rest) queue room =
    let free : leb input_queue_capacity (length queue) ≡ false = ground arith in
    let ih =
      send_all-link rest (queue ++ frame ∷ []) (omega (arith, length-append queue (frame ∷ []))) in
    rw (free, try_send)
      (ih ∙ ap (λ (q : List InputFrame). ok (link q)) (append_assoc queue (frame ∷ []) rest))

receive_all-link :
    (n : ℕ) (queue : List InputFrame) → n ≡ length queue → receive_all n (link queue) ≡ queue
unfolding receive_all receive
receive_all-link zero [] e = refl
receive_all-link zero (x ∷ queue) e = absurd (omega arith)
receive_all-link (suc n) [] e = absurd (omega arith)
receive_all-link (suc n) (x ∷ queue) e =
    ap (λ (q : List InputFrame). x ∷ q) (receive_all-link n queue (omega arith))

try_send-full :
    (next : InputFrame) (queue : List InputFrame)
    → length queue ≤ 120
    → (try_send next (link queue) ≡ err backpressure) ↔ (length queue ≡ 120)
unfolding try_send
try_send-full next queue room = elim (Bool-cases (leb input_queue_capacity (length queue))) [
  | inl full ↦ rw full ((λ e. ground arith), (λ e. refl))
  | inr free ↦ rw free ((λ e. cc), (λ e. absurd (ground arith)))
]

-- At most 120 frames fit between two in-memory peers, and none is lost, doubled or reordered: frames
-- that are sent in a row all go in, come out in the same order, and one more is refused with
-- `Backpressure` exactly if 120 wait.
pub send_all-receive_all :
    (frames : List InputFrame) (next : InputFrame)
    → length frames ≤ 120
    → (l : Link) × (send_all frames fresh_link ≡ ok l)
      × (receive_all (length frames) l ≡ frames)
      × ((try_send next l ≡ err backpressure) ↔ (length frames ≡ 120))
send_all-receive_all frames next room = (
  link frames,
  send_all-link frames [] (omega arith),
  receive_all-link (length frames) frames refl,
  try_send-full next frames room,
)
