-- ===== src/Relay/Rate.antt =====
-- The rate limit of a relay connection: services/relay/src/main.rs, `exceeds_rate_limit`.
use open_cade.Prelude.{
  ◌⊎◌, ◌∙◌, sym, ap, min, ℕ, List, [], ◌∷◌, ◌+◌, ◌-◌, ◌*◌, ◌≤◌, ◌<◌, ◌≡◌, refl, false, Option, none,
  some, length, if◌then◌else◌, All, arith, Bool-cases, inl, inr,
}
use open_cade.Relay.Session.{
  usize_max, u32_max, Window, roll, charge, over_limit, exceeds_rate_limit, max_messages_per_second,
  max_bytes_per_second, one_second,
}

-- A data frame: the clock that the limit reads, the clock that a new window would start at, and
-- the frame's length.
pub record Arrival : Type 0 where
  pub now : ℕ
  pub later : ℕ
  pub size : ℕ

-- The frames in turn; `none`: one exceeded the limit, and the connection was dropped.
unfoldable pub accept_all : Window → List Arrival → Option Window
accept_all w [] = some w
accept_all w (a ∷ as') =
    let (w', exceeded) = exceeds_rate_limit w a.now a.later a.size in
    let rest = accept_all w' as' in if exceeded then none else rest

abbrev pub total_size : List Arrival → ℕ
total_size [] = 0
total_size (a ∷ as') = a.size + total_size as'

pub record IsWithin (w : Window) : Type 0 where
  pub few : w.messages ≤ max_messages_per_second
  pub light : w.bytes ≤ max_bytes_per_second

-- The frame comes less than a second after the instant, and the clock does not go back.
abbrev pub SoonAfter : ℕ → Arrival → Type 0
SoonAfter t a = (t ≤ a.now) × (a.now < t + one_second) × (a.now ≤ a.later)

charged :
    (w : Window) (n : ℕ)
    → IsWithin w
    → over_limit (charge w n) ≡ false
    → ((charge w n).messages ≡ w.messages + 1)
      × ((charge w n).bytes ≡ w.bytes + n)
      × ((charge w n).window_started ≡ w.window_started)
      × IsWithin (charge w n)
unfolding charge
charged w n h e =
    let few : min (w.messages + 1) u32_max ≤ max_messages_per_second = ground arith in
    let light : min (w.bytes + n) usize_max ≤ max_bytes_per_second = ground arith in
    (omega arith, omega arith, refl, record { few = few; light = light })

roll-cases :
    (w : Window) (now later : ℕ)
    → ((now - w.window_started < one_second) × (roll w now later ≡ w))
      ⊎ ((one_second ≤ now - w.window_started)
          × (roll w now later ≡ record { window_started = later; messages = 0; bytes = 0 }))
unfolding roll
roll-cases w now later = ground arith

-- What a frame that is let through does to the window: it is counted in the old one, or it is the
-- first of a new one.
abbrev Counted : Window → Arrival → Window → Type 0
Counted w a w' =
    IsWithin w'
    × (((a.now - w.window_started < one_second)
          × (w'.window_started ≡ w.window_started)
          × (w'.messages ≡ w.messages + 1)
          × (w'.bytes ≡ w.bytes + a.size))
        ⊎ ((one_second ≤ a.now - w.window_started)
            × (w'.window_started ≡ a.later)
            × (w'.messages ≡ 1)
            × (w'.bytes ≡ a.size)))

exceeds_rate_limit-Counted :
    (w : Window) (a : Arrival)
    → IsWithin w
    → (exceeds_rate_limit w a.now a.later a.size).1 ≡ false
    → Counted w a (exceeds_rate_limit w a.now a.later a.size).0
unfolding exceeds_rate_limit
exceeds_rate_limit-Counted w a h e = elim (roll-cases w a.now a.later) [
  | inl (inside, r) ↦
      let (m, b, s, v) =
        charged w a.size h (rw (ap (λ v. over_limit (charge v a.size)) (sym r)) e) in
      rw r (v, inl (inside, s, m, b))
  | inr (over, r) ↦
      let new : Window = record { window_started = a.later; messages = 0; bytes = 0 } in
      let (m, b, s, v) =
        charged new a.size (omega arith) (ap (λ v. over_limit (charge v a.size)) (sym r) ∙ e) in
      rw r (v, inr (over, s, omega arith, omega arith))
]

-- From a window inside the limits, frames that are all let through and all come less than a second
-- after its start are, with what it held, at most 128 messages and 1 MiB.
pub accept_all_window :
    (w w' : Window) (as' : List Arrival)
    → IsWithin w
    → accept_all w as' ≡ some w'
    → All (λ a. a.now < w.window_started + one_second) as'
    → (w.messages + length as' ≤ max_messages_per_second)
      × (w.bytes + total_size as' ≤ max_bytes_per_second)
unfolding accept_all
accept_all_window w w' [] h e soon = (omega arith, omega arith)
accept_all_window w w' (a ∷ as') h e soon =
    elim (Bool-cases (exceeds_rate_limit w a.now a.later a.size).1) [
      | inl exceeded ↦ absurd (ground arith)
      | inr fine ↦
          let v : Window = (exceeds_rate_limit w a.now a.later a.size).0 in
          let c : Counted w a v = exceeds_rate_limit-Counted w a h fine in
          let e' : accept_all v as' ≡ some w' = ground arith in
          let same : v.window_started ≡ w.window_started = ground arith in
          let ih = accept_all_window v w' as' c.0 e' (rw same soon.1) in ground arith
    ]

near :
    (t start : ℕ) (as' : List Arrival)
    → t ≤ start
    → All (SoonAfter t) as'
    → All (λ a. a.now < start + one_second) as'
near t start [] h soon = tt
near t start (a ∷ as') h soon = (omega arith, near t start as' h soon.1)

-- From a window inside the limits, frames that are all let through and all come less than a second
-- after one instant, by a clock that does not go back, are, with what the window held, at most 256
-- messages and 2 MiB.
pub accept_all_burst :
    (t : ℕ) (w w' : Window) (as' : List Arrival)
    → IsWithin w
    → accept_all w as' ≡ some w'
    → All (SoonAfter t) as'
    → (w.messages + length as' ≤ 2 * max_messages_per_second)
      × (w.bytes + total_size as' ≤ 2 * max_bytes_per_second)
unfolding accept_all
accept_all_burst t w w' [] h e soon = (omega arith, omega arith)
accept_all_burst t w w' (a ∷ as') h e soon =
    elim (Bool-cases (exceeds_rate_limit w a.now a.later a.size).1) [
      | inl exceeded ↦ absurd (ground arith)
      | inr fine ↦
          let v : Window = (exceeds_rate_limit w a.now a.later a.size).0 in
          let c : Counted w a v = exceeds_rate_limit-Counted w a h fine in
          let e' : accept_all v as' ≡ some w' = ground arith in
          elim c.1 [
            | inl inside ↦
                let ih = accept_all_burst t v w' as' c.0 e' soon.1 in (omega arith, omega arith)
            | inr over ↦
                let tail =
                  accept_all_window v w' as' c.0 e'
                    (near t v.window_started as' (omega arith) soon.1) in
                (omega arith, omega arith)
          ]
    ]
