-- ===== src/Limiter/Tests.antt =====
-- The limiter at concrete inputs: apps/server/src/auth_rate_limit.rs.
use open_cade.Prelude.{ap, ◌≤◌, ◌≡◌, List, [], ◌∷◌, length, arith}
use open_cade.Prelude.Assoc.{text_eq_instance}
use open_cade.Prelude.Text.{Text, codes}
use open_cade.Limiter.Window.{Check, passes, passes-le}

abbrev checks : List Check
checks =
    record { key = codes "login"; limit = 2; now = 10 }
    ∷ record { key = codes "signup"; limit = 5; now = 11 }
    ∷ record { key = codes "login"; limit = 2; now = 12 }
    ∷ record { key = codes "login"; limit = 2; now = 13 }
    ∷ []

passes-le_example : passes (codes "login") checks [] ≤ 2
passes-le_example =
    passes-le 10 (codes "login") 2 0 checks [] tt
      (omega arith, (omega arith, (omega arith, (omega arith, tt))))
      (
        (omega arith, omega arith, λ e. omega arith),
        (
          (omega arith, omega arith, λ e. absurd (other_key e)),
          (
            (omega arith, omega arith, λ e. omega arith),
            ((omega arith, omega arith, λ e. omega arith), tt),
          ),
        ),
      )
  where
    other_key : codes "signup" ≡ codes "login" → ⊥
    other_key e = omega (arith, ap (λ (t : Text). length t) e)
