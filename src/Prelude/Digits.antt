-- ===== src/Prelude/Digits.antt =====
-- `Display` of the integer types: decimal digits, most significant first.
use Prim.Native.Nat.{ℕ, zero, suc, ◌+◌, ◌-◌, ◌*◌, ◌/◌, ◌%◌, ◌≤◌, ◌<◌}
use mathlib.Core.Path.{◌≡◌, refl, sym, ap, ◌∙◌}
use mathlib.Core.Logic.{◌≢◌}
use mathlib.Core.List.{[], ◌∷◌, ◌++◌}
use native.Mathlib.Omega.{arith}
use open_cade.Prelude.Tests.{ltb, if◌then◌else◌, Bool-cases}
use open_cade.Prelude.Lists.{All, All-append}
use open_cade.Prelude.Text.{Text, codes}
use open_cade.Prelude.Int.{ℤ, pos, negsuc}
use mathlib.Core.Logic.{inl, inr}

-- One digit a round; `n < fuel` is enough, since a round divides by ten.
show_fuel : ℕ → ℕ → Text
show_fuel zero n = []
show_fuel (suc fuel) n =
    let rest = show_fuel fuel (n / 10) ++ (b'0' + n % 10) ∷ [] in
    if ltb n 10 then (b'0' + n) ∷ [] else rest

unfoldable pub show_ℕ : ℕ → Text
unfolding show_fuel
show_ℕ n = show_fuel (suc n) n

unfoldable pub show_ℤ : ℤ → Text
unfolding show_ℕ
show_ℤ (pos n) = show_ℕ n
show_ℤ (negsuc n) = b'-' ∷ show_ℕ (suc n)

value_from : ℕ → Text → ℕ
value_from acc [] = acc
value_from acc (c ∷ cs) = value_from (acc * 10 + (c - b'0')) cs

value_from-snoc :
    (acc : ℕ) (xs : Text) (c : ℕ)
    → value_from acc (xs ++ c ∷ []) ≡ value_from acc xs * 10 + (c - b'0')
unfolding value_from
value_from-snoc acc [] c = refl
value_from-snoc acc (x ∷ xs) c = value_from-snoc (acc * 10 + (x - b'0')) xs c

-- The digits denote the number, so it can be read back.
value-show_fuel : (fuel n : ℕ) → n < fuel → value_from 0 (show_fuel fuel n) ≡ n
unfolding show_fuel value_from
value-show_fuel zero n h = elim h [ ]
value-show_fuel (suc fuel) n h = elim (Bool-cases (ltb n 10)) [
  | inl small ↦ rw small (omega arith)
  | inr large ↦ rw large (
      value_from-snoc 0 (show_fuel fuel (n / 10)) (b'0' + n % 10)
      ∙ (let ih : value_from 0 (show_fuel fuel (n / 10)) ≡ n / 10 =
            value-show_fuel fuel (n / 10) (ground arith) in
          rw ih (omega arith)))
]

-- A decimal digit.
abbrev pub IsDigit : ℕ → Type 0
IsDigit c = (b'0' ≤ c) × (c ≤ b'9')

show_fuel-IsDigit : (fuel n : ℕ) → All IsDigit (show_fuel fuel n)
unfolding show_fuel
show_fuel-IsDigit zero n = tt
show_fuel-IsDigit (suc fuel) n = elim (Bool-cases (ltb n 10)) [
  | inl small ↦ rw small ((omega arith, ground arith), tt)
  | inr large ↦ rw large (
      All-append IsDigit (show_fuel fuel (n / 10)) _ (show_fuel-IsDigit fuel (n / 10))
        ((omega arith, omega arith), tt))
]

pub show_ℕ-injective : (m n : ℕ) → show_ℕ m ≡ show_ℕ n → m ≡ n
unfolding show_ℕ
show_ℕ-injective m n e =
    sym (value-show_fuel (suc m) m (omega arith))
    ∙ ap (value_from 0) e
    ∙ value-show_fuel (suc n) n (omega arith)

weaken : (xs : Text) → All IsDigit xs → All (λ c. c ≢ b':') xs
weaken [] h = tt
weaken (x ∷ xs) h = (omega arith, weaken xs h.1)

-- Neither digits nor the sign is a colon.
pub show_ℕ-Lacks : (n : ℕ) → All (λ c. c ≢ b':') (show_ℕ n)
unfolding show_ℕ
show_ℕ-Lacks n = weaken _ (show_fuel-IsDigit (suc n) n)

pub show_ℤ-Lacks : (z : ℤ) → All (λ c. c ≢ b':') (show_ℤ z)
unfolding show_ℤ
show_ℤ-Lacks (pos n) = show_ℕ-Lacks n
show_ℤ-Lacks (negsuc n) = (omega arith, show_ℕ-Lacks (suc n))

minus_not_digits : (xs ys : Text) → All IsDigit xs → xs ≡ b'-' ∷ ys → ⊥
minus_not_digits [] ys h e = cc
minus_not_digits (x ∷ xs) ys h e = let here : x ≡ b'-' = cc in omega arith

pub show_ℤ-injective : (a b : ℤ) → show_ℤ a ≡ show_ℤ b → a ≡ b
unfolding show_ℤ
show_ℤ-injective (pos m) (pos n) e = ap pos (show_ℕ-injective m n e)
show_ℤ-injective (pos m) (negsuc n) e =
    absurd (minus_not_digits (show_ℕ m) _ (show_fuel-IsDigit (suc m) m) e)
show_ℤ-injective (negsuc m) (pos n) e =
    absurd (minus_not_digits (show_ℕ n) _ (show_fuel-IsDigit (suc n) n) (sym e))
show_ℤ-injective (negsuc m) (negsuc n) e =
    let same : suc m ≡ suc n = show_ℕ-injective (suc m) (suc n) (cc) in
    let pred : m ≡ n = omega arith in ap negsuc pred

show_ℤ_example : show_ℤ (negsuc 1204) ≡ codes "-1205"
unfolding show_ℤ
show_ℤ_example = refl

abbrev hex_digit : ℕ → ℕ
hex_digit d = if ltb d 10 then b'0' + d else b'a' + (d - 10)

-- `{:0width$x}` of a number that fits: its lowercase hexadecimal digits, with zeros in front.
unfoldable pub show_hex : ℕ → ℕ → Text
show_hex zero n = []
show_hex (suc width) n = show_hex width (n / 16) ++ hex_digit (n % 16) ∷ []

show_hex_example : show_hex 16 0x376c2e852f4fd25 ≡ codes "0376c2e852f4fd25"
unfolding show_hex
show_hex_example = refl
