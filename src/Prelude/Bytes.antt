-- ===== src/Prelude/Bytes.antt =====
-- Bytes: `^` on the unsigned integers, big-endian integers, and slices that panic out of range.
use Prim.Native.Nat.{
  ℕ, zero, suc, ◌+◌, ◌*◌, ◌/◌, ◌%◌, ◌^◌, ◌≤◌, ◌<◌, bit_xor, digits, differ, bit_xor-bitwise,
}
use mathlib.Core.Path.{◌≡◌, refl}
use mathlib.Core.List.{[], ◌∷◌}
use native.Mathlib.Nat.{pow-suc}
use native.Mathlib.Omega.{arith}
use open_cade.Prelude.Lists.{length, All}
use open_cade.Prelude.Text.{Text}

-- The value of the digits from the lowest on, as the native operation has it.
xor_digits : ℕ → ℕ → ℕ → ℕ
xor_digits fuel a b = digits (λ rest. rest) differ fuel a b

-- Rounds after the last digit of the first number change nothing.
xor_digits_stable : (n m a b : ℕ) → a ≤ n → a ≤ m → xor_digits n a b ≡ xor_digits m a b
unfolding xor_digits
xor_digits_stable zero zero a b p q = refl
xor_digits_stable zero (suc m) zero b p q = refl
xor_digits_stable zero (suc m) (suc a) b p q = absurd (omega arith)
xor_digits_stable (suc n) zero zero b p q = refl
xor_digits_stable (suc n) zero (suc a) b p q = absurd (omega arith)
xor_digits_stable (suc n) (suc m) zero b p q = refl
xor_digits_stable (suc n) (suc m) (suc a) b p q =
    omega (arith, xor_digits_stable n m (suc a / 2) (b / 2) (omega arith) (omega arith))

zero-bit_xor : (b : ℕ) → bit_xor 0 b ≡ b
zero-bit_xor b = bit_xor-bitwise 0 b

differ_zero : (y : ℕ) → differ 0 y ≡ y
differ_zero y = refl

bit_xor_step : (a b : ℕ) → bit_xor a b ≡ bit_xor (a / 2) (b / 2) * 2 + differ (a % 2) (b % 2)
unfolding xor_digits
bit_xor_step zero b = omega (arith, zero-bit_xor b, zero-bit_xor (b / 2), differ_zero (b % 2))
bit_xor_step (suc a) b = omega (
  arith,
  bit_xor-bitwise (suc a) b,
  bit_xor-bitwise (suc a / 2) (b / 2),
  xor_digits_stable a (suc a / 2) (suc a / 2) (b / 2) (omega arith) (omega arith),
)

-- On the digits 0 and 1.
differ_digits : (x y : ℕ) → x < 2 → y < 2 → (differ x y < 2) × (differ (differ x y) y ≡ x)
differ_digits zero zero p q = (omega arith, refl)
differ_digits zero (suc zero) p q = (omega arith, refl)
differ_digits (suc zero) zero p q = (omega arith, refl)
differ_digits (suc zero) (suc zero) p q = (omega arith, refl)
differ_digits (suc (suc x)) y p q = absurd (omega arith)
differ_digits x (suc (suc y)) p q = absurd (omega arith)

pub bit_xor-lt : (k a b : ℕ) → a < 2 ^ k → b < 2 ^ k → bit_xor a b < 2 ^ k
bit_xor-lt zero a b p q =
    let none_left : a ≡ 0 = omega arith in rw none_left (omega (arith, zero-bit_xor b))
bit_xor-lt (suc k) a b p q = omega (
  arith,
  pow-suc 2 k,
  bit_xor_step a b,
  differ_digits (a % 2) (b % 2) (omega arith) (omega arith),
  bit_xor-lt k (a / 2) (b / 2) (omega (arith, pow-suc 2 k)) (omega (arith, pow-suc 2 k)),
)

halves :
    (a b : ℕ)
    → (bit_xor a b / 2 ≡ bit_xor (a / 2) (b / 2)) × (bit_xor a b % 2 ≡ differ (a % 2) (b % 2))
halves a b =
    omega (arith, bit_xor_step a b, differ_digits (a % 2) (b % 2) (omega arith) (omega arith))

-- A mask that is applied twice is gone.
pub bit_xor_involutive : (k a m : ℕ) → a < 2 ^ k → m < 2 ^ k → bit_xor (bit_xor a m) m ≡ a
bit_xor_involutive zero a m p q =
    let left : a ≡ 0 = omega arith in let right : m ≡ 0 = omega arith in rw (left, right) refl
bit_xor_involutive (suc k) a m p q =
    let ih =
      bit_xor_involutive k (a / 2) (m / 2) (omega (arith, pow-suc 2 k))
        (omega (arith, pow-suc 2 k)) in
    let low = differ_digits (a % 2) (m % 2) (omega arith) (omega arith) in
    let whole : bit_xor (bit_xor a m) m
        ≡ bit_xor (bit_xor (a / 2) (m / 2)) (m / 2) * 2 + differ (differ (a % 2) (m % 2)) (m % 2) =
      cc (bit_xor_step (bit_xor a m) m, (halves a m).0, (halves a m).1) in
    omega (arith, whole, ih, low)

-- `u16::to_be_bytes` and `from_be_bytes`
abbrev pub to_be_bytes : ℕ → Text
to_be_bytes n = n / 256 % 256 ∷ n % 256 ∷ []

abbrev pub from_be_bytes : ℕ → ℕ → ℕ
from_be_bytes high low = high * 256 + low

pub from_be_bytes_lem : (n : ℕ) → n < 2 ^ 16 → from_be_bytes (n / 256 % 256) (n % 256) ≡ n
from_be_bytes_lem n h = omega arith

-- `for (octet, mask) in octets.iter_mut().zip(masks) { *octet ^= mask }`
unfoldable pub xor_each : Text → Text → Text
xor_each [] masks = []
xor_each (octet ∷ octets) [] = octet ∷ octets
xor_each (octet ∷ octets) (mask ∷ masks) = bit_xor octet mask ∷ xor_each octets masks

abbrev pub IsByte : ℕ → Type 0
IsByte n = n < 2 ^ 8

pub length-xor_each : (octets masks : Text) → length (xor_each octets masks) ≡ length octets
unfolding xor_each
length-xor_each [] masks = refl
length-xor_each (octet ∷ octets) [] = refl
length-xor_each (octet ∷ octets) (mask ∷ masks) = omega (arith, length-xor_each octets masks)

pub xor_each_involutive :
    (octets masks : Text)
    → All IsByte octets
    → All IsByte masks
    → xor_each (xor_each octets masks) masks ≡ octets
unfolding xor_each
xor_each_involutive [] masks h hm = refl
xor_each_involutive (octet ∷ octets) [] h hm = refl
xor_each_involutive (octet ∷ octets) (mask ∷ masks) h hm =
    cc (bit_xor_involutive 8 octet mask h.0 hm.0, xor_each_involutive octets masks h.1 hm.1)
