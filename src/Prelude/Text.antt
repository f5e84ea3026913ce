-- ===== src/Prelude/Text.antt =====
-- Rust's `str` and `[u8]`: the bytes, which for a `str` are its UTF-8.
use Prim.Native.Char.{code}
use Prim.Native.String.{String}
use open_cade.Prelude.Tests.{◌==◌, leb, if◌then◌else◌}
use Prim.Native.Nat.{ℕ}
use mathlib.Core.Path.{◌≡◌, refl}
use mathlib.Core.Logic.{◌≢◌, ◌↔◌}
use mathlib.Core.Bool.{Bool, true, false, ◌&&◌, ◌||◌}
use mathlib.Core.List.{List, [], ◌∷◌, ◌++◌}
use mathlib.Core.Option.{Option, none, some}
use native.Mathlib.Omega.{arith}
use open_cade.Prelude.Lists.{All}

abbrev pub Text : Type 0
Text = List ℕ

-- the bytes of an ASCII literal
abbrev pub codes : String → Text
codes (String.◌∷◌ letter rest) = code letter ∷ codes rest
codes String.[] = []

-- `==` on strings and byte slices
unfoldable pub text_eq : Text → Text → Bool
text_eq [] [] = true
text_eq [] (y ∷ ys) = false
text_eq (x ∷ xs) [] = false
text_eq (x ∷ xs) (y ∷ ys) = x == y && text_eq xs ys

pub text_eq_sound : (xs ys : Text) → text_eq xs ys ≡ true → xs ≡ ys
unfolding text_eq
text_eq_sound [] [] h = refl
text_eq_sound [] (y ∷ ys) h = cc
text_eq_sound (x ∷ xs) [] h = cc
text_eq_sound (x ∷ xs) (y ∷ ys) h = ground (arith, text_eq_sound xs ys)

pub text_eq_refl : (xs : Text) → text_eq xs xs ≡ true
unfolding text_eq
text_eq_refl [] = refl
text_eq_refl (x ∷ xs) = ground (arith, text_eq_refl xs)

pub text_eq_iff : (xs ys : Text) → (text_eq xs ys ≡ true) ↔ (xs ≡ ys)
text_eq_iff xs ys = (text_eq_sound xs ys, λ e. rw e (text_eq_refl ys))

-- `str::is_empty`
abbrev pub is_empty : Text → Bool
is_empty [] = true
is_empty (c ∷ cs) = false

-- How far the walk of `trim` is inside the UTF-8 of a `White_Space` character.
pub data Walk : Type 0 where
  between c2 e1 e1_9a e2 e2_80 e2_81 e3 e3_80 : Walk

-- The byte continues or ends a whitespace character, or `none`: some other character stands here.
step : Walk → ℕ → Option Walk
step between b =
    if (leb 9 b && leb b 13) || b == 32
    then some between
    else if b == 0xc2
    then some c2
    else if b == 0xe1
    then some e1
    else if b == 0xe2
    then some e2
    else if b == 0xe3
    then some e3
    else none
step c2 b = if b == 0x85 || b == 0xa0 then some between else none
step e1 b = if b == 0x9a then some e1_9a else none
step e1_9a b = if b == 0x80 then some between else none
step e2 b = if b == 0x80 then some e2_80 else if b == 0x81 then some e2_81 else none
step e2_80 b =
    if (leb 0x80 b && leb b 0x8a) || b == 0xa8 || b == 0xa9 || b == 0xaf then some between else none
step e2_81 b = if b == 0x9f then some between else none
step e3 b = if b == 0x80 then some e3_80 else none
step e3_80 b = if b == 0x80 then some between else none

blank_from : Walk → Text → Bool
blank_from between [] = true
blank_from _ [] = false
blank_from w (b ∷ bs) = elim (step w b) [ none ↦ false | some v ↦ blank_from v bs ]

-- `value.trim().is_empty()`
unfoldable pub is_blank : Text → Bool
unfolding blank_from step
is_blank s = blank_from between s

-- Blank text has a byte.
pub is_blank-nil : is_blank [] ≡ true
unfolding is_blank
is_blank-nil = refl

is_blank_spaces : is_blank (codes " " ++ 0xe2 ∷ 0x80 ∷ 0x83 ∷ 9 ∷ []) ≡ true
unfolding is_blank
is_blank_spaces = refl

is_blank_word : is_blank (codes "  room") ≡ false
unfolding is_blank
is_blank_word = refl

-- A separator that neither front holds splits a text in one way.
pub split_unique :
    (sep : ℕ) (xs ys us vs : Text)
    → All (λ c. c ≢ sep) xs
    → All (λ c. c ≢ sep) ys
    → xs ++ sep ∷ us ≡ ys ++ sep ∷ vs
    → (xs ≡ ys) × (us ≡ vs)
split_unique sep [] [] us vs hx hy e = (refl, cc)
split_unique sep [] (y ∷ ys) us vs hx hy e = absurd (hy.0 (cc))
split_unique sep (x ∷ xs) [] us vs hx hy e = absurd (hx.0 (cc))
split_unique sep (x ∷ xs) (y ∷ ys) us vs hx hy e =
    let rest = split_unique sep xs ys us vs hx.1 hy.1 (cc) in (cc rest.0, rest.1)
