-- ===== src/Prelude/Outcome.antt =====
-- Rust's `Result`, with the operator `?` as the bind of a do block.
use mathlib.Core.Path.{◌≡◌, refl}
use mathlib.Core.Logic.{◌≢◌, ◌⊎◌, inl, inr}
use mathlib.Core.Bool.{Bool, true, false}
use mathlib.Core.Option.{Option, none, some}

pub data Outcome {ℓ κ} (E : Type κ) (A : Type ℓ) : Type (ℓ ⊔ κ) where
  err : E → Outcome E A
  ok : A → Outcome E A

infixl 5 ◌>>=◌ ◌>>◌
abbrev pub ◌>>=◌ {ℓ κ ι} :
    {E : Type ι} {A : Type ℓ} {B : Type κ} → Outcome E A → (A → Outcome E B) → Outcome E B
err reason >>= continue = err reason
ok value >>= continue = continue value

abbrev pub ◌>>◌ {ℓ ι} : {E : Type ι} {B : Type ℓ} → Outcome E (Unit {0}) → Outcome E B → Outcome E B
first >> second = first >>= (λ done. second)

-- An early `return Err(e)` under a test.
abbrev pub fail_if {ι} : {E : Type ι} → Bool → E → Outcome E (Unit {0})
fail_if false reason = ok tt
fail_if true reason = err reason

-- `Option::ok_or` and `map_err`
abbrev pub or_fail {ℓ ι} : {E : Type ι} {A : Type ℓ} → Option A → E → Outcome E A
or_fail (some value) reason = ok value
or_fail none reason = err reason

module _ {ι} {E : Type ι} where
  -- A chain that succeeds went through its first link.
  pub through_first {ℓ κ} :
      {A : Type ℓ} {B : Type κ} (first : Outcome E A) (continue : A → Outcome E B) {answer : B}
      → (first >>= continue) ≡ ok answer
      → (value : A) × (first ≡ ok value) × (continue value ≡ ok answer)
  through_first (err reason) continue run = cc
  through_first (ok value) continue run = (value, refl, run)

  pub fail_if-ok :
      (test : Bool) (reason : E) {u : Unit {0}} → fail_if test reason ≡ ok u → test ≡ false
  fail_if-ok false reason run = refl
  fail_if-ok true reason run = cc

  pub or_fail-ok {ℓ} :
      {A : Type ℓ} (option : Option A) (reason : E) {value : A}
      → or_fail option reason ≡ ok value
      → option ≡ some value
  or_fail-ok none reason run = cc
  or_fail-ok (some found) reason run = cc

  pub Outcome-cases {ℓ} :
      {A : Type ℓ} (o : Outcome E A)
      → ((value : A) × (o ≡ ok value)) ⊎ ((reason : E) × (o ≡ err reason))
  Outcome-cases (err reason) = inr (reason, refl)
  Outcome-cases (ok value) = inl (value, refl)

  -- An answer that holds nothing is none that holds something.
  pub nothing-something {ℓ} :
      {A : Type ℓ} {a : A} → ◌≢◌ {A = Outcome E (Option A)} (ok none) (ok (some a))
  nothing-something run = cc
