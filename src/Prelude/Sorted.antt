-- ===== src/Prelude/Sorted.antt =====
-- `BTreeMap` and `BTreeSet`: association lists that are sorted by their keys.
use Prim.Native.Nat.{ℕ, compare, Ordering}
use mathlib.Core.Path.{◌≡◌, refl}
use mathlib.Core.Logic.{◌↔◌, ◌⊎◌, inl, inr}
use mathlib.Core.Bool.{Bool, true, false}
use mathlib.Core.List.{List, [], ◌∷◌}
use mathlib.Core.Option.{Option, none, some}
use native.Mathlib.Omega.{arith}
use open_cade.Prelude.Text.{Text}

-- Keys with `Ord::cmp`.
pub record Ord {κ} (K : Type κ) : Type κ where
  pub cmp : (key other : K) → Ordering
  pub cmp_iff : (key other : K) → (cmp key other ≡ Ordering.eq) ↔ (key ≡ other)

-- Lexicographic.
unfoldable pub list_cmp {κ} : {K : Type κ} → (K → K → Ordering) → List K → List K → Ordering
list_cmp cmp [] [] = Ordering.eq
list_cmp cmp [] (y ∷ ys) = Ordering.lt
list_cmp cmp (x ∷ xs) [] = Ordering.gt
list_cmp cmp (x ∷ xs) (y ∷ ys) =
    let rest = list_cmp cmp xs ys in
    elim (cmp x y) [ Ordering.lt ↦ Ordering.lt | Ordering.gt ↦ Ordering.gt | Ordering.eq ↦ rest ]

pub compare_iff : (a b : ℕ) → (compare a b ≡ Ordering.eq) ↔ (a ≡ b)
compare_iff a b = ground arith

pub list_cmp_iff {κ} :
    {K : Type κ} (cmp : K → K → Ordering)
    → ((x y : K) → (cmp x y ≡ Ordering.eq) ↔ (x ≡ y))
    → (xs ys : List K) → (list_cmp cmp xs ys ≡ Ordering.eq) ↔ (xs ≡ ys)
unfolding list_cmp
list_cmp_iff cmp h [] [] = (λ e. refl, λ e. refl)
list_cmp_iff cmp h [] (y ∷ ys) = (λ e. cc, λ e. cc)
list_cmp_iff cmp h (x ∷ xs) [] = (λ e. cc, λ e. cc)
list_cmp_iff cmp h (x ∷ xs) (y ∷ ys) = ground (arith, h x y, list_cmp_iff cmp h xs ys)

unfoldable pub text_cmp : Text → Text → Ordering
unfolding list_cmp
text_cmp xs ys = list_cmp compare xs ys

pub text_cmp_iff : (xs ys : Text) → (text_cmp xs ys ≡ Ordering.eq) ↔ (xs ≡ ys)
unfolding text_cmp
text_cmp_iff xs ys = list_cmp_iff compare compare_iff xs ys

instance abbrev pub text_ord : Ord Text
text_ord = record { cmp = text_cmp; cmp_iff = text_cmp_iff }

abbrev pub BTreeMap {ℓ κ} : Type ℓ → Type κ → Type (ℓ ⊔ κ)
BTreeMap K V = List (K × V)

module _ {ℓ κ} {K : Type ℓ} {V : Type κ} ⦃o : Ord K⦄ where
  -- `entry(key).or_insert(fresh)` and a change of the value
  unfoldable pub update : K → V → (V → V) → BTreeMap K V → BTreeMap K V
  update new fresh change [] = (new, change fresh) ∷ []
  update new fresh change ((key, value) ∷ rest) =
      let later = update new fresh change rest in
      elim (o.cmp new key) [
        | Ordering.lt ↦ (new, change fresh) ∷ (key, value) ∷ rest
        | Ordering.eq ↦ (key, change value) ∷ rest
        | Ordering.gt ↦ (key, value) ∷ later
      ]

  unfoldable pub get : K → BTreeMap K V → Option V
  get wanted [] = none
  get wanted ((key, value) ∷ rest) =
      let later = get wanted rest in
      elim (o.cmp wanted key) [
        | Ordering.eq ↦ some value
        | Ordering.lt ↦ later
        | Ordering.gt ↦ later
      ]

  abbrev pub keys : BTreeMap K V → List K
  keys [] = []
  keys ((key, value) ∷ rest) = key ∷ keys rest

-- The order of texts.
pub list_cmp_flip :
    (xs ys : Text) → list_cmp compare xs ys ≡ Ordering.gt → list_cmp compare ys xs ≡ Ordering.lt
unfolding list_cmp
list_cmp_flip [] [] h = cc
list_cmp_flip [] (y ∷ ys) h = cc
list_cmp_flip (x ∷ xs) [] h = refl
list_cmp_flip (x ∷ xs) (y ∷ ys) h = ground (arith, list_cmp_flip xs ys)

pub list_cmp_trans :
    (xs ys zs : Text)
    → list_cmp compare xs ys ≡ Ordering.lt
    → list_cmp compare ys zs ≡ Ordering.lt
    → list_cmp compare xs zs ≡ Ordering.lt
unfolding list_cmp
list_cmp_trans [] [] zs h k = cc
list_cmp_trans [] (y ∷ ys) [] h k = cc
list_cmp_trans [] (y ∷ ys) (z ∷ zs) h k = refl
list_cmp_trans (x ∷ xs) [] zs h k = cc
list_cmp_trans (x ∷ xs) (y ∷ ys) [] h k = cc
list_cmp_trans (x ∷ xs) (y ∷ ys) (z ∷ zs) h k = ground (arith, list_cmp_trans xs ys zs)

-- `BTreeSet::insert`
module _ {ℓ} {K : Type ℓ} ⦃o : Ord K⦄ where
  unfoldable pub insert_key : K → List K → List K
  insert_key new [] = new ∷ []
  insert_key new (key ∷ rest) =
      let later = insert_key new rest in
      elim (o.cmp new key) [
        | Ordering.lt ↦ new ∷ key ∷ rest
        | Ordering.eq ↦ key ∷ rest
        | Ordering.gt ↦ key ∷ later
      ]

  unfoldable pub has_key : K → List K → Bool
  has_key wanted [] = false
  has_key wanted (key ∷ rest) =
      let later = has_key wanted rest in
      elim (o.cmp wanted key) [ Ordering.eq ↦ true | Ordering.lt ↦ later | Ordering.gt ↦ later ]

  pub has_key-insert_key :
      (new wanted : K) (set : List K)
      → (wanted ≡ new) ⊎ (has_key wanted set ≡ true)
      → has_key wanted (insert_key new set) ≡ true
  unfolding insert_key has_key
  has_key-insert_key new wanted [] (inl e) = ground (arith, o.cmp_iff wanted new)
  has_key-insert_key new wanted [] (inr h) = cc
  has_key-insert_key new wanted (key ∷ rest) h = ground (
    arith,
    o.cmp_iff wanted new,
    o.cmp_iff wanted key,
    o.cmp_iff new key,
    has_key-insert_key new wanted rest,
  )
