-- ===== src/Prelude/Assoc.antt =====
-- Maps (`DashMap`, `HashMap`, a table with a primary key) as association lists. No code of the
-- program depends on the order of the entries.
use open_cade.Prelude.Lists.{retain, length, All}
use Prim.Native.Nat.{ℕ, suc, ◌≤◌}
use mathlib.Core.Path.{◌≡◌, refl, subst}
use mathlib.Core.Logic.{◌↔◌, ◌≢◌, inl, inr}
use mathlib.Core.Bool.{Bool, true, false, ◌||◌}
use mathlib.Core.List.{List, [], ◌∷◌}
use mathlib.Core.Option.{Option, none, some}
use native.Mathlib.Omega.{arith}
use open_cade.Prelude.Tests.{Bool-cases, ◌==◌, ==_iff, if◌then◌else◌}
use open_cade.Prelude.Text.{Text, text_eq, text_eq_iff}

-- Keys that can be compared.
pub record Eq {κ} (K : Type κ) : Type κ where
  pub beq : (key other : K) → Bool
  pub beq_iff : (key other : K) → (beq key other ≡ true) ↔ (key ≡ other)

instance abbrev pub nat_eq : Eq ℕ
nat_eq = record { beq = ◌==◌; beq_iff = ==_iff }

instance abbrev pub text_eq_instance : Eq Text
text_eq_instance = record { beq = text_eq; beq_iff = text_eq_iff }

abbrev pub Assoc {ℓ κ} : Type ℓ → Type κ → Type (ℓ ⊔ κ)
Assoc K V = List (K × V)

module _ {ℓ κ} {K : Type ℓ} {V : Type κ} ⦃e : Eq K⦄ where
  unfoldable pub lookup : K → Assoc K V → Option V
  lookup wanted [] = none
  lookup wanted ((key, value) ∷ rest) = if e.beq key wanted then some value else lookup wanted rest

  unfoldable pub insert : K → V → Assoc K V → Assoc K V
  insert new value [] = (new, value) ∷ []
  insert new value ((key, old) ∷ rest) =
      if e.beq key new then (key, value) ∷ rest else (key, old) ∷ insert new value rest

  unfoldable pub remove : K → Assoc K V → Assoc K V
  remove k [] = []
  remove k ((j, w) ∷ m) = let rest = remove k m in if e.beq j k then rest else (j, w) ∷ rest

  unfoldable pub contains_key : K → Assoc K V → Bool
  contains_key k [] = false
  contains_key k ((j, w) ∷ m) = e.beq j k || contains_key k m

  pub lookup-insert :
      (new wanted : K) (value : V) (entries : Assoc K V)
      → lookup wanted (insert new value entries)
        ≡ (if e.beq new wanted then some value else lookup wanted entries)
  unfolding lookup insert
  lookup-insert new wanted value [] = refl
  lookup-insert new wanted value ((key, old) ∷ rest) =
      let keys = e.beq_iff in
      ground
        (arith, keys new wanted, keys key new, keys key wanted, lookup-insert new wanted value rest)

  pub lookup-remove :
      (k j : K) (m : Assoc K V) → lookup j (remove k m) ≡ (if e.beq k j then none else lookup j m)
  unfolding lookup remove
  lookup-remove k j [] = ground arith
  lookup-remove k j ((i, w) ∷ m) =
      ground (arith, e.beq_iff k j, e.beq_iff i k, e.beq_iff i j, lookup-remove k j m)

  pub length-insert-le : (k : K) (v : V) (m : Assoc K V) → length (insert k v m) ≤ suc (length m)
  unfolding insert
  length-insert-le k v [] = omega arith
  length-insert-le k v ((j, w) ∷ m) = ground (arith, length-insert-le k v m)

  -- Overwriting a key adds no entry.
  pub length-insert_old :
      (k : K) (v : V) (m : Assoc K V) → contains_key k m ≡ true → length (insert k v m) ≡ length m
  unfolding insert contains_key
  length-insert_old k v [] h = cc
  length-insert_old k v ((j, w) ∷ m) h = ground (arith, length-insert_old k v m)

  pub length-remove-le : (k : K) (m : Assoc K V) → length (remove k m) ≤ length m
  unfolding remove
  length-remove-le k [] = omega arith
  length-remove-le k ((j, w) ∷ m) = ground (arith, length-remove-le k m)

  pub contains_key-lookup :
      (k : K) (m : Assoc K V) {v : V} → lookup k m ≡ some v → contains_key k m ≡ true
  unfolding lookup contains_key
  contains_key-lookup k [] h = cc
  contains_key-lookup k ((j, w) ∷ m) {v = v} h = ground (arith, contains_key-lookup k m {v = v})

  pub contains_key-insert :
      (k j : K) (v : V) (m : Assoc K V)
      → contains_key j m ≡ true
      → contains_key j (insert k v m) ≡ true
  unfolding insert contains_key
  contains_key-insert k j v [] h = cc
  contains_key-insert k j v ((i, w) ∷ m) h = ground (arith, contains_key-insert k j v m)

  pub contains_key-some : (k : K) (m : Assoc K V) → contains_key k m ≡ true → lookup k m ≢ none
  unfolding lookup contains_key
  contains_key-some k [] h = cc
  contains_key-some k ((j, w) ∷ m) h = ground (arith, contains_key-some k m)

  pub lookup-none : (k : K) (m : Assoc K V) → lookup k m ≡ none → contains_key k m ≡ false
  unfolding lookup contains_key
  lookup-none k [] h = refl
  lookup-none k ((j, w) ∷ m) h = ground (arith, lookup-none k m)

  pub lookup-retain :
      (f : V → Bool) (k : K) (m : Assoc K V) (v : V)
      → lookup k m ≡ some v
      → f v ≡ true
      → lookup k (retain (λ kv. f kv.1) m) ≡ some v
  unfolding lookup
  lookup-retain f k [] v h q = cc
  lookup-retain f k ((j, w) ∷ m) v h q = ground (arith, lookup-retain f k m v)

  module _ {ι} (P : V → Type ι) where
    -- A predicate of every value.
    abbrev pub Values : Assoc K V → Type ι
    Values m = All (λ kv. P kv.1) m

    pub Values-insert : (k : K) (v : V) (m : Assoc K V) → P v → Values m → Values (insert k v m)
    unfolding insert
    Values-insert k v [] p h = (p, tt)
    Values-insert k v ((j, w) ∷ m) p h = ground (arith, Values-insert k v m p h.1)

    pub Values-remove : (k : K) (m : Assoc K V) → Values m → Values (remove k m)
    unfolding remove
    Values-remove k [] h = h
    Values-remove k ((j, w) ∷ m) h = ground (arith, Values-remove k m h.1)

    pub Values-lookup : (k : K) (m : Assoc K V) {v : V} → Values m → lookup k m ≡ some v → P v
    unfolding lookup
    Values-lookup k [] h q = cc
    Values-lookup k ((j, w) ∷ m) {v = v} h q = elim (Bool-cases (e.beq j k)) [
      | inl hit ↦ let same : w ≡ v = ground arith in subst P same h.0
      | inr miss ↦ let below : lookup k m ≡ some v = ground arith in Values-lookup k m h.1 below
    ]
