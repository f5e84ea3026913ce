-- ===== src/Networking/Report/Summary/Keys.antt =====
-- Sets of texts as `summarize_campaign_evidence` keeps them: no text twice, whatever was inserted, and
-- none lost: packages/networking/src/report.rs.
use open_cade.Prelude.Text.{Text, text_eq, text_eq_iff}
use open_cade.Prelude.{◌≡◌, refl, arith, false, ◌||◌, List, [], ◌∷◌, ◌++◌, any, All}
use open_cade.Prelude.Sorted.{
  BTreeMap, update, keys, insert_key, has_key, text_ord, text_cmp, text_cmp_iff, list_cmp_flip,
  list_cmp_trans,
}
use open_cade.Networking.Report.Summary.{group, collect}
use Prim.Native.Nat.{Ordering}

-- A set of texts as it is kept: in strict order.
abbrev pub Ordered : List Text → Type 0
Ordered [] = Unit
Ordered (x ∷ xs) = All (λ y. text_cmp x y ≡ Ordering.lt) xs × Ordered xs

-- No text stands twice.
abbrev pub Distinct : List Text → Type 0
Distinct [] = Unit
Distinct (x ∷ xs) = (any (λ y. text_eq y x) xs ≡ false) × Distinct xs

flip_gt : (x y : Text) → text_cmp x y ≡ Ordering.gt → text_cmp y x ≡ Ordering.lt
unfolding text_cmp
flip_gt x y h = list_cmp_flip x y h

trans_lt :
    (x y z : Text)
    → text_cmp x y ≡ Ordering.lt
    → text_cmp y z ≡ Ordering.lt
    → text_cmp x z ≡ Ordering.lt
unfolding text_cmp
trans_lt x y z h k = list_cmp_trans x y z h k

All-before :
    (x y : Text) (zs : List Text)
    → text_cmp x y ≡ Ordering.lt
    → All (λ z. text_cmp y z ≡ Ordering.lt) zs
    → All (λ z. text_cmp x z ≡ Ordering.lt) zs
All-before x y [] h k = tt
All-before x y (z ∷ zs) h k = (trans_lt x y z h k.0, All-before x y zs h k.1)

data Compared (x y : Text) : Type 0 where
  before : text_cmp x y ≡ Ordering.lt → Compared x y
  same : text_cmp x y ≡ Ordering.eq → Compared x y
  behind : text_cmp x y ≡ Ordering.gt → Compared x y

compared : (x y : Text) → Compared x y
compared x y = from (text_cmp x y) refl
  where
    from : (o : Ordering) → text_cmp x y ≡ o → Compared x y
    from Ordering.lt q = before q
    from Ordering.eq q = same q
    from Ordering.gt q = behind q

insert_before :
    (new y : Text) (set : List Text)
    → text_cmp new y ≡ Ordering.lt
    → insert_key new (y ∷ set) ≡ new ∷ y ∷ set
unfolding insert_key
insert_before new y set h = ground arith

insert_same :
    (new y : Text) (set : List Text)
    → text_cmp new y ≡ Ordering.eq
    → insert_key new (y ∷ set) ≡ y ∷ set
unfolding insert_key
insert_same new y set h = ground arith

insert_behind :
    (new y : Text) (set : List Text)
    → text_cmp new y ≡ Ordering.gt
    → insert_key new (y ∷ set) ≡ y ∷ insert_key new set
unfolding insert_key
insert_behind new y set h = ground arith

All-insert_key :
    (x new : Text) (set : List Text)
    → text_cmp x new ≡ Ordering.lt
    → All (λ z. text_cmp x z ≡ Ordering.lt) set
    → All (λ z. text_cmp x z ≡ Ordering.lt) (insert_key new set)
unfolding insert_key
All-insert_key x new [] h k = (h, tt)
All-insert_key x new (y ∷ set) h k = elim (compared new y) [
  | before q ↦ rw (insert_before new y set q) (h, k)
  | same q ↦ rw (insert_same new y set q) k
  | behind q ↦ rw (insert_behind new y set q) (k.0, All-insert_key x new set h k.1)
]

insert_key-Ordered : (new : Text) (set : List Text) → Ordered set → Ordered (insert_key new set)
unfolding insert_key
insert_key-Ordered new [] h = (tt, tt)
insert_key-Ordered new (y ∷ set) h = elim (compared new y) [
  | before q ↦ rw (insert_before new y set q) ((q, All-before new y set q h.0), h)
  | same q ↦ rw (insert_same new y set q) h
  | behind q ↦
      rw (insert_behind new y set q)
        (All-insert_key y new set (flip_gt new y q) h.0, insert_key-Ordered new set h.1)
]

pub collect-Ordered : (set ids : List Text) → Ordered set → Ordered (collect set ids)
unfolding collect
collect-Ordered set [] h = h
collect-Ordered set (id ∷ ids) h =
    collect-Ordered (insert_key id set) ids (insert_key-Ordered id set h)

later_other :
    (x : Text) (ys : List Text)
    → All (λ y. text_cmp x y ≡ Ordering.lt) ys
    → any (λ y. text_eq y x) ys ≡ false
later_other x [] h = refl
later_other x (y ∷ ys) h = ground (arith, text_cmp_iff x y, text_eq_iff y x, later_other x ys h.1)

pub Ordered-Distinct : (xs : List Text) → Ordered xs → Distinct xs
Ordered-Distinct [] h = tt
Ordered-Distinct (x ∷ xs) h = (later_other x xs h.0, Ordered-Distinct xs h.1)

pub has_key-any :
    (wanted : Text) (ids : List Text) → has_key wanted ids ≡ any (λ id. text_eq id wanted) ids
unfolding has_key
has_key-any wanted [] = refl
has_key-any wanted (id ∷ ids) =
    ground (arith, text_cmp_iff wanted id, text_eq_iff id wanted, has_key-any wanted ids)

insert_key-has_key :
    (new wanted : Text) (set : List Text)
    → has_key wanted (insert_key new set) ≡ (text_eq new wanted || has_key wanted set)
unfolding insert_key has_key
insert_key-has_key new wanted [] = ground (arith, text_cmp_iff wanted new, text_eq_iff new wanted)
insert_key-has_key new wanted (key ∷ rest) = ground (
  arith,
  text_cmp_iff wanted new,
  text_cmp_iff wanted key,
  text_cmp_iff new key,
  text_eq_iff new wanted,
  insert_key-has_key new wanted rest,
)

pub collect-same_keys :
    (wanted : Text) (set ids : List Text)
    → has_key wanted (collect set ids) ≡ (has_key wanted set || has_key wanted ids)
unfolding collect has_key
collect-same_keys wanted set [] = ground arith
collect-same_keys wanted set (id ∷ rest) = ground (
  arith,
  text_cmp_iff wanted id,
  text_eq_iff id wanted,
  insert_key-has_key id wanted set,
  collect-same_keys wanted (insert_key id set) rest,
)

pub append-same_keys :
    (wanted : Text) (xs ys : List Text)
    → has_key wanted (xs ++ ys) ≡ (has_key wanted xs || has_key wanted ys)
unfolding has_key
append-same_keys wanted [] ys = refl
append-same_keys wanted (x ∷ xs) ys =
    ground (arith, text_cmp_iff wanted x, append-same_keys wanted xs ys)

module _ {R : Type 0} (room_of : R → Text) (wanted : Text) where
  update-same_keys :
      (new : Text) (change : List R → List R) (rooms : BTreeMap Text (List R))
      → has_key wanted (keys (update new [] change rooms))
        ≡ (text_eq new wanted || has_key wanted (keys rooms))
  unfolding update has_key
  update-same_keys new change [] = ground (arith, text_cmp_iff wanted new, text_eq_iff new wanted)
  update-same_keys new change ((key, list) ∷ rest) = ground (
    arith,
    text_cmp_iff wanted new,
    text_cmp_iff wanted key,
    text_cmp_iff new key,
    text_eq_iff new wanted,
    update-same_keys new change rest,
  )

  pub group-same_keys :
      (reports : List R) (rooms : BTreeMap Text (List R))
      → has_key wanted (keys (group room_of reports rooms))
        ≡ (any (λ r. text_eq (room_of r) wanted) reports || has_key wanted (keys rooms))
  unfolding group
  group-same_keys [] rooms = refl
  group-same_keys (r ∷ rest) rooms = ground (
    arith,
    update-same_keys (room_of r) (λ list. list ++ r ∷ []) rooms,
    group-same_keys rest (update (room_of r) [] (λ list. list ++ r ∷ []) rooms),
  )
