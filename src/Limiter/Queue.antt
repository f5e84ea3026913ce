-- ===== src/Limiter/Queue.antt =====
-- The queue of one key, and the limiter as a map of them: apps/server/src/auth_rate_limit.rs.
use open_cade.Prelude.{
  ℕ, ◌+◌, ◌-◌, ◌≤◌, ◌<◌, ◌≡◌, inl, inr, refl, List, [], ◌∷◌, ◌++◌, Bool, false, leb, length, retain,
  suc, if◌then◌else◌, All, arith, Bool-cases, Option-cases,
}
use open_cade.Prelude.Assoc.{
  lookup, insert, text_eq_instance, Values, Values-lookup, lookup-insert, lookup-retain,
}
use open_cade.Prelude.Text.{Text, text_eq}
use open_cade.Limiter.{
  attempt_window, AuthRateLimiter, is_recent, forget_old_keys, pop_old, attempts_of,
}

-- The attempts since an instant.
unfoldable pub since : ℕ → List ℕ → ℕ
since t [] = 0
since t (x ∷ xs) = if leb t x then suc (since t xs) else since t xs

abbrev pub Sorted : List ℕ → Type 0
Sorted [] = Unit
Sorted (x ∷ xs) = All (λ y. x ≤ y) xs × Sorted xs

pub since-le-length : (t : ℕ) (xs : List ℕ) → since t xs ≤ length xs
unfolding since
since-le-length t [] = omega arith
since-le-length t (x ∷ xs) = ground (arith, since-le-length t xs)

pub since-append : (t now : ℕ) (xs : List ℕ) → t ≤ now → since t (xs ++ now ∷ []) ≡ since t xs + 1
unfolding since
since-append t now [] h = ground arith
since-append t now (x ∷ xs) h = ground (arith, since-append t now xs h)

-- Less than a window after `t`, no attempt since `t` is popped.
pub since-pop_old :
    (t now : ℕ) (xs : List ℕ) → now < t + attempt_window → since t (pop_old now xs) ≡ since t xs
unfolding since pop_old
since-pop_old t now [] h = refl
since-pop_old t now (x ∷ xs) h = ground (arith, since-pop_old t now xs h)

All-ge : (x t : ℕ) (xs : List ℕ) → t ≤ x → All (λ y. x ≤ y) xs → All (λ y. t ≤ y) xs
All-ge x t [] h a = tt
All-ge x t (y ∷ ys) h a = (omega arith, All-ge x t ys h a.1)

-- A queue whose last attempt is a window old has no attempt since `t`.
pub since-not_recent :
    (t now : ℕ) (xs : List ℕ)
    → now < t + attempt_window
    → Sorted xs
    → is_recent now xs ≡ false
    → since t xs ≡ 0
unfolding since is_recent
since-not_recent t now [] h s r = refl
since-not_recent t now (x ∷ []) h s r = ground arith
since-not_recent t now (x ∷ y ∷ ys) h s r =
    let rest : since t (y ∷ ys) ≡ 0 = since-not_recent t now (y ∷ ys) h s.1 r in ground arith

-- The queues are in order, and hold no instant after the clock.
abbrev pub Timed : ℕ → List ℕ → Type 0
Timed now xs = Sorted xs × All (λ x. x ≤ now) xs

pub Timed-later : (now later : ℕ) (xs : List ℕ) → now ≤ later → Timed now xs → Timed later xs
Timed-later now later xs h t = (t.0, below xs t.1)
  where
    below : (xs : List ℕ) → All (λ x. x ≤ now) xs → All (λ x. x ≤ later) xs
    below [] a = tt
    below (x ∷ xs) a = (omega arith, below xs a.1)

pub Timed-append : (now : ℕ) (xs : List ℕ) → Timed now xs → Timed now (xs ++ now ∷ [])
Timed-append now [] t = ((tt, tt), (omega arith, tt))
Timed-append now (x ∷ xs) t =
    let (s, b) : Timed now (xs ++ now ∷ []) = Timed-append now xs (t.0.1, t.1.1) in
    ((above xs t.0.0, s), (t.1.0, b))
  where
    above : (ys : List ℕ) → All (λ y. x ≤ y) ys → All (λ y. x ≤ y) (ys ++ now ∷ [])
    above [] a = (t.1.0, tt)
    above (y ∷ ys) a = (a.0, above ys a.1)

pub Timed-pop_old : (now later : ℕ) (xs : List ℕ) → Timed later xs → Timed later (pop_old now xs)
unfolding pop_old
Timed-pop_old now later [] t = t
Timed-pop_old now later (x ∷ xs) t = elim (Bool-cases (leb attempt_window (now - x))) [
  | inl old ↦ rw old (Timed-pop_old now later xs (t.0.1, t.1.1))
  | inr fresh ↦ rw fresh t
]

pub Values-retain :
    (P : List ℕ → Type 0) (f : List ℕ → Bool) (m : AuthRateLimiter)
    → Values P m
    → Values P (retain (λ e. f e.1) m)
Values-retain P f [] h = tt
Values-retain P f ((k, v) ∷ m) h = elim (Bool-cases (f v)) [
  | inl kept ↦ rw kept (h.0, Values-retain P f m h.1)
  | inr dropped ↦ rw dropped (Values-retain P f m h.1)
]

pub attempts_of-Timed :
    (key : Text) (now : ℕ) (m : AuthRateLimiter)
    → Values (Timed now) m
    → Timed now (attempts_of key m)
unfolding attempts_of
attempts_of-Timed key now m h = elim (Option-cases (lookup key m)) [
  | inl e ↦ rw e (tt, tt)
  | inr (xs, e) ↦ rw e (Values-lookup (Timed now) key m h e)
]

pub attempts_of-insert :
    (key other : Text) (xs : List ℕ) (m : AuthRateLimiter)
    → attempts_of other (insert key xs m) ≡ (if text_eq key other then xs else attempts_of other m)
unfolding attempts_of
attempts_of-insert key other xs m = elim (Bool-cases (text_eq key other)) [
  | inl same ↦ rw (lookup-insert key other xs m) (rw same refl)
  | inr apart ↦ rw (lookup-insert key other xs m) (rw apart refl)
]

pub since-nil : (t n : ℕ) → since t [] ≤ n
unfolding since
since-nil t n = omega arith

-- Forgetting old keys loses no attempt since `t`.
pub since-forget_old_keys :
    (t now : ℕ) (key : Text) (m : AuthRateLimiter)
    → now < t + attempt_window
    → Values (Timed now) m
    → since t (attempts_of key m) ≤ since t (attempts_of key (forget_old_keys now m))
unfolding attempts_of forget_old_keys
since-forget_old_keys t now key m h v = elim (Option-cases (lookup key m)) [
  | inl e ↦ rw e (since-nil t _)
  | inr (xs, e) ↦ elim (Bool-cases (is_recent now xs)) [
    | inl fresh ↦ rw e (rw (lookup-retain (λ ys. is_recent now ys) key m xs e fresh) (omega arith))
    | inr old ↦
        let none_left = since-not_recent t now xs h (Values-lookup (Timed now) key m v e).0 old in
        rw e (omega arith)
  ]
]
