-- ===== src/Limiter/Window.antt =====
-- What the limiter lets through, and how much it remembers: apps/server/src/auth_rate_limit.rs.
use open_cade.Prelude.{
  ℕ, ◌+◌, ◌≤◌, ◌<◌, ◌≡◌, ◌⊎◌, inl, inr, refl, sym, subst, ap, ◌∙◌, List, [], ◌∷◌, ◌++◌, Bool, true,
  false, ◌&&◌, ◌==◌, leb, length, suc, if◌then◌else◌, All, arith, Bool-cases,
}
use open_cade.Prelude.Assoc.{insert, text_eq_instance, Values, Values-insert}
use open_cade.Prelude.Text.{Text, text_eq, text_eq_iff, text_eq_sound}
use open_cade.Limiter.{
  max_tracked_keys, attempt_window, AuthRateLimiter, is_recent, forget_old_keys, pop_old,
  attempts_of, record_attempt, is_exhausted, check_at,
}
use open_cade.Limiter.Queue.{
  since, Timed, since-le-length, since-append, since-pop_old, Timed-later, Timed-append,
  Timed-pop_old, Values-retain, attempts_of-Timed, attempts_of-insert, since-forget_old_keys,
}

-- A check, as the window theorem reads it.
pub record Check : Type 0 where
  pub key : Text
  pub limit : ℕ
  pub now : ℕ

-- What a check does to the attempts of a key since `t`: they do not get fewer, and if it is let
-- through for that key, they are one more and within the limit.
record Counts (t : ℕ) (key : Text) (c : Check) (before after : AuthRateLimiter) (passed : Bool)
    : Type 0 where
  no_fewer : since t (attempts_of key before) ≤ since t (attempts_of key after)
  one_more :
      passed ≡ true
      → c.key ≡ key
      → (since t (attempts_of key before) < since t (attempts_of key after))
        × (since t (attempts_of key after) ≤ c.limit)
  timed : Values (Timed c.now) after

-- A queue that is written for one key, with no fewer attempts, leaves no key with fewer.
since-insert :
    (t : ℕ) (key other : Text) (xs : List ℕ) (m : AuthRateLimiter)
    → since t (attempts_of other m) ≤ since t xs
    → since t (attempts_of key m) ≤ since t (attempts_of key (insert other xs m))
since-insert t key other xs m h = elim (Bool-cases (text_eq other key)) [
  | inl same ↦
      let e : other ≡ key = text_eq_sound other key same in
      rw (attempts_of-insert other key xs m)
        (rw same (subst (λ k. since t (attempts_of k m) ≤ since t xs) e h))
  | inr apart ↦ rw (attempts_of-insert other key xs m) (rw apart (omega arith))
]

pushed :
    (t : ℕ) (key : Text) (c : Check) (kept : List ℕ) (m : AuthRateLimiter)
    → t ≤ c.now
    → c.key ≡ key
    → since t kept ≡ since t (attempts_of c.key m)
    → leb c.limit (length kept) ≡ false
    → (since t (attempts_of key m)
        < since t (attempts_of key (insert c.key (kept ++ c.now ∷ []) m)))
      × (since t (attempts_of key (insert c.key (kept ++ c.now ∷ []) m)) ≤ c.limit)
pushed t key c kept m lo same count fits =
    let longer = since-append t c.now kept lo in
    let room : length kept < c.limit = ground arith in
    let few = since-le-length t kept in
    let hit = (text_eq_iff c.key key).1 same in
    let mine : since t (attempts_of key m) ≡ since t kept =
      subst (λ k. since t (attempts_of k m) ≡ since t kept) same (sym count) in
    let written : since t (attempts_of key (insert c.key (kept ++ c.now ∷ []) m))
        ≡ since t kept + 1 =
      ap (since t) (attempts_of-insert c.key key (kept ++ c.now ∷ []) m ∙ rw hit refl) ∙ longer in
    (omega arith, omega arith)

record_attempt-Counts :
    (t : ℕ) (key : Text) (c : Check) (m : AuthRateLimiter)
    → t ≤ c.now
    → c.now < t + attempt_window
    → Values (Timed c.now) m
    → Counts t key c m
        (record_attempt c.key c.limit c.now m).0
        (record_attempt c.key c.limit c.now m).1
unfolding record_attempt
record_attempt-Counts t key c m lo hi v =
    let kept : List ℕ = pop_old c.now (attempts_of c.key m) in
    let same_count : since t kept ≡ since t (attempts_of c.key m) =
      since-pop_old t c.now (attempts_of c.key m) hi in
    let kept-Timed : Timed c.now kept =
      Timed-pop_old c.now c.now _ (attempts_of-Timed c.key c.now m v) in
    let longer = since-append t c.now kept lo in
    elim (Bool-cases (leb c.limit (length kept))) [
      | inl full ↦ rw full (record {
        no_fewer = since-insert t key c.key kept m (omega arith);
        one_more = λ p. cc;
        timed = Values-insert (Timed c.now) c.key kept m kept-Timed v;
      })
      | inr fits ↦ rw fits (record {
        no_fewer = since-insert t key c.key (kept ++ c.now ∷ []) m (omega (arith, longer));
        one_more = λ p same. pushed t key c kept m lo same same_count fits;
        timed =
            Values-insert (Timed c.now) c.key (kept ++ c.now ∷ []) m
              (Timed-append c.now kept kept-Timed) v;
      })
    ]

Counts-before :
    (t : ℕ) (key : Text) (c : Check) (before middle after : AuthRateLimiter) (passed : Bool)
    → since t (attempts_of key before) ≤ since t (attempts_of key middle)
    → Counts t key c middle after passed
    → Counts t key c before after passed
Counts-before t key c before middle after passed h k = record {
  no_fewer = omega (arith, k.no_fewer);
  one_more = λ p same. let (more, within) = k.one_more p same in (omega arith, within);
  timed = k.timed;
}

-- A check that is refused at once.
Counts-refused :
    (t : ℕ) (key : Text) (c : Check) (before after : AuthRateLimiter)
    → since t (attempts_of key before) ≤ since t (attempts_of key after)
    → Values (Timed c.now) after
    → Counts t key c before after false
Counts-refused t key c before after h v = record { no_fewer = h; one_more = λ p. cc; timed = v }

forget_old_keys-Timed :
    (now later : ℕ) (m : AuthRateLimiter)
    → Values (Timed later) m
    → Values (Timed later) (forget_old_keys now m)
unfolding forget_old_keys
forget_old_keys-Timed now later m v = Values-retain (Timed later) (is_recent now) m v

check_at-Counts :
    (t : ℕ) (key : Text) (c : Check) (m : AuthRateLimiter)
    → t ≤ c.now
    → c.now < t + attempt_window
    → Values (Timed c.now) m
    → Counts t key c m (check_at c.key c.limit c.now m).0 (check_at c.key c.limit c.now m).1
unfolding check_at
check_at-Counts t key c m lo hi v =
    let fewer : AuthRateLimiter = forget_old_keys c.now m in
    let kept = since-forget_old_keys t c.now key m hi v in
    let fewer_timed = forget_old_keys-Timed c.now c.now m v in
    elim (Bool-cases (c.limit == 0)) [
      | inl zero_limit ↦ rw zero_limit (Counts-refused t key c m m (omega arith) v)
      | inr some_limit ↦ elim (Bool-cases (is_exhausted c.key m)) [
        | inr fits ↦ rw (some_limit, fits) (record_attempt-Counts t key c m lo hi v)
        | inl full ↦ elim (Bool-cases (leb max_tracked_keys (length fewer))) [
          | inl over ↦ rw (some_limit, full, over) (Counts-refused t key c m fewer kept fewer_timed)
          | inr fits ↦
              rw (some_limit, full, fits)
                (Counts-before t key c m fewer _ _ kept
                  (record_attempt-Counts t key c fewer lo hi fewer_timed))
        ]
      ]
    ]

-- The checks of a key that are let through, among checks of any keys.
unfoldable pub passes : Text → List Check → AuthRateLimiter → ℕ
passes key [] m = 0
passes key (c ∷ cs) m =
    let (m', passed) = check_at c.key c.limit c.now m in
    let later = passes key cs m' in if passed && text_eq c.key key then suc later else later

-- The clock does not go back.
abbrev pub Ticking : ℕ → List Check → Type 0
Ticking start [] = Unit
Ticking start (c ∷ cs) = (start ≤ c.now) × Ticking c.now cs

-- The check comes less than a minute after `t`, and for this key its limit is `limit` at most.
abbrev pub Inside : ℕ → Text → ℕ → Check → Type 0
Inside t key limit c = (t ≤ c.now) × (c.now < t + attempt_window) × (c.key ≡ key → c.limit ≤ limit)

Values-Timed-later :
    (now later : ℕ) (m : AuthRateLimiter)
    → now ≤ later
    → Values (Timed now) m
    → Values (Timed later) m
Values-Timed-later now later [] h v = tt
Values-Timed-later now later ((k, xs) ∷ m) h v =
    (Timed-later now later xs h v.0, Values-Timed-later now later m h v.1)

passes-since :
    (t : ℕ) (key : Text) (limit start : ℕ) (cs : List Check) (m : AuthRateLimiter)
    → Values (Timed start) m
    → Ticking start cs
    → All (Inside t key limit) cs
    → (passes key cs m ≡ 0) ⊎ (since t (attempts_of key m) + passes key cs m ≤ limit)
unfolding passes
passes-since t key limit start [] m v clock inside = inl refl
passes-since t key limit start (c ∷ cs) m v clock inside =
    let after : AuthRateLimiter × Bool = check_at c.key c.limit c.now m in
    let (lo, hi, small) = inside.0 in
    let k = check_at-Counts t key c m lo hi (Values-Timed-later start c.now m clock.0 v) in
    let later = passes-since t key limit c.now cs after.0 k.timed clock.1 inside.1 in
    elim (Bool-cases (after.1 && text_eq c.key key)) [
      | inr refused ↦ rw refused (elim later [
        | inl none_later ↦ inl none_later
        | inr few ↦ inr (omega (arith, k.no_fewer))
      ])
      | inl passed ↦
          let same : c.key ≡ key = text_eq_sound c.key key (ground arith) in
          let (more, within) = k.one_more (ground arith) same in
          let bound = small same in
          rw passed
            (elim later [ inl none_later ↦ inr (omega arith) | inr few ↦ inr (omega arith) ])
    ]

-- Whatever keys are checked in between, by a clock that does not go back and on a limiter whose queues
-- are in order and not in the future: of the checks that come less than a minute after one instant, at
-- most `limit` are let through for a key, where `limit` bounds the limits of its checks.
pub passes-le :
    (t : ℕ) (key : Text) (limit start : ℕ) (cs : List Check) (m : AuthRateLimiter)
    → Values (Timed start) m
    → Ticking start cs
    → All (Inside t key limit) cs
    → passes key cs m ≤ limit
passes-le t key limit start cs m v clock inside =
    elim (passes-since t key limit start cs m v clock inside) [
      | inl none_passed ↦ omega arith
      | inr few ↦ omega arith
    ]
