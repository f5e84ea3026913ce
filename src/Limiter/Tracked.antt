-- ===== src/Limiter/Tracked.antt =====
-- How many keys the limiter tracks: apps/server/src/auth_rate_limit.rs.
use open_cade.Prelude.{
  length-retain-le, ℕ, ◌≤◌, ◌≡◌, inl, inr, refl, List, [], ◌∷◌, ◌++◌, false, ◌&&◌, not, ◌==◌, leb,
  length, arith, Bool-cases,
}
use open_cade.Prelude.Assoc.{contains_key, text_eq_instance, length-insert-le, length-insert_old}
use open_cade.Prelude.Text.{Text}
use open_cade.Limiter.{
  max_tracked_keys, AuthRateLimiter, is_recent, forget_old_keys, pop_old, attempts_of,
  record_attempt, is_exhausted, check_at,
}

record_attempt-le :
    (key : Text) (limit now : ℕ) (m : AuthRateLimiter)
    → length m ≤ max_tracked_keys
    → (leb max_tracked_keys (length m) && not (contains_key key m)) ≡ false
    → length (record_attempt key limit now m).0 ≤ max_tracked_keys
unfolding record_attempt
record_attempt-le key limit now m h fits =
    let kept : List ℕ = pop_old now (attempts_of key m) in
    ground (
      arith,
      length-insert-le key kept m,
      length-insert_old key kept m,
      length-insert-le key (kept ++ now ∷ []) m,
      length-insert_old key (kept ++ now ∷ []) m,
    )

-- A check of a limiter that tracks at most 4096 keys leaves it so.
pub check_at-le :
    (key : Text) (limit now : ℕ) (m : AuthRateLimiter)
    → length m ≤ max_tracked_keys
    → length (check_at key limit now m).0 ≤ max_tracked_keys
unfolding check_at is_exhausted forget_old_keys
check_at-le key limit now m h =
    let fewer : AuthRateLimiter = forget_old_keys now m in
    let shrinks : length fewer ≤ length m = length-retain-le (λ e. is_recent now e.1) m in
    elim (Bool-cases (limit == 0)) [
      | inl zero_limit ↦ rw zero_limit h
      | inr some_limit ↦ elim (Bool-cases (is_exhausted key m)) [
        | inr fits ↦ rw (some_limit, fits) (record_attempt-le key limit now m h fits)
        | inl full ↦ elim (Bool-cases (leb max_tracked_keys (length fewer))) [
          | inl over ↦ rw (some_limit, full, over) (omega arith)
          | inr fits ↦
              rw (some_limit, full, fits)
                (record_attempt-le key limit now fewer (omega arith) (rw fits refl))
        ]
      ]
    ]
