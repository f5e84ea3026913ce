-- ===== src/Limiter.antt =====
-- apps/server/src/auth_rate_limit.rs: the attempts of the last minute, by key. Instants are nanoseconds
-- of the monotonic clock, and checks run one after another.
pub mod Queue
pub mod Window
pub mod Tracked
pub mod Tests
use open_cade.Prelude.{
  ℕ, ◌-◌, ◌*◌, List, [], ◌∷◌, ◌++◌, Bool, true, false, ◌&&◌, not, Option, none, some, ◌==◌, leb,
  ltb, length, retain, if◌then◌else◌,
}
use open_cade.Prelude.Assoc.{Assoc, lookup, insert, remove, contains_key, text_eq_instance}
use open_cade.Prelude.Text.{Text}

abbrev pub max_tracked_keys : ℕ
max_tracked_keys = 4_096

abbrev pub max_attempts : ℕ
max_attempts = 5

abbrev pub attempt_window : ℕ
attempt_window = 60 * 1_000_000_000

-- `attempts`: a key's instants, the oldest first.
abbrev pub AuthRateLimiter : Type 0
AuthRateLimiter = Assoc Text (List ℕ)

-- `attempts.back().is_some_and(..)`
unfoldable pub is_recent : ℕ → List ℕ → Bool
is_recent now [] = false
is_recent now (attempt ∷ []) = ltb (now - attempt) attempt_window
is_recent now (attempt ∷ later ∷ rest) = is_recent now (later ∷ rest)

unfoldable pub forget_old_keys : ℕ → AuthRateLimiter → AuthRateLimiter
forget_old_keys now attempts = retain (λ entry. is_recent now entry.1) attempts

-- The loop over `pop_front`.
unfoldable pub pop_old : ℕ → List ℕ → List ℕ
pop_old now [] = []
pop_old now (attempt ∷ rest) =
    let popped = pop_old now rest in
    if leb attempt_window (now - attempt) then popped else attempt ∷ rest

-- `entry(..).or_default()`
abbrev pub or_default : Option (List ℕ) → List ℕ
or_default none = []
or_default (some instants) = instants

unfoldable pub attempts_of : Text → AuthRateLimiter → List ℕ
attempts_of key attempts = or_default (lookup key attempts)

-- The second half of `check_at`, on the key's own queue.
unfoldable pub record_attempt : Text → ℕ → ℕ → AuthRateLimiter → AuthRateLimiter × Bool
record_attempt key limit now attempts =
    let kept = pop_old now (attempts_of key attempts) in
    if leb limit (length kept)
    then (insert key kept attempts, false)
    else (insert key (kept ++ now ∷ []) attempts, true)

unfoldable pub is_exhausted : Text → AuthRateLimiter → Bool
is_exhausted key attempts =
    leb max_tracked_keys (length attempts) && not (contains_key key attempts)

unfoldable pub check_at : Text → ℕ → ℕ → AuthRateLimiter → AuthRateLimiter × Bool
unfolding is_exhausted forget_old_keys record_attempt
check_at key limit now attempts =
    if limit == 0
    then (attempts, false)
    else if is_exhausted key attempts
    then (let fewer = forget_old_keys now attempts in
        if leb max_tracked_keys (length fewer)
        then (fewer, false)
        else record_attempt key limit now fewer)
    else record_attempt key limit now attempts

unfoldable pub check : Text → ℕ → AuthRateLimiter → AuthRateLimiter × Bool
unfolding check_at
check key now attempts = check_at key max_attempts now attempts

unfoldable pub clear : Text → AuthRateLimiter → AuthRateLimiter
clear key attempts = remove key attempts
