-- ===== src/Runtime/Retry.antt =====
-- core/runtime/retry.go. What the code calls is in `World`, which says how each call changes the
-- state of type `W`: the operation, the context with its error and its end, and the timer. The test
-- `shouldRetry` is a function of the error; where the source has nil, it is true of every error.
pub mod Attempts
use graphjin_slim.Base.{
  ℕ, zero, suc, Bool, true, false, not, ◌&&◌, List, [], ◌∷◌, Option, none, some, ltb, if◌then◌else◌,
}

-- `wait` blocks for a delay: true if the timer fired, false if the context ended first. Without a
-- context it is the timer alone.
pub record World {ℓ} (E W : Type ℓ) : Type ℓ where
  pub operation : W → Option E × W
  pub context_error : W → Option E
  pub wait : ℕ → W → Bool × W
  pub sleep : ℕ → W → W

-- A `time.Duration` is its bit pattern: `delay <= 0` is a zero or a negative number.
abbrev pub half_range : ℕ
half_range = 9223372036854775808

abbrev pub is_positive : ℕ → Bool
is_positive d = ltb 0 d && ltb d half_range

abbrev pub is_nil {ℓ} : {A : Type ℓ} → List A → Bool
is_nil [] = true
is_nil (_ ∷ _) = false

-- the delays of `retryPolicy`
abbrev pub default_delays : List ℕ
default_delays = 50000000 ∷ 100000000 ∷ 200000000 ∷ []

-- `if len(delays) == 0`
unfoldable pub delays_or_one : List ℕ → List ℕ
delays_or_one [] = 0 ∷ []
delays_or_one (d ∷ ds) = d ∷ ds

module _ {ℓ} {E W : Type ℓ} (world : World E W) (has_context : Bool) (should_retry : E → Bool) where
  -- `c.Err()`, where there is a context
  unfoldable pub cancelled : W → Option E
  cancelled w = if has_context then world.context_error w else none

  -- The wait between two attempts: true if the loop goes on.
  unfoldable pub pause : ℕ → W → Bool × W
  pause d w =
      if not (is_positive d)
      then (true, w)
      else if has_context
      then world.wait d w
      else (true, world.sleep d w)

  -- The loop over the delays, with the last error.
  unfoldable pub attempts : List ℕ → Option E → W → Option E × W
  unfolding cancelled pause
  attempts [] last w = (last, w)
  attempts (d ∷ ds) last w = elim (cancelled w) [
    | some e ↦ (some e, w)
    | none ↦
        let (result, v) = world.operation w in
        elim result [
          | none ↦ (none, v)
          | some e ↦
              let (fired, u) = pause d v in
              let rest = attempts ds (some e) u in
              if not (should_retry e)
              then (some e, v)
              else if is_nil ds
              then (some e, v)
              else if fired
              then rest
              else (world.context_error u, u)
        ]
  ]

  unfoldable pub retry_operation_with_policy : List ℕ → W → Option E × W
  unfolding attempts delays_or_one
  retry_operation_with_policy delays w = attempts (delays_or_one delays) none w

-- `RetryOperationForDB`: the policy has no `shouldRetry`, so every error may be retried.
unfoldable pub retry_operation_for_db {ℓ} : {E W : Type ℓ} → World E W → Bool → W → Option E × W
unfolding retry_operation_with_policy
retry_operation_for_db world has_context w =
    retry_operation_with_policy world has_context (λ e. true) default_delays w
