-- ===== src/Backoff.antt =====
-- common/src/exponential_backoff.rs: how long a loop waits before it tries again. Times and
-- durations are nanoseconds. `scaled step` is the number of milliseconds that
-- `initial_duration_millis * multiplier.powi(step)` comes to, a computation on f64.
pub mod Bounds
use Prim.Native.Nat.{min}
use plane.Prelude.{Bool, Option, false, if◌then◌else◌, ltb, none, some, suc, ℕ, ◌*◌, ◌+◌}

pub record ExponentialBackoff : Type 0 where
  pub max_duration : ℕ
  pub defer_duration : ℕ
  pub step : ℕ
  pub deferred_reset : Option ℕ

abbrev pub new : ℕ → ℕ → ExponentialBackoff
new max_duration defer_duration = record {
  max_duration = max_duration;
  defer_duration = defer_duration;
  step = 0;
  deferred_reset = none;
}

unfoldable pub defer_reset : ℕ → ExponentialBackoff → ExponentialBackoff
defer_reset now b = record b { deferred_reset = some (now + b.defer_duration) }

unfoldable pub reset : ExponentialBackoff → ExponentialBackoff
reset b = record b { deferred_reset = none; step = 0 }

abbrev millisecond : ℕ
millisecond = 1_000_000

-- Whether the deferred reset is due.
abbrev pub is_due : ℕ → Option ℕ → Bool
is_due now none = false
is_due now (some deferred_reset) = ltb deferred_reset now

module _ (scaled : ℕ → ℕ) where
  abbrev pub duration : ExponentialBackoff → ℕ
  duration b = min (scaled b.step * millisecond) b.max_duration

  -- How long the call sleeps; none where it returns at once.
  unfoldable pub wait : ℕ → ExponentialBackoff → Option ℕ × ExponentialBackoff
  unfolding reset
  wait now b =
      if is_due now b.deferred_reset
      then (none, reset (record b { deferred_reset = none }))
      else (some (duration b), record b { deferred_reset = none; step = suc b.step })
