-- ===== src/Backoff/Bounds.antt =====
-- The waits of common/src/exponential_backoff.rs are bounded, and they grow until a reset.
use plane.Prelude.{
  Bool-cases, List, Option, [], arith, inl, inr, none, refl, some, suc, ℕ, ◌∷◌, ◌≡◌, ◌≤◌, ◌⊎◌, All,
  length, subst, ◌+◌,
}
use plane.Backoff.{ExponentialBackoff, defer_reset, duration, is_due, reset, wait}

-- A call, with the time at which it is made.
pub data Call : Type 0 where
  waits : (now : ℕ) → Call
  defers : (now : ℕ) → Call

module _ (scaled : ℕ → ℕ) where
  abbrev slept : Option ℕ → List ℕ → List ℕ
  slept none sleeps = sleeps
  slept (some duration) sleeps = duration ∷ sleeps

  -- The sleeps of a sequence of calls and the backoff that they leave.
  unfoldable pub run : List Call → ExponentialBackoff → List ℕ × ExponentialBackoff
  unfolding defer_reset
  run [] b = ([], b)
  run (waits now ∷ calls) b =
      let (duration, b') = wait scaled now b in
      let (sleeps, b'') = run calls b' in (slept duration sleeps, b'')
  run (defers now ∷ calls) b = run calls (defer_reset now b)

  wait_bounds :
      (now : ℕ) (b : ExponentialBackoff)
      → let (duration, b') = wait scaled now b in
        (b'.max_duration ≡ b.max_duration)
        × (b'.step ≤ suc b.step)
        × ((duration ≡ none) ⊎ ((d : ℕ) × (duration ≡ some d) × (d ≤ b.max_duration)))
  unfolding wait reset
  wait_bounds now b = elim (Bool-cases (is_due now b.deferred_reset)) [
    | inl due ↦ rw due (refl, omega arith, inl refl)
    | inr early ↦ rw early (refl, omega arith, inr (duration scaled b, refl, omega arith))
  ]

  cons_bounds :
      (max : ℕ) (o : Option ℕ) (sleeps : List ℕ)
      → (o ≡ none) ⊎ ((d : ℕ) × (o ≡ some d) × (d ≤ max))
      → All (λ d. d ≤ max) sleeps
      → All (λ d. d ≤ max) (slept o sleeps)
  cons_bounds max o sleeps (inl e) h = rw e h
  cons_bounds max o sleeps (inr (d, e, le)) h = rw e (le, h)

  -- No sleep of a backoff is longer than its longest duration, whatever the multiplier, and its
  -- step, an i32, is at most the number of calls since it had step 0.
  pub run_bounds :
      (calls : List Call) (b : ExponentialBackoff)
      → let (sleeps, b') = run calls b in
        All (λ d. d ≤ b.max_duration) sleeps × (b'.step ≤ b.step + length calls)
  unfolding run defer_reset
  run_bounds [] b = (tt, omega arith)
  run_bounds (defers now ∷ calls) b =
      let (all, le) = run_bounds calls (defer_reset now b) in (all, omega arith)
  run_bounds (waits now ∷ calls) b =
      let (max_eq, step_le, bounded) = wait_bounds now b in
      let (all, le) = run_bounds calls (wait scaled now b).1 in
      (
        cons_bounds b.max_duration (wait scaled now b).0 _ bounded
            (subst (λ m. All (λ d. d ≤ m) (run calls (wait scaled now b).1).0) max_eq all),
        omega arith,
      )

  -- The sleeps of waits that no reset interrupts grow.
  abbrev NonDecreasing : List ℕ → Type 0
  NonDecreasing [] = Unit
  NonDecreasing (d ∷ ds) = All (λ e. d ≤ e) ds × NonDecreasing ds

  abbrev all_waits : List ℕ → List Call
  all_waits [] = []
  all_waits (t ∷ ts) = waits t ∷ all_waits ts

  wait_early :
      (now : ℕ) (b : ExponentialBackoff)
      → b.deferred_reset ≡ none
      → wait scaled now b ≡ (some (duration scaled b), record b { step = suc b.step })
  unfolding wait
  wait_early now b h = rw h refl

  at_least :
      (ts : List ℕ) (b : ExponentialBackoff) (low : ℕ)
      → ((m n : ℕ) → m ≤ n → scaled m ≤ scaled n)
      → b.deferred_reset ≡ none
      → low ≤ duration scaled b
      → All (λ d. low ≤ d) (run (all_waits ts) b).0
  unfolding run
  at_least [] b low mono h le = tt
  at_least (t ∷ ts) b low mono h le = rw (wait_early t b h) (
    le,
    at_least ts (record b { step = suc b.step }) low mono h
        (omega (arith, mono b.step (suc b.step) (omega arith), le)),
  )

  -- Waits in a row, with no deferred reset, are no shorter each time, where the power grows.
  waits_grow :
      (ts : List ℕ) (b : ExponentialBackoff)
      → ((m n : ℕ) → m ≤ n → scaled m ≤ scaled n)
      → b.deferred_reset ≡ none
      → NonDecreasing (run (all_waits ts) b).0
  unfolding run
  waits_grow [] b mono h = tt
  waits_grow (t ∷ ts) b mono h = rw (wait_early t b h) (
    at_least ts (record b { step = suc b.step }) (duration scaled b) mono h
        (omega (arith, mono b.step (suc b.step) (omega arith))),
    waits_grow ts (record b { step = suc b.step }) mono h,
  )
