-- ===== src/Drone/KeyManager/Loop.antt =====
-- When the loop of plane/src/drone/key_manager.rs terminates a backend.
use native.Mathlib.Decide.{dec_le}
use Prim.Native.Nat.{max}
use plane.Prelude.{
  ℕ, ◌<◌, ◌≤◌, All, All-append, Bool, Bool-cases, List, [], arith, false, if◌then◌else◌, inl, inr,
  leb, leb→le, not_leb→lt, true, ◌+◌, ◌∷◌, Option, none, some, ◌≡◌, All-map, length, refl,
}
use plane.BackendState.{TerminationKind}
use plane.Protocol.{KeyDeadlines, spawn, terminate, IsOrdered}
use plane.Drone.KeyManager.{
  stop, sleep, Effect, apply, send_renew, renew_key_loop, round, Tick, stamp, Next,
}

-- An effect is in time: no backend is terminated before its deadline, and no key is renewed
-- before its renewal time or after its soft deadline.
abbrev pub InTime : KeyDeadlines → ℕ × Effect → Type 0
InTime d (t, apply (spawn x k s)) = ⊥
InTime d (t, apply (terminate TerminationKind.soft r)) =
    (d.soft_terminate_at ≤ t) × (t < d.hard_terminate_at)
InTime d (t, apply (terminate TerminationKind.hard r)) = d.hard_terminate_at ≤ t
InTime d (t, send_renew l) = (d.renew_at ≤ t) × (t < d.soft_terminate_at)

round-InTime :
    (sender applied : Bool) (lag : ℕ) (d : KeyDeadlines) (now : ℕ)
    → All (InTime d) (stamp now (round sender applied lag d now).0)
unfolding round
round-InTime sender applied lag d now = elim (Bool-cases (leb d.hard_terminate_at now)) [
  | inl h ↦ rw h (leb→le _ _ h, tt)
  | inr not_hard ↦ rw not_hard (elim (Bool-cases (leb d.soft_terminate_at now)) [
    | inl h ↦ rw h ((leb→le _ _ h, omega (arith, not_leb→lt _ _ not_hard)), tt)
    | inr not_soft ↦ rw not_soft (elim (Bool-cases (leb d.renew_at now)) [
      | inl h ↦
          rw h
            (elim sender
              as (λ b. All (InTime d) (stamp now (if b then send_renew (now + lag) ∷ [] else []))) [
                | true ↦ ((leb→le _ _ h, not_leb→lt _ _ not_soft), tt)
                | false ↦ tt
              ])
      | inr h ↦ rw h tt
    ])
  ])
]

-- Whatever the environment does, the loop terminates a backend softly only between its soft and
-- its hard deadline, kills it only after its hard deadline, and asks for a renewal only between
-- the renewal time and the soft deadline.
pub renew_key_loop-InTime :
    (sender : Bool) (d : KeyDeadlines) (now : ℕ) (ticks : List Tick)
    → All (InTime d) (renew_key_loop sender d now ticks)
unfolding renew_key_loop
renew_key_loop-InTime sender d now [] = tt
renew_key_loop-InTime sender d now (tick ∷ ticks) =
    All-append (InTime d) (stamp now r.0) _ (round-InTime sender tick.applied tick.lag d now)
      (rest r.1 (λ t. renew_key_loop-InTime sender d (now + t + tick.delay) ticks))
  where
    r : List Effect × Next
    r = round sender tick.applied tick.lag d now

    rest :
        (next : Next)
        → ((t : ℕ) → All (InTime d) (renew_key_loop sender d (now + t + tick.delay) ticks))
        → All (InTime d) (elim next [
          | stop ↦ []
          | sleep t ↦ renew_key_loop sender d (now + t + tick.delay) ticks
        ])
    rest stop ih = tt
    rest (sleep t) ih = ih t

-- The time of the first kill in a trace.
abbrev pub kill_time : List (ℕ × Effect) → Option ℕ
kill_time [] = none
kill_time ((t, apply (terminate TerminationKind.hard r)) ∷ rest) = some t
kill_time (e ∷ rest) = kill_time rest

abbrev pub total_delay : List Tick → ℕ
total_delay [] = 0
total_delay (tick ∷ ticks) = tick.delay + total_delay ticks

-- The backend is killed at a time that is not before `lo` and not after `hi`.
abbrev pub KilledWithin : ℕ → ℕ → List (ℕ × Effect) → Type 0
KilledWithin lo hi es = (t : ℕ) × (kill_time es ≡ some t) × (lo ≤ t) × (t ≤ hi)

module _ (sender : Bool) (d : KeyDeadlines) where
  abbrev trace : ℕ → List Tick → List (ℕ × Effect)
  trace now ticks = renew_key_loop sender d now ticks

  kill_after_hard :
      (now : ℕ) (tick : Tick) (ticks : List Tick)
      → d.hard_terminate_at ≤ now
      → tick.applied ≡ true
      → kill_time (trace now (tick ∷ ticks)) ≡ some now
  unfolding renew_key_loop round
  kill_after_hard now tick ticks h a = ground arith

  kill_after_soft :
      (now : ℕ) (tick : Tick) (ticks : List Tick)
      → d.soft_terminate_at ≤ now
      → now < d.hard_terminate_at
      → tick.applied ≡ true
      → kill_time (trace now (tick ∷ ticks))
        ≡ kill_time (trace (d.hard_terminate_at + tick.delay) ticks)
  unfolding renew_key_loop round
  kill_after_soft now tick ticks s h a = ground arith

  kill_after_renew :
      (now : ℕ) (tick : Tick) (ticks : List Tick)
      → d.renew_at ≤ now
      → now < d.soft_terminate_at
      → d.soft_terminate_at ≤ d.hard_terminate_at
      → kill_time (trace now (tick ∷ ticks))
        ≡ kill_time (trace (d.soft_terminate_at + tick.delay) ticks)
  unfolding renew_key_loop round
  kill_after_renew now tick ticks r s o = ground arith

  kill_after_wait :
      (now : ℕ) (tick : Tick) (ticks : List Tick)
      → now < d.renew_at
      → IsOrdered d
      → kill_time (trace now (tick ∷ ticks)) ≡ kill_time (trace (d.renew_at + tick.delay) ticks)
  unfolding renew_key_loop round
  kill_after_wait now tick ticks r o = ground arith

  abbrev Applied : List Tick → Type 0
  Applied = All (λ (tick : Tick). tick.applied ≡ true)

  killed_from_hard :
      (now hi : ℕ) (ticks : List Tick)
      → d.hard_terminate_at ≤ now
      → 1 ≤ length ticks
      → Applied ticks
      → now ≤ hi
      → KilledWithin d.hard_terminate_at hi (trace now ticks)
  killed_from_hard now hi [] h n a b = absurd (omega arith)
  killed_from_hard now hi (tick ∷ ticks) h n a b = (now, kill_after_hard now tick ticks h a.0, h, b)

  killed_from_soft :
      (now hi : ℕ) (ticks : List Tick)
      → d.soft_terminate_at ≤ now
      → 2 ≤ length ticks
      → Applied ticks
      → now ≤ hi
      → d.hard_terminate_at + total_delay ticks ≤ hi
      → KilledWithin d.hard_terminate_at hi (trace now ticks)
  killed_from_soft now hi [] s n a b c = absurd (omega arith)
  killed_from_soft now hi (tick ∷ ticks) s n a b c = elim (dec_le d.hard_terminate_at now) [
    | yes h ↦ killed_from_hard now hi (tick ∷ ticks) h (omega arith) a b
    | no h ↦ rw (kill_after_soft now tick ticks s (omega arith) a.0) (
        killed_from_hard (d.hard_terminate_at + tick.delay) hi ticks (omega arith) (omega arith) a.1
          (omega arith))
  ]

  module _ (o : IsOrdered d) where
    killed_from_renew :
        (now hi : ℕ) (ticks : List Tick)
        → d.renew_at ≤ now
        → 3 ≤ length ticks
        → Applied ticks
        → now ≤ hi
        → d.hard_terminate_at + total_delay ticks ≤ hi
        → KilledWithin d.hard_terminate_at hi (trace now ticks)
    killed_from_renew now hi [] r n a b c = absurd (omega arith)
    killed_from_renew now hi (tick ∷ ticks) r n a b c = elim (dec_le d.soft_terminate_at now) [
      | yes s ↦ killed_from_soft now hi (tick ∷ ticks) s (omega arith) a b c
      | no s ↦ rw (kill_after_renew now tick ticks r (omega arith) o.soft_first) (
          killed_from_soft (d.soft_terminate_at + tick.delay) hi ticks (omega arith) (omega arith)
            a.1 (omega arith) (omega arith))
    ]

    killed_from :
        (now hi : ℕ) (ticks : List Tick)
        → 4 ≤ length ticks
        → Applied ticks
        → now ≤ hi
        → d.hard_terminate_at + total_delay ticks ≤ hi
        → KilledWithin d.hard_terminate_at hi (trace now ticks)
    killed_from now hi [] n a b c = absurd (omega arith)
    killed_from now hi (tick ∷ ticks) n a b c = elim (dec_le d.renew_at now) [
      | yes r ↦ killed_from_renew now hi (tick ∷ ticks) r (omega arith) a b c
      | no r ↦ rw (kill_after_wait now tick ticks (omega arith) o) (
          killed_from_renew (d.renew_at + tick.delay) hi ticks (omega arith) (omega arith) a.1
            (omega arith) (omega arith))
    ]

-- If no new deadlines come, four rounds whose actions are applied suffice for the loop to kill
-- the backend: not before its hard deadline, and at the latest when that deadline (or the start of
-- the loop, if it is later) and all the delays of the rounds have passed.
pub renew_key_loop-kills :
    (sender : Bool) (d : KeyDeadlines) (now : ℕ) (ticks : List Tick)
    → IsOrdered d
    → 4 ≤ length ticks
    → All (λ (tick : Tick). tick.applied ≡ true) ticks
    → KilledWithin d.hard_terminate_at
        (max now d.hard_terminate_at + total_delay ticks)
        (renew_key_loop sender d now ticks)
renew_key_loop-kills sender d now ticks o n a =
    killed_from sender d o now _ ticks n a (omega arith) (omega arith)

-- A soft termination.
abbrev pub is_soft : ℕ × Effect → Bool
is_soft (t, apply (terminate TerminationKind.soft r)) = true
is_soft _ = false

NoSoft_of_InTime :
    (d : KeyDeadlines) (e : ℕ × Effect)
    → d.hard_terminate_at ≤ d.soft_terminate_at
    → InTime d e
    → is_soft e ≡ false
NoSoft_of_InTime d (t, apply (terminate TerminationKind.soft r)) h i = absurd (omega arith)
NoSoft_of_InTime d (t, apply (terminate TerminationKind.hard r)) h i = refl
NoSoft_of_InTime d (t, apply (spawn x k s)) h i = refl
NoSoft_of_InTime d (t, send_renew l) h i = refl

-- Where the hard deadline is not after the soft one, the loop never terminates softly.
pub never_soft :
    (sender : Bool) (d : KeyDeadlines) (now : ℕ) (ticks : List Tick)
    → d.hard_terminate_at ≤ d.soft_terminate_at
    → All (λ e. is_soft e ≡ false) (renew_key_loop sender d now ticks)
never_soft sender d now ticks h =
    All-map _ _ (λ e i. NoSoft_of_InTime d e h i) (renew_key_loop sender d now ticks)
      (renew_key_loop-InTime sender d now ticks)
