-- ===== src/Drone/BackendManager/Lifecycle.antt =====
-- The sequential life of a backend under plane/src/drone/backend_manager.rs: those of its schedules
-- in which no other operation comes between the read of a state and the write that follows from it.
-- The code reads and writes under two locks; Race.antt has all the schedules, these among them.
use plane.Prelude.{
  Bool, List, Option, [], arith, none, some, suc, ℕ, ◌++◌, ◌∷◌, ◌≡◌, ◌≤◌, refl, true, ◌∙◌, inl, inr,
  ◌⊎◌,
}
use plane.BackendState.{
  BackendState, TerminationKind, TerminationReason, ExitCode, ordinal, status, is_terminated,
  to_loading, to_terminated, to_starting, to_terminating, to_waiting, to_hard_terminating, to_ready,
}
use plane.Drone.BackendManager.{
  Answer, BackendManager, Progress, Task, advance, future_set_state, goes_on, mark_terminated,
  never, resolves, set_state, set_state_within, step_state, terminate, terminate_target, new,
}

-- Two rounds of `set_state` are enough: more fuel changes nothing, whatever the callback answers.
pub set_state_within-enough :
    (fuel : ℕ) (callback : BackendState → Bool) (s : BackendState)
    → set_state_within (suc (suc fuel)) callback s ≡ set_state callback s
unfolding set_state set_state_within step_state to_loading
set_state_within-enough fuel callback s = ground arith

-- What happens to a manager: the runtime answers the task, a termination is asked for, or the
-- process exits.
pub data Event : Type 0 where
  answer : Answer → Event
  ask : (kind : TerminationKind) (reason : TerminationReason) → Event
  exit : (exit_code : Option ExitCode) → Event

-- The manager goes on to the state that its task resolves to.
unfoldable pub resume :
    (BackendState → Bool) → Progress → BackendManager → BackendManager × List BackendState
resume callback (resolves s) m = set_state callback s
resume callback never m = (m, [])
resume callback goes_on m = (m, [])

unfoldable pub answer_to :
    (BackendState → Bool)
    → Answer
    → Option Task
    → BackendManager
    → BackendManager × List BackendState
unfolding resume
answer_to callback a none m = (m, [])
answer_to callback a (some task) m = resume callback (advance task a) m

unfoldable pub step :
    (BackendState → Bool) → Event → BackendManager → BackendManager × List BackendState
unfolding answer_to
step callback (answer a) m = answer_to callback a m.handle m
step callback (ask kind reason) m = terminate callback kind reason m
step callback (exit exit_code) m = mark_terminated callback exit_code m

-- The reports of a whole life, and where it leads.
unfoldable pub run :
    (BackendState → Bool) → List Event → BackendManager → BackendManager × List BackendState
run callback [] m = (m, [])
run callback (e ∷ es) m =
    let (m', reports) = step callback e m in
    let (m'', later) = run callback es m' in (m'', reports ++ later)

abbrev pub rank : BackendState → ℕ
rank s = ordinal (status s)

-- A task that runs is the one that the state calls for.
pub record IsValid (m : BackendManager) : Type 0 where
  pub task : (t : Task) → m.handle ≡ some t → step_state m.state ≡ future_set_state t

-- The states never go back, from `lo` on, and end at `hi` at most.
abbrev pub Ascends : ℕ → List BackendState → ℕ → Type 0
Ascends lo [] hi = lo ≤ hi
Ascends lo (s ∷ ss) hi = (lo ≤ rank s) × Ascends (rank s) ss hi

Ascends-append :
    (lo mid hi : ℕ) (xs ys : List BackendState)
    → Ascends lo xs mid
    → Ascends mid ys hi
    → Ascends lo (xs ++ ys) hi
Ascends-append lo mid hi [] ys h k = Ascends-lower ys h k
  where
    Ascends-lower : (zs : List BackendState) → lo ≤ mid → Ascends mid zs hi → Ascends lo zs hi
    Ascends-lower [] h k = omega arith
    Ascends-lower (z ∷ zs) h k = (omega arith, k.1)
Ascends-append lo mid hi (x ∷ xs) ys h k = (h.0, Ascends-append (rank x) mid hi xs ys h.1 k)

set_state-IsValid :
    (callback : BackendState → Bool) (s : BackendState) → IsValid (set_state callback s).0
unfolding set_state step_state
set_state-IsValid callback s = record { task = λ t h. ground arith }

set_state-Ascends :
    (callback : BackendState → Bool) (s : BackendState) (lo : ℕ)
    → lo ≤ rank s
    → Ascends lo (set_state callback s).1 (rank (set_state callback s).0.state)
unfolding set_state step_state ordinal status to_loading
set_state-Ascends callback s lo h = ground arith

-- A task that resolves does not lead back.
advance_ascends :
    (s : BackendState) (t : Task) (a : Answer) (s' : BackendState)
    → step_state s ≡ future_set_state t
    → advance t a ≡ resolves s'
    → rank s ≤ rank s'
unfolding step_state advance ordinal status to_starting to_waiting to_ready to_hard_terminating
    to_terminated
advance_ascends s t a s' h k = ground arith

resume-Ascends :
    (callback : BackendState → Bool) (p : Progress) (m : BackendManager)
    → ((s : BackendState) → p ≡ resolves s → rank m.state ≤ rank s)
    → Ascends (rank m.state) (resume callback p m).1 (rank (resume callback p m).0.state)
unfolding resume
resume-Ascends callback (resolves s) m h = set_state-Ascends callback s (rank m.state) (h s refl)
resume-Ascends callback never m h = omega arith
resume-Ascends callback goes_on m h = omega arith

answer-Ascends :
    (callback : BackendState → Bool) (a : Answer) (o : Option Task) (m : BackendManager)
    → ((t : Task) → o ≡ some t → step_state m.state ≡ future_set_state t)
    → Ascends (rank m.state) (answer_to callback a o m).1 (rank (answer_to callback a o m).0.state)
unfolding answer_to
answer-Ascends callback a none m h = omega arith
answer-Ascends callback a (some t) m h =
    resume-Ascends callback (advance t a) m (λ s e. advance_ascends m.state t a s (h t refl) e)

terminate_target-le :
    (kind : TerminationKind) (reason : TerminationReason) (s : BackendState)
    → rank s ≤ rank (terminate_target kind reason s)
unfolding terminate_target to_terminating to_hard_terminating ordinal status
terminate_target-le kind reason s = ground arith

rank-to_terminated : (s : BackendState) (e : Option ExitCode) → rank s ≤ rank (to_terminated s e)
unfolding to_terminated ordinal status
rank-to_terminated s e = ground arith

step-Ascends :
    (callback : BackendState → Bool) (e : Event) (m : BackendManager)
    → IsValid m
    → Ascends (rank m.state) (step callback e m).1 (rank (step callback e m).0.state)
unfolding step terminate mark_terminated
step-Ascends callback (answer a) m v = answer-Ascends callback a m.handle m v.task
step-Ascends callback (ask kind reason) m v =
    set_state-Ascends callback _ _ (terminate_target-le kind reason m.state)
step-Ascends callback (exit x) m v = set_state-Ascends callback _ _ (rank-to_terminated m.state x)

resume-IsValid :
    (callback : BackendState → Bool) (p : Progress) (m : BackendManager)
    → IsValid m
    → IsValid (resume callback p m).0
unfolding resume
resume-IsValid callback (resolves s) m v = set_state-IsValid callback s
resume-IsValid callback never m v = v
resume-IsValid callback goes_on m v = v

answer-IsValid :
    (callback : BackendState → Bool) (a : Answer) (o : Option Task) (m : BackendManager)
    → IsValid m
    → IsValid (answer_to callback a o m).0
unfolding answer_to
answer-IsValid callback a none m v = v
answer-IsValid callback a (some t) m v = resume-IsValid callback (advance t a) m v

step-IsValid :
    (callback : BackendState → Bool) (e : Event) (m : BackendManager)
    → IsValid m
    → IsValid (step callback e m).0
unfolding step terminate mark_terminated
step-IsValid callback (answer a) m v = answer-IsValid callback a m.handle m v
step-IsValid callback (ask kind reason) m v = set_state-IsValid callback _
step-IsValid callback (exit x) m v = set_state-IsValid callback _

run-Ascends_from :
    (callback : BackendState → Bool) (es : List Event) (m : BackendManager)
    → IsValid m
    → Ascends (rank m.state) (run callback es m).1 (rank (run callback es m).0.state)
unfolding run
run-Ascends_from callback [] m v = omega arith
run-Ascends_from callback (e ∷ es) m v =
    Ascends-append (rank m.state) (rank (step callback e m).0.state) _ (step callback e m).1 _
      (step-Ascends callback e m v)
      (run-Ascends_from callback es (step callback e m).0 (step-IsValid callback e m v))

-- Over a sequential life of a new manager, in which each read of the state is followed at once by
-- its write: whatever the runtime answers, whenever terminations are asked for or the process exits,
-- and whether or not reports fail, the states that are reported never go back in the order of the
-- statuses, and none is after the state that is reached.
pub run-Ascends :
    (callback : BackendState → Bool) (s : BackendState) (es : List Event)
    → Ascends
        (rank (new callback s).0.state)
        (run callback es (new callback s).0).1
        (rank (run callback es (new callback s).0).0.state)
unfolding new
run-Ascends callback s es = run-Ascends_from callback es _ (set_state-IsValid callback s)

step_terminated :
    (callback : BackendState → Bool) (e : Event) (m : BackendManager)
    → is_terminated m.state ≡ true
    → m.handle ≡ none
    → ((step callback e m).0.state ≡ m.state) × ((step callback e m).0.handle ≡ none)
unfolding step answer_to terminate mark_terminated set_state step_state is_terminated
    terminate_target to_terminating to_hard_terminating to_terminated status
step_terminated callback e m h n = ground arith

-- A backend that has terminated never runs again: its state stays as it is and no task is started,
-- whatever happens.
run-terminated :
    (callback : BackendState → Bool) (es : List Event) (m : BackendManager)
    → is_terminated m.state ≡ true
    → m.handle ≡ none
    → ((run callback es m).0.state ≡ m.state) × ((run callback es m).0.handle ≡ none)
unfolding run
run-terminated callback [] m h n = (refl, n)
run-terminated callback (e ∷ es) m h n =
    let (same, idle) = step_terminated callback e m h n in
    let (later, idle') = run-terminated callback es (step callback e m).0 (rw same h) idle in
    (later ∙ same, idle')

-- The exit of the process ends the backend in any state, also after terminations that were asked
-- for before, and its exit code is recorded unless it had terminated already.
exit_ends :
    (callback : BackendState → Bool) (m : BackendManager) (x : Option ExitCode)
    → (is_terminated (step callback (exit x) m).0.state ≡ true)
      × ((step callback (exit x) m).0.handle ≡ none)
unfolding step mark_terminated set_state step_state is_terminated to_terminated
exit_ends callback m x = ground arith

resume_cases :
    (callback : BackendState → Bool) (p : Progress) (m : BackendManager)
    → (resume callback p m ≡ (m, []))
      ⊎ ((s : BackendState) × (resume callback p m ≡ set_state callback s))
unfolding resume
resume_cases callback (resolves s) m = inr (s, refl)
resume_cases callback never m = inl refl
resume_cases callback goes_on m = inl refl

answer_cases_from :
    (callback : BackendState → Bool) (a : Answer) (o : Option Task) (m : BackendManager)
    → (answer_to callback a o m ≡ (m, []))
      ⊎ ((s : BackendState) × (answer_to callback a o m ≡ set_state callback s))
unfolding answer_to
answer_cases_from callback a none m = inl refl
answer_cases_from callback a (some t) m = resume_cases callback (advance t a) m

-- An answer changes nothing, or sets the state once.
pub answer_cases :
    (callback : BackendState → Bool) (a : Answer) (m : BackendManager)
    → (step callback (answer a) m ≡ (m, []))
      ⊎ ((s : BackendState) × (step callback (answer a) m ≡ set_state callback s))
unfolding step
answer_cases callback a m = answer_cases_from callback a m.handle m
