-- ===== src/Drone/BackendManager.antt =====
-- plane/src/drone/backend_manager.rs: the state machine that drives one backend. The runtime's
-- answers and the result of the state callback come from outside. An operation returns the
-- manager and the states that the callback was called with, in order.
pub mod Lifecycle
pub mod Race
use plane.Prelude.{
  Bool, List, Option, [], false, if◌then◌else◌, none, some, suc, true, zero, ℕ, ◌∷◌,
}
use plane.BackendState.{
  BackendState, TerminationKind, TerminationReason, ExitCode, BackendAddr, soft, hard,
  startup_timeout, internal_error, to_loading, to_starting, to_waiting, to_ready, to_terminating,
  to_hard_terminating, to_terminated,
}

-- A future that is awaited, with the state that it was started in.
pub data Task : Type 0 where
  prepare : (state : BackendState) → Task
  spawn : (state : BackendState) → Task
  wait_for_backend : (state : BackendState) (address : BackendAddr) → Task
  handle_terminating : (state : BackendState) (hard_terminate : Bool) → Task

pub data StepStatusResult : Type 0 where
  do_nothing : StepStatusResult
  set_state_to : BackendState → StepStatusResult
  future_set_state : Task → StepStatusResult

-- What a call of the runtime returns.
pub data Answer : Type 0 where
  prepared : (ok : Bool) → Answer
  spawned : (address : Option BackendAddr) → Answer
  backend_up : Answer
  startup_timed_out : Answer
  startup_failed : Answer
  terminate_ok : (was_running : Bool) → Answer
  terminate_failed : Answer

-- What becomes of a task: it resolves to a state, it never resolves, or it goes on.
pub data Progress : Type 0 where
  resolves : BackendState → Progress
  never : Progress
  goes_on : Progress

-- The bodies of the futures. `handle_terminating` calls the runtime again after an error, and
-- waits for the container's end if it was running; an answer to another call changes nothing.
unfoldable pub advance : Task → Answer → Progress
advance (prepare s) (prepared ok) =
    if ok then resolves (to_starting s) else resolves (to_terminated s none)
advance (spawn s) (spawned none) = resolves (to_terminated s none)
advance (spawn s) (spawned (some address)) = resolves (to_waiting s address)
advance (wait_for_backend s address) backend_up = resolves (to_ready s address)
advance (wait_for_backend s address) startup_timed_out =
    resolves (to_hard_terminating s startup_timeout)
advance (wait_for_backend s address) startup_failed =
    resolves (to_hard_terminating s internal_error)
advance (handle_terminating s h) (terminate_ok was_running) =
    if was_running then never else resolves (to_terminated s none)
advance (handle_terminating s h) terminate_failed = goes_on
advance _ _ = goes_on

unfoldable pub step_state : BackendState → StepStatusResult
step_state BackendState.scheduled = set_state_to (to_loading BackendState.scheduled)
step_state BackendState.loading = future_set_state (prepare BackendState.loading)
step_state BackendState.starting = future_set_state (spawn BackendState.starting)
step_state (BackendState.waiting a) = future_set_state (wait_for_backend (BackendState.waiting a) a)
step_state (BackendState.ready a) = do_nothing
step_state (BackendState.terminating l k r) =
    future_set_state (handle_terminating (BackendState.terminating l k r) false)
step_state (BackendState.hard_terminating l r) =
    future_set_state (handle_terminating (BackendState.hard_terminating l r) true)
step_state (BackendState.terminated l k r e) = do_nothing

pub record BackendManager : Type 0 where
  pub state : BackendState
  pub handle : Option Task

abbrev cons_report :
    BackendState → BackendManager × List BackendState → BackendManager × List BackendState
cons_report s (m, reports) = (m, s ∷ reports)

-- `set_state` calls itself when a state is left at once; the fuel bounds these calls.
unfoldable pub set_state_within :
    ℕ → (BackendState → Bool) → BackendState → BackendManager × List BackendState
unfolding step_state
set_state_within zero callback s = (record { state = s; handle = none }, [])
set_state_within (suc fuel) callback s = elim (callback s) [
  | false ↦ (record { state = s; handle = none }, s ∷ [])
  | true ↦ elim (step_state s) [
    | do_nothing ↦ (record { state = s; handle = none }, s ∷ [])
    | set_state_to s' ↦ cons_report s (set_state_within fuel callback s')
    | future_set_state task ↦ (record { state = s; handle = some task }, s ∷ [])
  ]
]

-- The old state and the old task play no part: the state is overwritten and the task aborted.
-- Only `Scheduled` is left at once, for `Loading`, so two rounds are enough.
unfoldable pub set_state : (BackendState → Bool) → BackendState → BackendManager × List BackendState
unfolding set_state_within
set_state callback s = set_state_within 2 callback s

-- `BackendManager::new`
unfoldable pub new : (BackendState → Bool) → BackendState → BackendManager × List BackendState
unfolding set_state
new callback s = set_state callback s

-- The state that `terminate` goes to, from the state that it has read.
unfoldable pub terminate_target : TerminationKind → TerminationReason → BackendState → BackendState
terminate_target soft reason s = to_terminating s reason
terminate_target hard reason s = to_hard_terminating s reason

-- `terminate` and `mark_terminated`, where nothing comes between the read and the write.
unfoldable pub terminate :
    (BackendState → Bool)
    → TerminationKind
    → TerminationReason
    → BackendManager
    → BackendManager × List BackendState
unfolding terminate_target set_state
terminate callback kind reason m = set_state callback (terminate_target kind reason m.state)

unfoldable pub mark_terminated :
    (BackendState → Bool) → Option ExitCode → BackendManager → BackendManager × List BackendState
unfolding set_state
mark_terminated callback exit_code m = set_state callback (to_terminated m.state exit_code)
