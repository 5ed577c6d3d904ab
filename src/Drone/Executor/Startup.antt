-- ===== src/Drone/Executor/Startup.antt =====
-- `terminate_preexisting_backends` of plane/src/drone/executor.rs: when a drone starts, a task for
-- each backend that its database calls active. The tasks run concurrently (`join_all`). Between
-- its two writes a task calls the runtime, up to ten times, whatever comes of it.
use plane.Prelude.{
  Bool, List, [], false, none, suc, true, zero, ℕ, ◌++◌, ◌+◌, ◌∷◌, ◌≡◌, arith, refl, some, ◌==◌,
  ◌||◌, ◌⊎◌, All, Bool-cases, Option, inl, inr, ◌≤◌,
}
use plane.Prelude.Table
use plane.Prelude.Table.{Table, get-insert}
use plane.BackendState.{
  BackendState, ExitCode, key_expired, to_hard_terminating, to_terminated, is_terminated,
}
use plane.Drone.StateStore.{StateStore, register_event, backend_state, active_backends, active}

-- The loop `for attempt in 1..=10`: how often the runtime is called, and with what success;
-- `ok n` is whether call n succeeds.
unfoldable pub attempts : (ℕ → Bool) → ℕ → ℕ → ℕ × Bool
attempts ok n zero = (n, false)
attempts ok n (suc left) = elim (ok (n + 1)) [
  | true ↦ (n + 1, true)
  | false ↦ attempts ok (n + 1) left
]

-- The task of one backend, before its first write or before its second.
pub record Task : Type 0 where
  pub backend : ℕ
  pub state : BackendState
  pub killed : Bool

tasks_of : Table BackendState → List Task
tasks_of [] = []
tasks_of ((b, s) ∷ rest) = record { backend = b; state = s; killed = false } ∷ tasks_of rest

unfoldable pub startup_tasks : StateStore → List Task
unfolding tasks_of
startup_tasks store = tasks_of (active_backends store)

module _ (clock : ℕ → ℕ) where
  unfoldable pub first_write : Task → StateStore → StateStore
  first_write t store =
      register_event t.backend (to_hard_terminating t.state key_expired) (clock store.next_id) store

  unfoldable pub second_write : Task → StateStore → StateStore
  second_write t store =
      register_event t.backend (to_terminated t.state none) (clock store.next_id) store

  -- The tasks run to their end, in any interleaving.
  pub data Runs : StateStore → List Task → StateStore → Type 0 where
    done :
        {store end : StateStore} {tasks : List Task}
        → tasks ≡ []
        → end ≡ store
        → Runs store tasks end
    kill :
        {store end : StateStore} {tasks : List Task} (before : List Task) (t : Task)
        (after : List Task)
        → tasks ≡ before ++ t ∷ after
        → t.killed ≡ false
        → Runs (first_write t store) (before ++ record t { killed = true } ∷ after) end
        → Runs store tasks end
    finish :
        {store end : StateStore} {tasks : List Task} (before : List Task) (t : Task)
        (after : List Task)
        → tasks ≡ before ++ t ∷ after
        → t.killed ≡ true
        → Runs (second_write t store) (before ++ after) end
        → Runs store tasks end

  -- The tasks one after the other.
  unfoldable pub terminate_preexisting_backends : List Task → StateStore → StateStore
  terminate_preexisting_backends [] store = store
  terminate_preexisting_backends (t ∷ ts) store =
      terminate_preexisting_backends ts (second_write t (first_write t store))

-- A task of this backend is left.
has_task : ℕ → List Task → Bool
has_task b [] = false
has_task b (t ∷ ts) = t.backend == b || has_task b ts

has_task-middle :
    (b : ℕ) (ts : List Task) (t : Task) (us : List Task)
    → has_task b (ts ++ t ∷ us) ≡ (t.backend == b || has_task b (ts ++ us))
unfolding has_task
has_task-middle b [] t us = refl
has_task-middle b (t' ∷ ts) t us = ground (arith, has_task-middle b ts t us)

to_terminated_ends :
    (s : BackendState) (x : Option ExitCode) → is_terminated (to_terminated s x) ≡ true
unfolding is_terminated to_terminated
to_terminated_ends s x = ground arith

-- A backend whose state is not terminated has a task.
record IsCovered (store : StateStore) (tasks : List Task) : Type 0 where
  at :
      (b : ℕ) (s : BackendState)
      → backend_state b store ≡ some s
      → (is_terminated s ≡ true) ⊎ (has_task b tasks ≡ true)

tasks-cover :
    (table : Table BackendState) (b : ℕ) (s : BackendState)
    → Table.get b table ≡ some s
    → (is_terminated s ≡ true) ⊎ (has_task b (tasks_of (active table)) ≡ true)
unfolding Table.get active tasks_of has_task
tasks-cover [] b s h = cc
tasks-cover ((j, v) ∷ m) b s h = ground (arith, tasks-cover m b s)

module _ (clock : ℕ → ℕ) where
  first_write-IsCovered :
      (store : StateStore) (before : List Task) (t : Task) (after : List Task)
      → IsCovered store (before ++ t ∷ after)
      → IsCovered (first_write clock t store) (before ++ record t { killed = true } ∷ after)
  unfolding first_write register_event backend_state
  first_write-IsCovered store before t after v = record {
    at = λ b s h. ground (
      arith,
      has_task-middle b before t after,
      has_task-middle b before (record t { killed = true }) after,
      get-insert t.backend b (to_hard_terminating t.state key_expired) store.backend,
      v.at b s,
    );
  }

  second_write-IsCovered :
      (store : StateStore) (before : List Task) (t : Task) (after : List Task)
      → IsCovered store (before ++ t ∷ after)
      → IsCovered (second_write clock t store) (before ++ after)
  unfolding second_write register_event backend_state
  second_write-IsCovered store before t after v = record {
    at = λ b s h. ground (
      arith,
      has_task-middle b before t after,
      get-insert t.backend b (to_terminated t.state none) store.backend,
      to_terminated_ends t.state none,
      v.at b s,
    );
  }

  Runs-terminates :
      {store end : StateStore} {tasks : List Task}
      → Runs clock store tasks end
      → IsCovered store tasks
      → (b : ℕ) (s : BackendState) → backend_state b end ≡ some s
      → is_terminated s ≡ true
  unfolding has_task
  Runs-terminates (done e same) v b s h = elim (v.at b s (rw (← same) h)) [
    | inl ended ↦ ended
    | inr left ↦ cc (e, left)
  ]
  Runs-terminates {store} (kill before t after e k r) v b s h =
      Runs-terminates r (first_write-IsCovered store before t after (rw e at v)) b s h
  Runs-terminates {store} (finish before t after e k r) v b s h =
      Runs-terminates r (second_write-IsCovered store before t after (rw e at v)) b s h

-- Whatever the interleaving of the tasks, when they have all run the drone's database holds no
-- backend that is not terminated: the drone starts with none of its old backends.
pub preexisting_terminated :
    (clock : ℕ → ℕ) (store end : StateStore) (b : ℕ) (s : BackendState)
    → Runs clock store (startup_tasks store) end
    → backend_state b end ≡ some s
    → is_terminated s ≡ true
unfolding startup_tasks active_backends
preexisting_terminated clock store end b s r h =
    Runs-terminates clock r (record { at = unfold backend_state in tasks-cover store.backend }) b s
      h

-- The sequential order is one of the interleavings.
pub terminate_preexisting_backends-Runs :
    (clock : ℕ → ℕ) (ts : List Task) (store : StateStore)
    → All (λ (t : Task). t.killed ≡ false) ts
    → Runs clock store ts (terminate_preexisting_backends clock ts store)
unfolding terminate_preexisting_backends second_write
terminate_preexisting_backends-Runs clock [] store h = done refl refl
terminate_preexisting_backends-Runs clock (t ∷ ts) store h = kill [] t ts refl h.0 (
    finish [] (record t { killed = true }) ts refl refl
      (terminate_preexisting_backends-Runs clock ts _ h.1))

-- The runtime is called at most as often as attempts are left.
pub attempts_bounded : (ok : ℕ → Bool) (n left : ℕ) → (attempts ok n left).0 ≤ n + left
unfolding attempts
attempts_bounded ok n zero = omega arith
attempts_bounded ok n (suc left) = elim (Bool-cases (ok (n + 1))) [
  | inl success ↦ rw (success, attempts) (omega arith)
  | inr failure ↦ rw (failure, attempts) (omega (arith, attempts_bounded ok (n + 1) left))
]
