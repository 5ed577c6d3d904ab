-- ===== src/Drone/BackendManager/Race.antt =====
-- The interleavings of plane/src/drone/backend_manager.rs. `terminate` and `mark_terminated` read
-- the state, release the lock and write later; a task that has resolved writes when it gets the
-- lock, and can no longer be aborted.
use plane.Prelude.{Bool, List, Option, [], none, refl, some, ℕ, ◌++◌, ◌∷◌, ◌≡◌, arith}
use plane.BackendState.{
  BackendState, BackendStatus, TerminationKind, TerminationReason, ExitCode, soft, ready, waiting,
  to_ready, to_terminating, to_terminated, status,
}
use plane.Drone.BackendManager.Lifecycle
use plane.Drone.BackendManager.Lifecycle.{Event, answer, answer_to, ask, exit, resume, run}
use plane.Drone.BackendManager.{
  Answer, BackendManager, Progress, Task, goes_on, mark_terminated, never, terminate, advance,
  backend_up, resolves, set_state, step_state, terminate_target, wait_for_backend,
}

-- A manager, and the states that some caller is about to write.
pub record Shared : Type 0 where
  pub manager : BackendManager
  pub writes : List BackendState

pub data Step (callback : BackendState → Bool) (s u : Shared) : Type 0 where
  resolve :
      (t : Task) (a : Answer) (x : BackendState)
      → s.manager.handle ≡ some t
      → advance t a ≡ resolves x
      → u ≡ record { manager = record s.manager { handle = none }; writes = x ∷ s.writes }
      → Step callback s u
  read_terminate :
      (kind : TerminationKind) (reason : TerminationReason)
      → u ≡ record s { writes = terminate_target kind reason s.manager.state ∷ s.writes }
      → Step callback s u
  read_exit :
      (exit_code : Option ExitCode)
      → u ≡ record s { writes = to_terminated s.manager.state exit_code ∷ s.writes }
      → Step callback s u
  write :
      (before : List BackendState) (x : BackendState) (after : List BackendState)
      → s.writes ≡ before ++ x ∷ after
      → u ≡ record { manager = (set_state callback x).0; writes = before ++ after }
      → Step callback s u

pub data Reach (callback : BackendState → Bool) (s : Shared) : Shared → Type 0 where
  here : Reach callback s s
  next : {t u : Shared} → Reach callback s t → Step callback t u → Reach callback s u

reach-append :
    {callback : BackendState → Bool} {s t u : Shared}
    → Reach callback s t
    → Reach callback t u
    → Reach callback s u
reach-append r here = r
reach-append r (next {t} q x) = next {t = t} (reach-append r q) x

-- A manager with no write under way.
abbrev at_rest : BackendManager → Shared
at_rest m = record { manager = m; writes = [] }

-- The steps of Lifecycle are those of the interleavings in which each write follows at once.
answer-Reach :
    (callback : BackendState → Bool) (a : Answer) (o : Option Task) (m : BackendManager)
    → m.handle ≡ o
    → Reach callback (at_rest m) (at_rest (answer_to callback a o m).0)
unfolding answer_to resume
answer-Reach callback a none m e = here
answer-Reach callback a (some t) m e = go (advance t a) refl
  where
    go :
        (p : Progress)
        → advance t a ≡ p
        → Reach callback (at_rest m) (at_rest (resume callback p m).0)
    go (resolves x) k =
        next {t = record { manager = record m { handle = none }; writes = x ∷ [] }}
          (next here (resolve t a x e k refl)) (write [] x [] refl refl)
    go never k = here
    go goes_on k = here

step-Reach :
    (callback : BackendState → Bool) (e : Event) (m : BackendManager)
    → Reach callback (at_rest m) (at_rest (Lifecycle.step callback e m).0)
unfolding Lifecycle.step terminate mark_terminated
step-Reach callback (answer a) m = answer-Reach callback a m.handle m refl
step-Reach callback (ask kind reason) m =
    next {t = record { manager = m; writes = terminate_target kind reason m.state ∷ [] }}
      (next here (read_terminate kind reason refl))
      (write [] (terminate_target kind reason m.state) [] refl refl)
step-Reach callback (exit x) m =
    next {t = record { manager = m; writes = to_terminated m.state x ∷ [] }}
      (next here (read_exit x refl)) (write [] (to_terminated m.state x) [] refl refl)

-- What a sequential life of a manager leads to is reached by an interleaving too.
run-Reach :
    (callback : BackendState → Bool) (es : List Event) (m : BackendManager)
    → Reach callback (at_rest m) (at_rest (run callback es m).0)
unfolding run
run-Reach callback [] m = here
run-Reach callback (e ∷ es) m =
    reach-append (step-Reach callback e m) (run-Reach callback es (Lifecycle.step callback e m).0)

abbrev alone : BackendState → Option Task → Shared
alone s handle = record { manager = record { state = s; handle = handle }; writes = [] }

module _ (callback : BackendState → Bool) (a : ℕ) (reason : TerminationReason) where
  abbrev wait_task : Task
  wait_task = wait_for_backend (waiting a) a

  abbrev asked : Shared
  asked = record {
    manager = (set_state callback (to_terminating (waiting a) reason)).0;
    writes = ready a ∷ [];
  }

  abbrev found : Shared
  found = record { manager = record { state = waiting a; handle = none }; writes = ready a ∷ [] }

  abbrev reading : Shared
  reading = record found { writes = to_terminating (waiting a) reason ∷ found.writes }

  asked_reached : Reach callback (alone (waiting a) (some wait_task)) asked
  unfolding advance to_ready terminate_target
  asked_reached =
      next {t = reading}
        (next {t = found} (next here (resolve wait_task backend_up (ready a) refl refl refl))
          (read_terminate soft reason refl))
        (write [] (to_terminating (waiting a) reason) (ready a ∷ []) refl refl)

  -- A termination can be lost. A backend waits, its task has just found it up, and before the
  -- task gets the lock a soft termination is read and written: the state is Terminating. The
  -- task then writes Ready; no task is left that would stop the backend.
  pub termination_lost :
      Reach callback (alone (waiting a) (some wait_task)) asked
      × (status asked.manager.state ≡ BackendStatus.terminating)
      × Reach callback asked (alone (ready a) none)
  unfolding set_state step_state to_terminating status
  termination_lost =
      (asked_reached, ground arith, next here (write [] (ready a) [] refl (ground arith)))
