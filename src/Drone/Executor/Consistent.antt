-- ===== src/Drone/Executor/Consistent.antt =====
-- The state store of plane/src/drone/executor.rs agrees with the managers.
use plane.Prelude.{List, Option, [], some, ℕ, ◌∷◌, ◌≡◌, Bool}
use plane.Prelude.Table
use plane.Prelude.Table.{Table}
use plane.BackendState.{BackendState, ExitCode}
use plane.Protocol.{BackendAction}
use plane.Drone.StateStore.{StateStore, backend_state}
use plane.Drone.BackendManager
use plane.Drone.BackendManager.{BackendManager, Answer, Task, Progress}
use plane.Drone.Executor.{apply_action, backend_event, runtime_answer, Executor, put, Executor, put}

abbrev last_of : Option BackendState → List BackendState → Option BackendState
last_of o [] = o
last_of o (s ∷ ss) = last_of (some s) ss

-- What is reported last is the state that a manager is in; where nothing is reported, `o` is.
abbrev Tells : Option BackendState → BackendManager × List BackendState → Type 0
Tells o (m, reports) = last_of o reports ≡ some m.state

-- Each manager's state is the one that the store holds for its backend.
pub record IsConsistent (e : Executor) : Type 0 where
  pub at :
      (b : ℕ) (m : BackendManager)
      → Table.get b e.backends ≡ some m
      → backend_state b e.store ≡ some m.state

-- What happens to an executor.
pub data Op : Type 0 where
  action : (runtime_ok : Bool) (backend : ℕ) (action : BackendAction) → Op
  event : (backend : ℕ) (exit_code : Option ExitCode) → Op
  answer_of : (backend : ℕ) (a : Answer) → Op

module _ (clock : ℕ → ℕ) where
  unfoldable pub perform : Op → Executor → Executor
  perform (action runtime_ok b x) e = (apply_action clock runtime_ok b x e).1
  perform (event b exit_code) e = backend_event clock b exit_code e
  perform (answer_of b a) e = runtime_answer clock b a e

  unfoldable pub perform_all : List Op → Executor → Executor
  perform_all [] e = e
  perform_all (op ∷ ops) e = perform_all ops (perform op e)
