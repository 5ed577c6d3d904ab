-- ===== src/Drone/KeyManager.antt =====
-- plane/src/drone/key_manager.rs: the loop that renews the key of a backend and terminates the
-- backend when the key cannot be renewed, and the table of these loops.
pub mod Loop
pub mod Handles
use plane.Prelude.{
  Bool, List, Option, [], false, if◌then◌else◌, is_some, leb, none, some, true, ℕ, ◌++◌, ◌+◌, ◌-◌,
  ◌∷◌,
}
use plane.Prelude.Table
use plane.Prelude.Table.{Table}
use plane.BackendState.{TerminationKind, TerminationReason, soft, hard, key_expired}
use plane.Protocol.{AcquiredKey, BackendAction, KeyDeadlines, second, terminate}

-- What one round of `renew_key_loop` does: `apply_action` with a termination, or a renew request.
pub data Effect : Type 0 where
  apply : (action : BackendAction) → Effect
  send_renew : (local_time : ℕ) → Effect

-- How the round ends: the loop breaks, or sleeps and goes on.
pub data Next : Type 0 where
  stop : Next
  sleep : ℕ → Next

abbrev pub expire : TerminationKind → Effect
expire kind = apply (terminate kind key_expired)

-- One round, at the time `now`. `applied` is whether `apply_action` succeeds, `sender` whether
-- there is a sender, `lag` the time until the clock is read again for the request. A deadline that has passed gives no sleep, as `-` on ℕ gives 0.
unfoldable pub round : (sender applied : Bool) → (lag : ℕ) → KeyDeadlines → ℕ → List Effect × Next
round sender applied lag d now =
    if leb d.hard_terminate_at now
    then (expire hard ∷ [], if applied then stop else sleep second)
    else if leb d.soft_terminate_at now
    then (expire soft ∷ [], if applied then sleep (d.hard_terminate_at - now) else sleep second)
    else if leb d.renew_at now
    then (if sender then send_renew (now + lag) ∷ [] else [], sleep (d.soft_terminate_at - now))
    else ([], sleep (d.renew_at - now))

-- What the environment decides in one round: whether the action is applied, the time between the
-- two readings of the clock, and by how much the sleep, and the work before it, last longer than
-- was asked.
pub record Tick : Type 0 where
  pub applied : Bool
  pub lag : ℕ
  pub delay : ℕ

abbrev pub stamp : ℕ → List Effect → List (ℕ × Effect)
stamp now [] = []
stamp now (e ∷ es) = (now, e) ∷ stamp now es

-- `renew_key_loop`, for as many rounds as there are ticks: its effects with their times.
unfoldable pub renew_key_loop : (sender : Bool) → KeyDeadlines → ℕ → List Tick → List (ℕ × Effect)
renew_key_loop sender d now [] = []
renew_key_loop sender d now (tick ∷ ticks) =
    let (effects, next) = round sender tick.applied tick.lag d now in
    stamp now effects
    ++ (elim next [ stop ↦ [] | sleep t ↦ renew_key_loop sender d (now + t + tick.delay) ticks ])

-- The arguments that a running loop was started with.
pub record Handle : Type 0 where
  pub key : AcquiredKey
  pub sender : Option ℕ

pub record KeyManager : Type 0 where
  pub handles : Table (AcquiredKey × Handle)
  pub sender : Option ℕ  -- a socket, by number

unfoldable pub new : KeyManager
new = record { handles = []; sender = none }

-- Each loop is started anew with the new sender, and the old one is aborted.
restart : ℕ → Table (AcquiredKey × Handle) → Table (AcquiredKey × Handle)
restart sender [] = []
restart sender ((backend, (key, handle)) ∷ rest) =
    (backend, (key, record { key = key; sender = some sender })) ∷ restart sender rest

unfoldable pub set_sender : ℕ → KeyManager → KeyManager
unfolding restart
set_sender sender m = record { handles = restart sender m.handles; sender = some sender }

unfoldable pub register_key : ℕ → AcquiredKey → KeyManager → Bool × KeyManager
register_key backend key m = if is_some (Table.get backend m.handles) then (false, m) else (
  true,
  record m {
    handles = Table.insert backend (key, record { key = key; sender = m.sender }) m.handles;
  },
)

abbrev pub with_deadlines : KeyDeadlines → AcquiredKey → AcquiredKey
with_deadlines d key = record key { deadlines = d }

unfoldable pub update_deadlines : ℕ → KeyDeadlines → KeyManager → KeyManager
update_deadlines backend d m = elim (Table.get backend m.handles) [
  | none ↦ m
  | some (key, handle) ↦ record m {
    handles =
        Table.insert backend
          (with_deadlines d key, record { key = with_deadlines d key; sender = m.sender })
          m.handles;
  }
]

unfoldable pub unregister_key : ℕ → KeyManager → KeyManager
unregister_key backend m = record m { handles = Table.remove backend m.handles }
