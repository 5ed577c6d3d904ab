-- ===== src/Protocol.antt =====
-- common/src/protocol.rs and common/src/types/mod.rs: what the controller and the drones tell one
-- another about keys and actions. Names, ids and tokens are numbers, since the program only
-- compares them; times and durations are nanoseconds.
use plane.Prelude.{Option, ℕ, ◌≤◌}
use plane.BackendState.{TerminationKind, TerminationReason}

abbrev pub second : ℕ
second = 1_000_000_000

pub record KeyConfig : Type 0 where
  pub name : ℕ
  pub namespace : ℕ
  pub tag : ℕ

pub record KeyDeadlines : Type 0 where
  pub renew_at : ℕ
  pub soft_terminate_at : ℕ
  pub hard_terminate_at : ℕ

pub record AcquiredKey : Type 0 where
  pub key : KeyConfig
  pub deadlines : KeyDeadlines
  pub token : ℕ

-- The executable of a spawn is a JSON value that the controller never reads: a number.
pub data BackendAction : Type 0 where
  spawn : (executable : ℕ) (key : AcquiredKey) (static_token : Option ℕ) → BackendAction
  terminate : (kind : TerminationKind) (reason : TerminationReason) → BackendAction

-- The deadlines come in their order.
pub record IsOrdered (d : KeyDeadlines) : Type 0 where
  pub renew_first : d.renew_at ≤ d.soft_terminate_at
  pub soft_first : d.soft_terminate_at ≤ d.hard_terminate_at
