-- ===== src/BackendState/Order.antt =====
-- The order of the statuses of common/src/types/backend_state.rs, and how the transitions of
-- `BackendState` move in it.
use plane.Prelude.{Option, arith, ◌<◌, ◌↔◌, ◌≡◌, ◌≤◌}
use plane.BackendState.{
  BackendState, BackendStatus, ExitCode, TerminationReason, as_int, ordinal, soft, status,
  to_hard_terminating, to_terminated, to_terminating,
}

-- The numbers of `as_int` are ordered exactly as the variants of the enum are, and so the
-- database, which compares `last_status_number`, and the code, which compares statuses, agree.
pub as_int-lt_iff : (a b : BackendStatus) → (as_int a < as_int b) ↔ (ordinal a < ordinal b)
unfolding as_int ordinal
as_int-lt_iff a b = ground arith

-- Neither way to terminate a backend moves its status back, and the status that was asked for is
-- reached or was passed before.
pub terminations_advance :
    (s : BackendState) (r : TerminationReason) (e : Option ExitCode)
    → (ordinal (status s) ≤ ordinal (status (to_terminating s r)))
      × (ordinal (status s) ≤ ordinal (status (to_hard_terminating s r)))
      × (5 ≤ ordinal (status (to_terminating s r)))
      × (6 ≤ ordinal (status (to_hard_terminating s r)))
      × (status (to_terminated s e) ≡ BackendStatus.terminated)
unfolding ordinal status to_terminating to_hard_terminating to_terminated
terminations_advance s r e = ground arith

-- What a state records of the time before its termination.
abbrev pub last_status : BackendState → BackendStatus
last_status (BackendState.terminating l k r) = l
last_status (BackendState.hard_terminating l r) = l
last_status (BackendState.terminated l k r e) = l
last_status s = status s

-- The recorded status comes from before the termination, and a soft termination is of kind soft.
abbrev pub IsRecorded : BackendState → Type 0
IsRecorded (BackendState.terminating l k r) = (ordinal l < 5) × (k ≡ soft)
IsRecorded (BackendState.hard_terminating l r) = ordinal l < 5
IsRecorded (BackendState.terminated l k r e) = ordinal l < 5
IsRecorded s = Unit

-- The transitions keep the record, and `last_status` is the same before and after each.
pub transitions-IsRecorded :
    (s : BackendState) (r : TerminationReason) (e : Option ExitCode)
    → IsRecorded s
    → IsRecorded (to_terminating s r)
      × IsRecorded (to_hard_terminating s r)
      × IsRecorded (to_terminated s e)
      × (last_status (to_terminating s r) ≡ last_status s)
      × (last_status (to_hard_terminating s r) ≡ last_status s)
      × (last_status (to_terminated s e) ≡ last_status s)
unfolding ordinal status to_terminating to_hard_terminating to_terminated
transitions-IsRecorded s r e h = ground arith
