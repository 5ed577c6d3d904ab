-- ===== src/BackendState/StreamEntry.antt =====
-- `BackendStatusStreamEntry` of common/src/types/backend_state.rs: what public endpoints show of a
-- backend's state.
use plane.Prelude.{
  Bool, Option, arith, false, if◌then◌else◌, none, not, refl, some, true, ℕ, ◌<◌, ◌==◌, ◌≡◌,
}
use plane.BackendState.{
  BackendState, BackendStatus, ExitCode, TerminationKind, TerminationReason, hard, negsuc, ordinal,
  pos, soft, status, to_hard_terminating, to_terminated, to_terminating,
}

pub record BackendStatusStreamEntry : Type 0 where
  pub status : BackendStatus
  pub termination_reason : Option TerminationReason
  pub termination_kind : Option TerminationKind
  pub exit_error : Option Bool
  pub time : ℕ

termination_reason_of : BackendState → Option TerminationReason
termination_reason_of (BackendState.terminated l k reason e) = reason
termination_reason_of (BackendState.terminating l k reason) = some reason
termination_reason_of (BackendState.hard_terminating l reason) = some reason
termination_reason_of _ = none

termination_kind_of : BackendState → Option TerminationKind
termination_kind_of (BackendState.terminated l kind r e) = kind
termination_kind_of (BackendState.terminating l k r) = some soft
termination_kind_of (BackendState.hard_terminating l r) = some hard
termination_kind_of _ = none

-- `d != 0` of an exit code
abbrev is_failure : ExitCode → Bool
is_failure (pos n) = not (n == 0)
is_failure (negsuc n) = true

exit_error_of : BackendState → Option Bool
exit_error_of (BackendState.terminated l k r none) = some false
exit_error_of (BackendState.terminated l k r (some d)) =
    if is_failure d then some true else some false
exit_error_of _ = none

unfoldable pub from_state : BackendState → ℕ → BackendStatusStreamEntry
unfolding termination_reason_of termination_kind_of exit_error_of status
from_state s timestamp = record {
  status = status s;
  termination_reason = termination_reason_of s;
  termination_kind = termination_kind_of s;
  exit_error = exit_error_of s;
  time = timestamp;
}

-- An entry of a backend that is not yet stopping carries no termination.
pub live_entry :
    (s : BackendState) (t : ℕ)
    → ordinal (status s) < 5
    → ((from_state s t).termination_reason ≡ none) × ((from_state s t).termination_kind ≡ none)
unfolding from_state ordinal
live_entry s t h = ground arith

-- Terminating a state that is not yet stopping, softly or hard, and then seeing the process end
-- gives entries that agree on the reason and on the kind of the termination.
pub termination_entries_agree :
    (s : BackendState) (r : TerminationReason) (e : Option ExitCode) (t u : ℕ)
    → ordinal (status s) < 5
    → ((from_state (to_terminated (to_terminating s r) e) u).termination_reason ≡ some r)
      × ((from_state (to_terminating s r) t).termination_reason ≡ some r)
      × ((from_state (to_terminated (to_terminating s r) e) u).termination_kind ≡ some soft)
      × ((from_state (to_terminating s r) t).termination_kind ≡ some soft)
      × ((from_state (to_terminated (to_hard_terminating s r) e) u).termination_reason ≡ some r)
      × ((from_state (to_terminated (to_hard_terminating s r) e) u).termination_kind ≡ some hard)
      × ((from_state (to_hard_terminating s r) t).termination_kind ≡ some hard)
unfolding from_state ordinal to_terminating to_hard_terminating to_terminated
termination_entries_agree BackendState.scheduled r e t u h =
    (refl, refl, refl, refl, refl, refl, refl)
termination_entries_agree BackendState.loading r e t u h =
    (refl, refl, refl, refl, refl, refl, refl)
termination_entries_agree s r e t u h = ground arith
