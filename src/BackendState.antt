-- ===== src/BackendState.antt =====
-- common/src/types/backend_state.rs: the states of a backend and the transitions between them.
pub mod Order
pub mod StreamEntry
use plane.Prelude.{ℕ, Bool, true, false, Option, none, some, leb, if◌then◌else◌}

pub data BackendStatus : Type 0 where
  scheduled loading starting waiting ready terminating hard_terminating terminated : BackendStatus

-- `as_int`, written to the column `last_status_number`.
unfoldable pub as_int : BackendStatus → ℕ
as_int scheduled = 10
as_int loading = 20
as_int starting = 30
as_int waiting = 40
as_int ready = 50
as_int terminating = 60
as_int hard_terminating = 65
as_int terminated = 70

-- The position of the variant: the order that `#[derive(PartialOrd)]` gives the enum.
unfoldable pub ordinal : BackendStatus → ℕ
ordinal scheduled = 0
ordinal loading = 1
ordinal starting = 2
ordinal waiting = 3
ordinal ready = 4
ordinal terminating = 5
ordinal hard_terminating = 6
ordinal terminated = 7

-- `a >= b` of the derived order
unfoldable pub status_ge : BackendStatus → BackendStatus → Bool
unfolding ordinal
status_ge a b = leb (ordinal b) (ordinal a)

-- `a <= b` of the derived order
unfoldable pub status_le : BackendStatus → BackendStatus → Bool
unfolding ordinal
status_le a b = leb (ordinal a) (ordinal b)

pub data TerminationKind : Type 0 where
  soft hard : TerminationKind

pub data TerminationReason : Type 0 where
  swept external key_expired lost startup_timeout internal_error : TerminationReason

-- An i32 exit code: `negsuc n` is -(n + 1).
pub data ExitCode : Type 0 where
  pos : ℕ → ExitCode
  negsuc : ℕ → ExitCode

-- A socket address, of which only the equality matters, is a number.
abbrev pub BackendAddr : Type 0
BackendAddr = ℕ

pub data BackendState : Type 0 where
  scheduled loading starting : BackendState
  waiting ready : (address : BackendAddr) → BackendState
  terminating :
      (last_status : BackendStatus) (termination : TerminationKind) (reason : TerminationReason)
      → BackendState
  hard_terminating : (last_status : BackendStatus) (reason : TerminationReason) → BackendState
  terminated :
      (last_status : BackendStatus) (termination : Option TerminationKind)
      (reason : Option TerminationReason) (exit_code : Option ExitCode)
      → BackendState

unfoldable pub address : BackendState → Option BackendAddr
address (BackendState.waiting a) = some a
address (BackendState.ready a) = some a
address _ = none

unfoldable pub status : BackendState → BackendStatus
status BackendState.scheduled = BackendStatus.scheduled
status BackendState.loading = BackendStatus.loading
status BackendState.starting = BackendStatus.starting
status (BackendState.waiting a) = BackendStatus.waiting
status (BackendState.ready a) = BackendStatus.ready
status (BackendState.terminating l k r) = BackendStatus.terminating
status (BackendState.hard_terminating l r) = BackendStatus.hard_terminating
status (BackendState.terminated l k r e) = BackendStatus.terminated

unfoldable pub status_int : BackendState → ℕ
unfolding as_int status
status_int s = as_int (status s)

unfoldable pub to_loading : BackendState → BackendState
to_loading s = BackendState.loading

unfoldable pub to_starting : BackendState → BackendState
to_starting s = BackendState.starting

unfoldable pub to_waiting : BackendState → BackendAddr → BackendState
to_waiting s a = BackendState.waiting a

unfoldable pub to_ready : BackendState → BackendAddr → BackendState
to_ready s a = BackendState.ready a

unfoldable pub to_terminating : BackendState → TerminationReason → BackendState
unfolding status status_ge
to_terminating s reason =
    if status_ge (status s) BackendStatus.terminating
    then s
    else BackendState.terminating (status s) soft reason

-- The `match` of `to_hard_terminating`.
hard_terminating_from : BackendState → TerminationReason → BackendState
unfolding status
hard_terminating_from (BackendState.terminating last_status k r) reason =
    BackendState.hard_terminating last_status reason
hard_terminating_from s reason = BackendState.hard_terminating (status s) reason

unfoldable pub to_hard_terminating : BackendState → TerminationReason → BackendState
unfolding hard_terminating_from status status_ge
to_hard_terminating s reason =
    if status_ge (status s) BackendStatus.hard_terminating
    then s
    else hard_terminating_from s reason

unfoldable pub to_terminated : BackendState → Option ExitCode → BackendState
unfolding status
to_terminated (BackendState.terminated l k r e) exit_code = BackendState.terminated l k r e
to_terminated (BackendState.hard_terminating last_status reason) exit_code =
    BackendState.terminated last_status (some hard) (some reason) exit_code
to_terminated (BackendState.terminating last_status termination reason) exit_code =
    BackendState.terminated last_status (some termination) (some reason) exit_code
to_terminated s exit_code = BackendState.terminated (status s) none none exit_code

-- `matches!(state, BackendState::Terminated { .. })`
unfoldable pub is_terminated : BackendState → Bool
is_terminated (BackendState.terminated l k r e) = true
is_terminated _ = false
