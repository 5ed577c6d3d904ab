-- ===== src/Tests/Rows.antt =====
-- The rows of the backends (plane/src/database/backend.rs) and their states
-- (common/src/types/backend_state.rs).
use plane.Prelude.{All, List, [], arith, none, refl, some, ℕ, ◌<◌, ◌∷◌, ◌≡◌}
use plane.BackendState.{
  BackendState, BackendStatus, address, as_int, hard, key_expired, ordinal, status,
}
use plane.Database.Backend.{backend}
use plane.Database.Backend.Updates.{IsCoherent, highest, number_of, receive, receive-highest}
use plane.Tests.Connects.{held_database}

abbrev stopping : BackendState
stopping = BackendState.hard_terminating BackendStatus.ready key_expired

abbrev ended : BackendState
ended = BackendState.terminated BackendStatus.ready (some hard) (some key_expired) none

-- A late state comes last.
abbrev messages : List (ℕ × BackendState)
messages = (101, ended) ∷ (102, stopping) ∷ (103, BackendState.waiting 11) ∷ []

held_number : number_of (backend 50 held_database) ≡ some 50
unfolding backend
held_number = refl

receive-highest_example :
    number_of (backend 50 (receive 50 messages held_database)) ≡ some (highest 50 messages)
receive-highest_example = receive-highest 50 50 messages held_database held_number

coherent : All IsCoherent held_database.backend
unfolding status as_int address
coherent = (record { last_status = refl; last_status_number = refl; cluster_address = refl }, tt)

waiting_early : ordinal (status (BackendState.waiting 11)) < 5
unfolding ordinal status
waiting_early = omega arith
