-- ===== src/Database/Backend/Stream.antt =====
-- `status_stream` of plane/src/database/backend.rs: a client that watches a backend's status gets
-- the states that were logged before it came and then the notifications.
pub mod Complete
pub mod Ascending
use plane.Prelude.{Bool, List, Option, [], false, none, some, true, ℕ, ◌++◌, ◌∷◌}
use plane.BackendState.{BackendState, BackendStatus, status, status_le}
use plane.BackendState.StreamEntry.{BackendStatusStreamEntry, from_state}

-- A row of the table `backend_state`; its state is none where the JSON value is not a state.
pub record StateRow : Type 0 where
  pub created_at : ℕ
  pub state : Option BackendState

-- `Notification<BackendState>`, of the subscription to one backend.
pub record StateNotice : Type 0 where
  pub timestamp : ℕ
  pub payload : BackendState

-- The entries of the rows that were read, and the status of the last of them.
unfoldable pub read_rows :
    Option BackendStatus → List StateRow → List BackendStatusStreamEntry × Option BackendStatus
read_rows last_status [] = ([], last_status)
read_rows last_status (row ∷ rows) = elim row.state [
  | none ↦ read_rows last_status rows
  | some s ↦
      let (entries, last) = read_rows (some (status s)) rows in
      (from_state s row.created_at ∷ entries, last)
]

abbrev is_seen : BackendStatus → Option BackendStatus → Bool
is_seen s none = false
is_seen s (some last) = status_le s last

unfoldable pub follow : Option BackendStatus → List StateNotice → List BackendStatusStreamEntry
follow last_status [] = []
follow last_status (item ∷ items) = elim (is_seen (status item.payload) last_status) [
  | true ↦ follow last_status items
  | false ↦ from_state item.payload item.timestamp ∷ follow (some (status item.payload)) items
]

unfoldable pub status_stream : List StateRow → List StateNotice → List BackendStatusStreamEntry
status_stream rows notices =
    let (entries, last_status) = read_rows none rows in entries ++ follow last_status notices
