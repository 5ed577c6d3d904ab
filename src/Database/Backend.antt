-- ===== src/Database/Backend.antt =====
-- plane/src/database/backend.rs: the table of backends.
pub mod Updates
pub mod Stream
use plane.Prelude.{
  Bool, List, Option, [], false, filterb, find, if◌then◌else◌, ltb, none, not, some, true, ℕ, ◌&&◌,
  ◌*◌, ◌++◌, ◌+◌, ◌==◌, ◌||◌, ◌∷◌,
}
use plane.Prelude.Rows.{any_where, delete_where, update_where}
use plane.BackendState.{BackendState, BackendStatus, address, status, as_int, is_terminated}
use plane.Protocol.{second, BackendAction}
use plane.Database.{BackendRow, Database, KeyRow}

-- `emit_state_change`: the row of the log and the notification.
unfoldable pub emit_state_change : ℕ → BackendState → Database → Database
emit_state_change b s db = record db {
  backend_state = db.backend_state ++ (b, s) ∷ [];
  emitted = db.emitted ++ (b, s) ∷ [];
}

-- `last_status_number < $3 or last_status_number is null`
abbrev pub is_before : Option ℕ → ℕ → Bool
is_before none n = true
is_before (some m) n = ltb m n

abbrev pub accepts : ℕ → ℕ → BackendRow → Bool
accepts b n row = row.id == b && is_before row.last_status_number n

abbrev pub with_state : ℕ → BackendState → BackendRow → BackendRow
with_state now s row = record row {
  last_status = status s;
  last_status_time = now;
  last_status_number = some (as_int (status s));
  cluster_address = address s;
  state = s;
}

unfoldable pub update_state : ℕ → ℕ → BackendState → Database → Bool × Database
unfolding emit_state_change update_where delete_where any_where
update_state now b s db =
    if any_where (accepts b (as_int (status s))) db.backend
    then (
      true,
      emit_state_change b s (record db {
        backend = update_where (accepts b (as_int (status s))) (with_state now s) db.backend;
        backend_key =
            if is_terminated s
            then delete_where (λ (k : KeyRow). k.id == b) db.backend_key
            else db.backend_key;
      }),
    )
    else (false, db)

abbrev pub is_terminated_status : BackendStatus → Bool
is_terminated_status BackendStatus.terminated = true
is_terminated_status _ = false

abbrev kept_alive : ℕ → BackendRow → Bool
kept_alive b row = row.id == b && not (is_terminated_status row.last_status)

unfoldable pub update_keepalive : ℕ → ℕ → Database → Bool × Database
unfolding update_where any_where
update_keepalive now b db = (
  any_where (kept_alive b) db.backend,
  record db {
    backend = update_where (kept_alive b) (λ row. record row { last_keepalive = now }) db.backend;
  },
)

abbrev pub is_scheduled_status : BackendStatus → Bool
is_scheduled_status BackendStatus.scheduled = true
is_scheduled_status _ = false

-- A comparison with a null is not true.
abbrev pub idle_too_long : ℕ → ℕ → Option ℕ → Bool
idle_too_long now last_keepalive none = false
idle_too_long now last_keepalive (some seconds) = ltb (last_keepalive + seconds * second) now

abbrev pub past : ℕ → Option ℕ → Bool
past now none = false
past now (some t) = ltb t now

abbrev pub is_candidate : ℕ → ℕ → BackendRow → Bool
is_candidate now drone row =
    row.drone_id == drone
    && (not (is_scheduled_status row.last_status || is_terminated_status row.last_status)
        && (idle_too_long now row.last_keepalive row.allowed_idle_seconds
            || past now row.expiration_time))

unfoldable pub termination_candidates : ℕ → ℕ → Database → List BackendRow
unfolding filterb
termination_candidates now drone db = filterb (is_candidate now drone) db.backend

-- `list_alive_backends_for_drone`, with the id of the drone that the subquery finds.
unfoldable pub list_alive_backends_for_drone : Option ℕ → Database → List BackendRow
unfolding filterb
list_alive_backends_for_drone none db = []
list_alive_backends_for_drone (some drone) db =
    filterb
      (λ (row : BackendRow). row.drone_id == drone && not (is_terminated_status row.last_status))
      db.backend

-- The row with this id; it is the primary key.
unfoldable pub backend : ℕ → Database → Option BackendRow
unfolding find
backend b db = find (λ (row : BackendRow). row.id == b) db.backend
