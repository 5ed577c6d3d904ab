-- ===== src/Controller/StatusStream.antt =====
-- plane/src/controller/backend_state.rs: the stream of a backend's status that a client can resume.
pub mod Resume
use plane.Prelude.{Bool, List, Option, false, filterb, none, not, some}
use plane.BackendState.{BackendStatus, status, status_le}
use plane.BackendState.StreamEntry.{BackendStatusStreamEntry}

abbrev is_known : BackendStatus → Option BackendStatus → Bool
is_known s none = false
is_known s (some last) = status_le s last

-- `last_status` is the header `Last-Event-ID`, where it is there and is a status.
unfoldable pub handle_backend_status_stream :
    Option BackendStatus → List BackendStatusStreamEntry → List BackendStatusStreamEntry
unfolding filterb status_le
handle_backend_status_stream last_status entries =
    filterb (λ (e : BackendStatusStreamEntry). not (is_known e.status last_status)) entries
