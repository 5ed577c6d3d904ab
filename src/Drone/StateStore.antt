-- ===== src/Drone/StateStore.antt =====
-- plane/src/drone/state_store.rs: the sqlite tables `backend` and `event` and the listener. Names
-- and ids are numbers, times are nanoseconds since the epoch. What the listener was called with is
-- the field `delivered`; a new listener starts with none.
pub mod Delivery
use mathlib.Core.List.{Perm}
use plane.Prelude.{
  Bool, List, Option, [], false, filterb, if◌then◌else◌, map, not, true, ℕ, ◌*◌, ◌++◌, ◌+◌, ◌/◌,
  ◌==◌, ◌∷◌,
}
use plane.Prelude.Table
use plane.Prelude.Table.{Table}
use plane.BackendState.{BackendState, is_terminated}

-- A row of the table `event`; the column "timestamp" is in milliseconds.
pub record EventRow : Type 0 where
  pub id : ℕ
  pub backend_id : ℕ
  pub event : BackendState
  pub timestamp : ℕ

pub record BackendStateMessage : Type 0 where
  pub event_id : ℕ
  pub backend_id : ℕ
  pub state : BackendState
  pub timestamp : ℕ

pub record StateStore : Type 0 where
  pub backend : Table BackendState
  pub event : List EventRow
  pub next_id : ℕ  -- of the autoincrement column
  pub listener : Bool
  pub delivered : List BackendStateMessage

-- `StateStore::new` on an empty database: the schema is created and there is no listener.
unfoldable pub new : StateStore
new = record { backend = []; event = []; next_id = 1; listener = false; delivered = [] }

abbrev pub timestamp_millis : ℕ → ℕ
timestamp_millis t = t / 1_000_000

abbrev pub from_millis : ℕ → ℕ
from_millis t = t * 1_000_000

-- The upsert into "backend" and the insert into "event" are one transaction; the listener is then
-- called with the time as it was given.
unfoldable pub register_event : ℕ → BackendState → ℕ → StateStore → StateStore
register_event b state now s =
    let row : EventRow = record {
      id = s.next_id;
      backend_id = b;
      event = state;
      timestamp = timestamp_millis now;
    } in
    let message : BackendStateMessage = record {
      event_id = s.next_id;
      backend_id = b;
      state = state;
      timestamp = now;
    } in
    record s {
      backend = Table.insert b state s.backend;
      event = s.event ++ row ∷ [];
      next_id = s.next_id + 1;
      delivered = if s.listener then s.delivered ++ message ∷ [] else s.delivered;
    }

-- `none` is the error "No backend with id … found in state store."
unfoldable pub backend_state : ℕ → StateStore → Option BackendState
backend_state b s = Table.get b s.backend

unfoldable pub message_of : EventRow → BackendStateMessage
message_of row = record {
  event_id = row.id;
  backend_id = row.backend_id;
  state = row.event;
  timestamp = from_millis row.timestamp;
}

-- `order by timestamp asc`: sqlite's sort is the parameter `order`.
unfoldable pub unacked_events :
    (List EventRow → List EventRow) → StateStore → List BackendStateMessage
unfolding message_of
unacked_events order s = map message_of (order s.event)

-- The events that were sent and not acked are replayed to the new listener.
unfoldable pub register_listener : (List EventRow → List EventRow) → StateStore → StateStore
unfolding unacked_events
register_listener order s = record s { listener = true; delivered = unacked_events order s }

unfoldable pub ack_event : ℕ → StateStore → StateStore
ack_event k s = record s { event = filterb (λ row. not (row.id == k)) s.event }

unfoldable pub active : Table BackendState → Table BackendState
active [] = []
active ((b, state) ∷ rest) =
    let others = active rest in if is_terminated state then others else (b, state) ∷ others

-- The backends that are not in a Terminated state.
unfoldable pub active_backends : StateStore → Table BackendState
unfolding active
active_backends s = active s.backend
