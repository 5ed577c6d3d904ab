-- ===== src/Database/Events/Follow.antt =====
-- How a controller follows the log of events across lost connections
-- (`EventSubscriptionManager::new` of plane/src/database/subscribe.rs). An event takes its id before
-- it commits, so the events may commit in any order of their ids.
pub mod Sent
pub mod Connecting
pub mod Reading
pub mod Receiving
pub mod Gapless
use plane.Prelude.{
  All, List, Option, [], ap, arith, filterb, le→leb, ltb, lt→ltb, none, refl, some, ℕ, ◌++◌, ◌<◌,
  ◌∙◌, ◌∷◌, ◌≡◌, ◌≤◌,
}
use plane.Database.Events.{
  Event, Task, get_events_since, insert_by_id, of_event, receive, send_batch, sort_by_id,
}

pub data Phase : Type 0 where
  offline catching_up live : Phase

-- `log` is what has been committed, `queue` what the connection has notified and the task has not
-- received yet.
pub record World : Type 0 where
  pub log : List Event
  pub phase : Phase
  pub queue : List Event
  pub task : Task

abbrev pub initial : List Event → World
initial log = record {
  log = log;
  phase = offline;
  queue = [];
  task = record { last_message = none; sent = [] };
}

-- The phase that follows a listen: where no message was seen before, nothing is caught up.
abbrev pub after_listen : Option ℕ → Phase
after_listen none = live
after_listen (some id) = catching_up

abbrev pub queue_for : Phase → Event → List Event → List Event
queue_for offline e queue = queue
queue_for catching_up e queue = queue ++ e ∷ []
queue_for live e queue = queue ++ e ∷ []

pub data Step (w u : World) : Type 0 where
  commit :
      (e : Event)
      → u ≡ record w { log = w.log ++ e ∷ []; queue = queue_for w.phase e w.queue }
      → Step w u
  listen :
      w.phase ≡ offline
      → u ≡ record w { phase = after_listen w.task.last_message; queue = [] }
      → Step w u
  fetch :
      (last : ℕ) (e : Event) (es : List Event)
      → w.phase ≡ catching_up
      → w.task.last_message ≡ some last
      → get_events_since last w.log ≡ e ∷ es
      → u ≡ record w { task = send_batch (e ∷ es) w.task }
      → Step w u
  caught_up :
      (last : ℕ)
      → w.phase ≡ catching_up
      → w.task.last_message ≡ some last
      → get_events_since last w.log ≡ []
      → u ≡ record w { phase = live }
      → Step w u
  notify :
      (e : Event) (es : List Event)
      → w.phase ≡ live
      → w.queue ≡ e ∷ es
      → u ≡ record w { queue = es; task = receive (of_event e) w.task }
      → Step w u
  lose : u ≡ record w { phase = offline; queue = [] } → Step w u

pub data Reach (w : World) : World → Type 0 where
  here : Reach w w
  next : {u v : World} → Reach w u → Step u v → Reach w v
