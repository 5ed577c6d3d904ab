-- ===== src/Proxy/ConnectionMonitor.antt =====
-- The connections that the proxy counts and the heartbeats it sends for them
-- (plane/src/proxy/connection_monitor.rs). The task that visits the queue takes an entry under one
-- lock and acts on it under another, so a visit is two operations here.
pub mod Counts
pub mod Watched
use plane.Prelude.Table.{Table}
use plane.Prelude.{
  Bool, List, Option, [], false, if◌then◌else◌, ltb, none, some, true, ℕ, ◌%◌, ◌++◌, ◌+◌, ◌-◌, ◌^◌,
  ◌||◌, ◌∷◌,
}
use plane.Prelude.Table

-- `HEARTBEAT_INTERVAL`, in seconds
abbrev pub heartbeat_interval : ℕ
heartbeat_interval = 7

pub record BackendEntry : Type 0 where
  pub active_connections : ℕ
  pub had_recent_connection : Bool

-- `reported` is what the listener has been called with, the last one first; `taken` is the backend
-- that the task has taken off the queue and waits for.
pub record ConnectionMonitor : Type 0 where
  pub visit_queue : List (ℕ × ℕ)
  pub backends : Table BackendEntry
  pub listener : Bool
  pub reported : List ℕ
  pub taken : Option (ℕ × ℕ)

unfoldable pub empty : ConnectionMonitor
empty = record { visit_queue = []; backends = []; listener = false; reported = []; taken = none }

unfoldable pub set_listener : ConnectionMonitor → ConnectionMonitor
set_listener m = record m { listener = true }

unfoldable pub remove_backend : ℕ → ConnectionMonitor → ConnectionMonitor
remove_backend b m = record m { backends = Table.remove b m.backends }

abbrev pub report : Bool → ℕ → List ℕ → List ℕ
report listening b reported = if listening then b ∷ reported else reported

-- `push_back` of the next visit, at `now + HEARTBEAT_INTERVAL`.
abbrev pub queue_visit : ℕ → ℕ → List (ℕ × ℕ) → List (ℕ × ℕ)
queue_visit now b queue = queue ++ (now + heartbeat_interval, b) ∷ []

-- A backend that is not known yet: report it, queue its first visit and add its entry.
unfoldable pub enter : ℕ → ℕ → ℕ → ConnectionMonitor → ConnectionMonitor
enter now b n m = record m {
  visit_queue = queue_visit now b m.visit_queue;
  backends =
      Table.insert b (record { active_connections = n; had_recent_connection = true }) m.backends;
  reported = report m.listener b m.reported;
}

unfoldable pub set_entry : ℕ → ℕ → Bool → ConnectionMonitor → ConnectionMonitor
set_entry b n recent m = record m {
  backends =
      Table.insert b (record { active_connections = n; had_recent_connection = recent }) m.backends;
}

abbrev pub touched : ℕ → ℕ → Option BackendEntry → ConnectionMonitor → ConnectionMonitor
touched now b none m = enter now b 0 m
touched now b (some e) m = set_entry b e.active_connections true m

unfoldable pub touch_backend : ℕ → ℕ → ConnectionMonitor → ConnectionMonitor
touch_backend now b m = touched now b (Table.get b m.backends) m

-- The counters are `u32`, which wrap around.
abbrev pub incremented : ℕ → ℕ → Option BackendEntry → ConnectionMonitor → ConnectionMonitor
incremented now b none m = enter now b 1 m
incremented now b (some e) m = set_entry b ((e.active_connections + 1) % 2 ^ 32) true m

unfoldable pub inc_connection : ℕ → ℕ → ConnectionMonitor → ConnectionMonitor
inc_connection now b m = incremented now b (Table.get b m.backends) m

abbrev pub decremented : ℕ → Option BackendEntry → ConnectionMonitor → ConnectionMonitor
decremented b none m = m
decremented b (some e) m =
    set_entry b ((e.active_connections + (2 ^ 32 - 1)) % 2 ^ 32) e.had_recent_connection m

unfoldable pub dec_connection : ℕ → ConnectionMonitor → ConnectionMonitor
dec_connection b m = decremented b (Table.get b m.backends) m

-- `visit_queue.pop_front()`, where the task waits for no visit.
abbrev pub popped : List (ℕ × ℕ) → Option (ℕ × ℕ) → ConnectionMonitor → ConnectionMonitor
popped queue (some v) m = m
popped [] none m = m
popped (v ∷ queue) none m = record m { visit_queue = queue; taken = some v }

unfoldable pub pop_front : ConnectionMonitor → ConnectionMonitor
pop_front m = popped m.visit_queue m.taken m

-- The visit that was waited for.
abbrev pub seen : ℕ → ℕ → Option BackendEntry → ConnectionMonitor → ConnectionMonitor
seen now b none m = m
seen now b (some e) m =
    if ltb 0 e.active_connections || e.had_recent_connection
    then (let m' = set_entry b e.active_connections false m in
        record m' {
          reported = report m.listener b m.reported;
          visit_queue = queue_visit now b m.visit_queue;
        })
    else remove_backend b m

abbrev pub visited : ℕ → Option (ℕ × ℕ) → ConnectionMonitor → ConnectionMonitor
visited now none m = m
visited now (some (due, b)) m =
    if ltb now due then m else seen now b (Table.get b m.backends) (record m { taken = none })

unfoldable pub visit : ℕ → ConnectionMonitor → ConnectionMonitor
visit now m = visited now m.taken m
