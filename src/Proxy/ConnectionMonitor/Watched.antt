-- ===== src/Proxy/ConnectionMonitor/Watched.antt =====
-- No backend with an entry falls out of the queue of visits
-- (plane/src/proxy/connection_monitor.rs).
use plane.Prelude.{
  ==_iff, Bool, List, Option, [], ap, arith, false, is_some, none, refl, some, true, ℕ, ◌++◌, ◌+◌,
  ◌==◌, ◌||◌, ◌∷◌, ◌≡◌, if◌then◌else◌, ltb,
}
use plane.Prelude.Table
use plane.Prelude.Table.{get-insert, get-remove}
use plane.Proxy.ConnectionMonitor.{
  BackendEntry, ConnectionMonitor, dec_connection, decremented, empty, enter, heartbeat_interval,
  inc_connection, incremented, pop_front, remove_backend, seen, set_entry, set_listener,
  touch_backend, touched, visit, visited, popped,
}
use plane.Proxy.ConnectionMonitor.Counts.{
  Op, connect, disconnect, forget, listen, make_visit, perform, perform_all, take_visit, touch,
}

-- Whether a visit of `b` is queued, or waited for.
unfoldable pub queued : ℕ → List (ℕ × ℕ) → Bool
queued b [] = false
queued b ((due, c) ∷ queue) = (c == b) || queued b queue

abbrev pub awaited : ℕ → Option (ℕ × ℕ) → Bool
awaited b none = false
awaited b (some (due, c)) = c == b

unfoldable pub waiting : ℕ → ConnectionMonitor → Bool
waiting b m = awaited b m.taken || queued b m.visit_queue

-- Every backend that has an entry will be visited.
unfoldable pub IsWatched : ConnectionMonitor → Type 0
IsWatched m = (b : ℕ) → is_some (Table.get b m.backends) ≡ true → waiting b m ≡ true

queued-append :
    (b : ℕ) (queue : List (ℕ × ℕ)) (due c : ℕ)
    → queued b (queue ++ (due, c) ∷ []) ≡ ((c == b) || queued b queue)
unfolding queued
queued-append b [] due c = ground arith
queued-append b ((d, e) ∷ queue) due c = ground (arith, queued-append b queue due c)

enter-IsWatched : (now c n : ℕ) (m : ConnectionMonitor) → IsWatched m → IsWatched (enter now c n m)
unfolding IsWatched waiting enter
enter-IsWatched now c n m h b held = ground (
  arith,
  h b,
  queued-append b m.visit_queue (now + heartbeat_interval) c,
  get-insert c b (record { active_connections = n; had_recent_connection = true }) m.backends,
)

set_entry-IsWatched :
    (c n : ℕ) (recent : Bool) (m : ConnectionMonitor)
    → is_some (Table.get c m.backends) ≡ true
    → IsWatched m
    → IsWatched (set_entry c n recent m)
unfolding IsWatched waiting set_entry
set_entry-IsWatched c n recent m known h b held = ground (
  arith,
  h b,
  ==_iff c b,
  get-insert c b (record { active_connections = n; had_recent_connection = recent }) m.backends,
)

remove_backend-IsWatched :
    (c : ℕ) (m : ConnectionMonitor) → IsWatched m → IsWatched (remove_backend c m)
unfolding IsWatched waiting remove_backend
remove_backend-IsWatched c m h b held = ground (arith, h b, get-remove c b m.backends)

-- While the task waits for `c`, whatever else is true of `c` is to be settled by its visit.
seen-IsWatched :
    (now due c : ℕ) (m : ConnectionMonitor)
    → m.taken ≡ some (due, c)
    → IsWatched m
    → IsWatched (seen now c (Table.get c m.backends) (record m { taken = none }))
unfolding IsWatched waiting remove_backend set_entry
seen-IsWatched now due c m taken h = go (Table.get c m.backends) refl
  where
    rest : ConnectionMonitor
    rest = record m { taken = none }

    before :
        (b : ℕ)
        → is_some (Table.get b m.backends) ≡ true
        → ((c == b) || queued b m.visit_queue) ≡ true
    before b held = ground (arith, h b held, taken)

    go : (o : Option BackendEntry) → Table.get c m.backends ≡ o → IsWatched (seen now c o rest)
    go none e b held = ground (arith, ==_iff c b, before b)
    go (some entry) e b held = ground (
      arith,
      ==_iff c b,
      before b,
      get-remove c b m.backends,
      queued-append b m.visit_queue (now + heartbeat_interval) c,
      get-insert c b
          (record { active_connections = entry.active_connections; had_recent_connection = false })
          m.backends,
    )

perform-IsWatched : (op : Op) (m : ConnectionMonitor) → IsWatched m → IsWatched (perform op m)
unfolding perform touch_backend inc_connection dec_connection visit pop_front set_listener IsWatched
    waiting queued
perform-IsWatched listen m h = h
perform-IsWatched (touch now c) m h = go (Table.get c m.backends) refl
  where
    go : (o : Option BackendEntry) → Table.get c m.backends ≡ o → IsWatched (touched now c o m)
    go none e = enter-IsWatched now c 0 m h
    go (some entry) e = set_entry-IsWatched c entry.active_connections true m (ap is_some e) h
perform-IsWatched (connect now c) m h = go (Table.get c m.backends) refl
  where
    go : (o : Option BackendEntry) → Table.get c m.backends ≡ o → IsWatched (incremented now c o m)
    go none e = enter-IsWatched now c 1 m h
    go (some entry) e = set_entry-IsWatched c _ true m (ap is_some e) h
perform-IsWatched (disconnect c) m h = go (Table.get c m.backends) refl
  where
    go : (o : Option BackendEntry) → Table.get c m.backends ≡ o → IsWatched (decremented c o m)
    go none e = h
    go (some entry) e = set_entry-IsWatched c _ entry.had_recent_connection m (ap is_some e) h
perform-IsWatched (forget c) m h = remove_backend-IsWatched c m h
perform-IsWatched take_visit m h = go m.visit_queue m.taken refl refl
  where
    go :
        (queue : List (ℕ × ℕ)) (o : Option (ℕ × ℕ))
        → m.visit_queue ≡ queue
        → m.taken ≡ o
        → IsWatched (popped queue o m)
    go queue (some v) eq eo b held = h b held
    go [] none eq eo b held = h b held
    go (v ∷ queue) none eq eo b held = ground (arith, h b held, eq, eo)
perform-IsWatched (make_visit now) m h = go m.taken refl
  where
    go : (o : Option (ℕ × ℕ)) → m.taken ≡ o → IsWatched (visited now o m)
    go none e = h
    go (some (due, c)) e = wake (ltb now due)
      where
        wake :
            (asleep : Bool)
            → IsWatched (
                if asleep
                then m
                else seen now c (Table.get c m.backends) (record m { taken = none }))
        wake true = h
        wake false = seen-IsWatched now due c m e h

start-IsWatched : IsWatched empty
unfolding IsWatched empty Table.get
start-IsWatched b held = ground arith

kept : (ops : List Op) (m : ConnectionMonitor) → IsWatched m → IsWatched (perform_all ops m)
unfolding perform_all
kept [] m h = h
kept (op ∷ ops) m h = kept ops (perform op m) (perform-IsWatched op m h)

-- Whatever happens to a monitor, every backend that has an entry is in the queue of visits or is
-- the one that the task waits for, so an idle backend is found and a busy one is reported again.
pub perform_all-IsWatched : (ops : List Op) → IsWatched (perform_all ops empty)
perform_all-IsWatched ops = kept ops empty start-IsWatched
