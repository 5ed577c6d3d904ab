-- ===== src/Proxy/ConnectionMonitor/Counts.antt =====
-- The connections of a backend are counted, and a counted backend is visited again
-- (plane/src/proxy/connection_monitor.rs).
use plane.Prelude.{
  List, Option, [], if◌then◌else◌, ltb, none, some, ℕ, ◌+◌, ◌-◌, ◌<◌, ◌==◌, ◌^◌, ◌∷◌, ◌≡◌, ==_iff,
  Option-cases, arith, inl, inr, false, refl, length,
}
use plane.Prelude.Table
use plane.Prelude.Table.{get-insert, get-remove}
use plane.Proxy.ConnectionMonitor.{
  BackendEntry, ConnectionMonitor, dec_connection, enter, inc_connection, pop_front, remove_backend,
  set_entry, set_listener, touch_backend, visit, seen, visited, popped,
}

-- What happens to a monitor, at the time it happens.
pub data Op : Type 0 where
  listen : Op
  touch : ℕ → ℕ → Op
  connect : ℕ → ℕ → Op
  disconnect : ℕ → Op
  forget : ℕ → Op
  take_visit : Op
  make_visit : ℕ → Op

unfoldable pub perform : Op → ConnectionMonitor → ConnectionMonitor
perform listen m = set_listener m
perform (touch now b) m = touch_backend now b m
perform (connect now b) m = inc_connection now b m
perform (disconnect b) m = dec_connection b m
perform (forget b) m = remove_backend b m
perform take_visit m = pop_front m
perform (make_visit now) m = visit now m

unfoldable pub perform_all : List Op → ConnectionMonitor → ConnectionMonitor
perform_all [] m = m
perform_all (op ∷ ops) m = perform_all ops (perform op m)

-- The number of connections that the monitor counts for a backend.
abbrev counted : Option BackendEntry → ℕ
counted none = 0
counted (some e) = e.active_connections

unfoldable pub active : ℕ → ConnectionMonitor → ℕ
active b m = counted (Table.get b m.backends)

-- The connections of `b` that are open after the operations, of `n` before them: none where one
-- disconnects that is not open, or where the backend is forgotten.
unfoldable pub open_after : ℕ → List Op → ℕ → Option ℕ
open_after b [] n = some n
open_after b (listen ∷ ops) n = open_after b ops n
open_after b (touch now c ∷ ops) n = open_after b ops n
open_after b (connect now c ∷ ops) n =
    if c == b then open_after b ops (n + 1) else open_after b ops n
open_after b (disconnect c ∷ ops) n =
    if c == b then (if ltb 0 n then open_after b ops (n - 1) else none) else open_after b ops n
open_after b (forget c ∷ ops) n = if c == b then none else open_after b ops n
open_after b (take_visit ∷ ops) n = open_after b ops n
open_after b (make_visit now ∷ ops) n = open_after b ops n

active-touch : (now c b : ℕ) (m : ConnectionMonitor) → active b (touch_backend now c m) ≡ active b m
unfolding active touch_backend enter set_entry
active-touch now c b m = elim (Option-cases (Table.get c m.backends)) [
  | inl absent ↦ rw absent (rw get-insert (ground (arith, ==_iff c b)))
  | inr (e, found) ↦ rw found (rw get-insert (ground (arith, ==_iff c b)))
]

active-inc :
    (now c b : ℕ) (m : ConnectionMonitor)
    → active b m < 2 ^ 32 - 1
    → active b (inc_connection now c m) ≡ (if c == b then active b m + 1 else active b m)
unfolding active inc_connection enter set_entry
active-inc now c b m h = elim (Option-cases (Table.get c m.backends)) [
  | inl absent ↦ rw absent (rw get-insert (ground (arith, ==_iff c b)))
  | inr (e, found) ↦ rw found (rw get-insert (ground (arith, ==_iff c b)))
]

active-dec :
    (c b : ℕ) (m : ConnectionMonitor)
    → active b m < 2 ^ 32
    → (c ≡ b → 0 < active b m)
    → active b (dec_connection c m) ≡ (if c == b then active b m - 1 else active b m)
unfolding active dec_connection set_entry
active-dec c b m h pos = elim (Option-cases (Table.get c m.backends)) [
  | inl absent ↦ rw absent (ground (arith, ==_iff c b))
  | inr (e, found) ↦ rw found (rw get-insert (ground (arith, ==_iff c b)))
]

active-listen : (b : ℕ) (m : ConnectionMonitor) → active b (set_listener m) ≡ active b m
unfolding active set_listener
active-listen b m = refl

active-forget :
    (c b : ℕ) (m : ConnectionMonitor)
    → (c == b) ≡ false
    → active b (remove_backend c m) ≡ active b m
unfolding active remove_backend
active-forget c b m other = rw get-remove (rw other refl)

active-pop : (b : ℕ) (m : ConnectionMonitor) → active b (pop_front m) ≡ active b m
unfolding active pop_front
active-pop b m = keep m.visit_queue m.taken
  where
    keep :
        (queue : List (ℕ × ℕ)) (taken : Option (ℕ × ℕ))
        → counted (Table.get b (popped queue taken m).backends) ≡ counted (Table.get b m.backends)
    keep queue (some v) = refl
    keep [] none = refl
    keep (v ∷ queue) none = refl

active-seen :
    (now c b : ℕ) (m : ConnectionMonitor)
    → counted (Table.get b (seen now c (Table.get c m.backends) m).backends)
      ≡ counted (Table.get b m.backends)
unfolding set_entry remove_backend
active-seen now c b m = elim (Option-cases (Table.get c m.backends)) [
  | inl absent ↦ rw absent refl
  | inr (e, found) ↦ rw found (
      ground (
        arith,
        ==_iff c b,
        get-remove c b m.backends,
        get-insert c b
            (record { active_connections = e.active_connections; had_recent_connection = false })
            m.backends,
      ))
]

active-visit : (now b : ℕ) (m : ConnectionMonitor) → active b (visit now m) ≡ active b m
unfolding active visit set_entry remove_backend
active-visit now b m = keep m.taken
  where
    keep :
        (taken : Option (ℕ × ℕ))
        → counted (Table.get b (visited now taken m).backends) ≡ counted (Table.get b m.backends)
    keep none = refl
    keep (some (due, c)) = ground (arith, active-seen now c b (record m { taken = none }))

-- Where each connection of `b` closes once after it opens and the backend is not forgotten, the
-- monitor counts exactly the open connections, whatever else happens and whenever the visits run:
-- an idle entry may be dropped, but never one with a connection. The counter does not wrap around,
-- since fewer than 2^32 operations are made.
pub active-perform_all :
    (b : ℕ) (ops : List Op) (m : ConnectionMonitor) (n : ℕ)
    → active b m + length ops < 2 ^ 32
    → open_after b ops (active b m) ≡ some n
    → active b (perform_all ops m) ≡ n
unfolding perform_all perform open_after
active-perform_all b [] m n bound h = ground arith
active-perform_all b (listen ∷ ops) m n bound h =
    let e = active-listen b m in
    active-perform_all b ops (set_listener m) n (omega (arith, e)) (ground (arith, e, h))
active-perform_all b (touch now c ∷ ops) m n bound h =
    let e = active-touch now c b m in
    active-perform_all b ops (touch_backend now c m) n (omega (arith, e)) (ground (arith, e, h))
active-perform_all b (connect now c ∷ ops) m n bound h =
    ground (arith, active-inc now c b m, active-perform_all b ops (inc_connection now c m) n)
active-perform_all b (disconnect c ∷ ops) m n bound h =
    ground (arith, ==_iff c b, active-dec c b m, active-perform_all b ops (dec_connection c m) n)
active-perform_all b (forget c ∷ ops) m n bound h =
    ground (arith, active-forget c b m, active-perform_all b ops (remove_backend c m) n)
active-perform_all b (take_visit ∷ ops) m n bound h =
    let e = active-pop b m in
    active-perform_all b ops (pop_front m) n (omega (arith, e)) (ground (arith, e, h))
active-perform_all b (make_visit now ∷ ops) m n bound h =
    let e = active-visit now b m in
    active-perform_all b ops (visit now m) n (omega (arith, e)) (ground (arith, e, h))
