-- ===== src/Drone/StateStore/Delivery.antt =====
-- Delivery of the drone's events: what is not acked is known to the listener, and an ack removes
-- one event and no other (plane/src/drone/state_store.rs).
use mathlib.Core.List.{
  Perm, Mem, mem-append_left, mem-append_right, mem-append, mem-cons_self, mem-map_of_mem,
  map-append, map, not-mem-nil,
}
use mathlib.Core.Logic.Or
use mathlib.Core.Logic.{◌∨₁◌}
use mathlib.Core.List.Perm
use plane.Prelude.{
  All, Bool, Bool-cases, List, [], arith, filterb, inl, inr, ℕ, ◌++◌, ◌+◌, ◌<◌, ◌∷◌, ◌≡◌, ◌≤◌,
  All-filterb, true, All-append, refl, false, ◌==◌, ◌↔◌, ◌≢◌, not,
}
use plane.Prelude.Mem.{pass_of_mem-filterb, mem_of_mem-filterb, mem-filterb}
use plane.BackendState.{BackendState}
use plane.Drone.StateStore.{
  EventRow, StateStore, ack_event, register_event, register_listener, BackendStateMessage, new,
  message_of, from_millis, timestamp_millis,
}

-- The calls that the executor makes of its state store, in any order.
pub data Op : Type 0 where
  register : (backend_id : ℕ) (state : BackendState) (now : ℕ) → Op
  ack : (event_id : ℕ) → Op
  listen : Op

-- The ids of the events grow strictly from the first row to the last, from `lo` on.
abbrev pub IdsFrom : ℕ → List EventRow → Type 0
IdsFrom lo [] = Unit
IdsFrom lo (row ∷ rows) = (lo ≤ row.id) × IdsFrom (row.id + 1) rows

IdsFrom-weaken : (lo lo' : ℕ) (rows : List EventRow) → lo' ≤ lo → IdsFrom lo rows → IdsFrom lo' rows
IdsFrom-weaken lo lo' [] h i = i
IdsFrom-weaken lo lo' (row ∷ rows) h i = (omega arith, i.1)

IdsFrom-filterb :
    (lo : ℕ) (p : EventRow → Bool) (rows : List EventRow)
    → IdsFrom lo rows
    → IdsFrom lo (filterb p rows)
unfolding filterb
IdsFrom-filterb lo p [] i = i
IdsFrom-filterb lo p (row ∷ rows) i = elim (Bool-cases (p row)) [
  | inl passes ↦ rw passes (i.0, IdsFrom-filterb (row.id + 1) p rows i.1)
  | inr fails ↦ rw fails (
      IdsFrom-weaken (row.id + 1) lo (filterb p rows) (omega arith)
        (IdsFrom-filterb (row.id + 1) p rows i.1))
]

-- All the ids lie below `hi`.
abbrev pub IdsBelow : ℕ → List EventRow → Type 0
IdsBelow hi = All (λ row. row.id < hi)

IdsBelow-weaken : (hi : ℕ) (rows : List EventRow) → IdsBelow hi rows → IdsBelow (hi + 1) rows
IdsBelow-weaken hi [] h = h
IdsBelow-weaken hi (row ∷ rows) h = (omega arith, IdsBelow-weaken hi rows h.1)

IdsFrom-append :
    (lo hi : ℕ) (rows : List EventRow) (row : EventRow)
    → IdsFrom lo rows
    → IdsBelow hi rows
    → lo ≤ hi
    → row.id ≡ hi
    → IdsFrom lo (rows ++ row ∷ [])
IdsFrom-append lo hi [] row i b h e = (omega arith, tt)
IdsFrom-append lo hi (r ∷ rows) row i b h e =
    (i.0, IdsFrom-append (r.id + 1) hi rows row i.1 b.1 (omega arith) e)

-- The listener was called with a message of this id.
abbrev pub Seen : ℕ → List BackendStateMessage → Type 0
Seen k messages = Mem k (map (λ (m : BackendStateMessage). m.event_id) messages)

-- Every event that waits for its ack has an id that was given once, and the listener, if there
-- is one, was called with a message of that id.
pub record IsValid (s : StateStore) : Type 0 where
  pub increasing : IdsFrom 1 s.event
  pub below : IdsBelow s.next_id s.event
  pub positive : 1 ≤ s.next_id
  pub covered : (row : EventRow) → Mem row s.event → s.listener ≡ true → Seen row.id s.delivered

Seen-append :
    (k : ℕ) (ms ns : List BackendStateMessage) → Seen k ms ∨₁ Seen k ns → Seen k (ms ++ ns)
Seen-append k ms ns h = rw map-append (mem-append.1 h)

register-IsValid :
    (b : ℕ) (state : BackendState) (now : ℕ) (s : StateStore)
    → IsValid s
    → IsValid (register_event b state now s)
unfolding register_event
register-IsValid b state now s v = record {
  increasing = IdsFrom-append 1 s.next_id s.event _ v.increasing v.below v.positive refl;
  below = All-append _ s.event _ (IdsBelow-weaken s.next_id s.event v.below) (omega arith, tt);
  positive = omega arith;
  covered = λ row m on. rw on (
      Seen-append row.id s.delivered _ (
        Or.imp (λ old. v.covered row old on) (mem-map_of_mem (λ (r : EventRow). r.id))
          (mem-append.0 m)));
}

ack-IsValid : (k : ℕ) (s : StateStore) → IsValid s → IsValid (ack_event k s)
unfolding ack_event
ack-IsValid k s v = record {
  increasing = IdsFrom-filterb 1 _ s.event v.increasing;
  below = All-filterb _ _ s.event v.below;
  positive = v.positive;
  covered = λ row m on. v.covered row (mem_of_mem-filterb _ m) on;
}

-- The call acks the event of this id.
abbrev pub is_ack : ℕ → Op → Bool
is_ack k (ack j) = k == j
is_ack k _ = false

module _ (order : List EventRow → List EventRow) where
  -- One call.
  unfoldable pub step : Op → StateStore → StateStore
  step (register b state now) s = register_event b state now s
  step (ack k) s = ack_event k s
  step listen s = register_listener order s

  unfoldable pub run : List Op → StateStore → StateStore
  run [] s = s
  run (op ∷ ops) s = run ops (step op s)

  module _ (order_perm : (rows : List EventRow) → Perm (order rows) rows) where
    map_ids :
        (rows : List EventRow)
        → map (λ (m : BackendStateMessage). m.event_id) (map message_of rows)
          ≡ map (λ (r : EventRow). r.id) rows
    unfolding message_of
    map_ids [] = refl
    map_ids (row ∷ rows) = rw (map_ids rows)

    listen-IsValid : (s : StateStore) → IsValid s → IsValid (register_listener order s)
    unfolding register_listener
    listen-IsValid s v = record {
      increasing = v.increasing;
      below = v.below;
      positive = v.positive;
      covered = λ row m on.
          rw map_ids
            (mem-map_of_mem (λ (r : EventRow). r.id) ((Perm.mem_iff (order_perm s.event)).1 m));
    }

    step-IsValid : (op : Op) (s : StateStore) → IsValid s → IsValid (step op s)
    unfolding step
    step-IsValid (register b state now) s v = register-IsValid b state now s v
    step-IsValid (ack k) s v = ack-IsValid k s v
    step-IsValid listen s v = listen-IsValid s v

    run-IsValid_from : (ops : List Op) (s : StateStore) → IsValid s → IsValid (run ops s)
    unfolding run
    run-IsValid_from [] s v = v
    run-IsValid_from (op ∷ ops) s v = run-IsValid_from ops (step op s) (step-IsValid op s v)

    -- After any calls on a new store, every event that is not acked has an id that was given to it
    -- alone, and if a listener is installed it was called with a message of that id, if sqlite
    -- sorts by permuting the rows.
    pub run-IsValid : (ops : List Op) → IsValid (run ops new)
    unfolding new
    run-IsValid ops = run-IsValid_from ops new (record {
      increasing = tt;
      below = tt;
      positive = omega arith;
      covered = λ row m on. absurd (not-mem-nil m);
    })

    mem-step :
        (row : EventRow) (op : Op) (s : StateStore)
        → is_ack row.id op ≡ false
        → Mem row s.event
        → Mem row (step op s).event
    unfolding step register_event ack_event register_listener
    mem-step row (register b state now) s h m = mem-append_left _ m
    mem-step row (ack k) s h m = mem-filterb _ (rw h) m
    mem-step row listen s h m = m

    mem-run :
        (row : EventRow) (ops : List Op) (s : StateStore)
        → All (λ op. is_ack row.id op ≡ false) ops
        → Mem row s.event
        → Mem row (run ops s).event
    unfolding run
    mem-run row [] s h m = m
    mem-run row (op ∷ ops) s h m = mem-run row ops (step op s) h.1 (mem-step row op s h.0 m)

    -- An event that is registered and never acked is told to every listener installed later,
    -- whatever calls come between, with its backend and its state, and with its time rounded down
    -- to the millisecond (`new_row` is the event's row).
    pub at_least_once :
        (b : ℕ) (state : BackendState) (now : ℕ) (s : StateStore) (ops : List Op)
        → All (λ op. is_ack s.next_id op ≡ false) ops
        → Mem
            (record {
              event_id = s.next_id;
              backend_id = b;
              state = state;
              timestamp = from_millis (timestamp_millis now);
            })
            (register_listener order (run ops (register_event b state now s))).delivered
    unfolding register_listener register_event message_of
    at_least_once b state now s ops h = mem-map_of_mem message_of (
        (Perm.mem_iff (order_perm _)).1 (
          mem-run
            (record {
              id = s.next_id;
              backend_id = b;
              event = state;
              timestamp = timestamp_millis now;
            })
            ops _ h (mem-append_right s.event mem-cons_self)))

-- An ack removes the events of its id and leaves every other event in the table.
pub mem-ack_event :
    (k : ℕ) (row : EventRow) (s : StateStore)
    → Mem row (ack_event k s).event ↔ (Mem row s.event × (row.id ≢ k))
unfolding ack_event
mem-ack_event k row s = (
  λ m. (mem_of_mem-filterb _ m, λ e. differs row.id k (pass_of_mem-filterb _ s.event m) e),
  λ (m, ne). mem-filterb _ (keeps row.id k ne) m,
)
  where
    differs : (i j : ℕ) → not (i == j) ≡ true → i ≡ j → ⊥
    differs i j h e = ground arith

    keeps : (i j : ℕ) → i ≢ j → not (i == j) ≡ true
    keeps i j h = ground arith
