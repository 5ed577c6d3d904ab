-- ===== src/Database/Events/Follow/Receiving.antt =====
-- A notification (plane/src/database/subscribe.rs) is either the next event or one that was read before.
use plane.Prelude.{
  All, List, Option, [], le→leb, lt→not_leb, none, refl, some, subst, sym, ℕ, ◌++◌, ◌<◌, ◌∷◌, ◌≡◌,
  ◌≤◌,
}
use plane.Database.Events.{Event, Task, of_event, receive, send_message}
use plane.Database.Events.Ordered.{Increasing, Increasing-after}
use plane.Database.Events.Follow.{live}
use plane.Database.Events.Follow.Sent.{HasSent, QueueFits, advance, last_of}

abbrev sent_next : Event → Task → Task
sent_next e task = record (send_message (of_event e) task) { last_message = some e.id }

receive_first :
    (e : Event) (task : Task)
    → task.last_message ≡ none
    → receive (of_event e) task ≡ sent_next e task
unfolding receive send_message
receive_first e task h = rw h refl

receive_new :
    (e : Event) (task : Task) (l : ℕ)
    → task.last_message ≡ some l
    → l < e.id
    → receive (of_event e) task ≡ sent_next e task
unfolding receive send_message
receive_new e task l h lt = rw h (rw (lt→not_leb e.id l lt) refl)

receive_old :
    (e : Event) (task : Task) (l : ℕ)
    → task.last_message ≡ some l
    → e.id ≤ l
    → receive (of_event e) task ≡ task
unfolding receive
receive_old e task l h le = rw h (rw (le→leb e.id l le) refl)

-- The invariant for the parts of a world that a notification changes.
abbrev Live : List Event → List Event → Task → List Event → Type 0
Live log queue task before =
    (rest : List Event) × HasSent log task before rest
    × QueueFits live task.last_message log queue rest

sent_next-Live :
    (log before rest : List Event) (task : Task) (e : Event)
    → HasSent log task before (e ∷ rest)
    → Live log rest (sent_next e task) before
sent_next-Live log before rest task e h = (rest, advance log before rest task e h, ([], refl, tt))

head_eq : (e d : Event) (es ds : List Event) → e ∷ es ≡ d ∷ ds → (e ≡ d) × (es ≡ ds)
head_eq e d es ds h = (cc, cc)

next_above :
    (log before queue : List Event) (task : Task) (e : Event) (l : ℕ)
    → HasSent log task before (e ∷ queue)
    → task.last_message ≡ some l
    → l < e.id
next_above log before queue task e l h last_eq =
    let (ys, f, split, id_eq) = last_of log before (e ∷ queue) task l h last_eq in
    subst (λ n. n < e.id) id_eq
      (Increasing-after ys f (e ∷ queue) (subst Increasing split h.increasing)).0.0

-- A notification is skipped when its event was read before, and is the next event otherwise.
pub receive-Live :
    (log before queue : List Event) (task : Task) (e : Event)
    → Live log (e ∷ queue) task before
    → Live log queue (receive (of_event e) task) before
receive-Live log before queue task e (rest, h, q) = go task.last_message refl q
  where
    next_is :
        receive (of_event e) task ≡ sent_next e task
        → HasSent log task before (e ∷ queue)
        → Live log queue (receive (of_event e) task) before
    next_is r k =
        subst (λ t. Live log queue t before) (sym r) (sent_next-Live log before queue task e k)

    skipped :
        (d : Event) (ds : List Event) (l : ℕ)
        → task.last_message ≡ some l
        → (e ≡ d) × (queue ≡ ds ++ rest)
        → All (λ f. f.id ≤ l) (d ∷ ds)
        → Live log queue (receive (of_event e) task) before
    skipped d ds l last_eq (e_eq, queue_eq) old =
        subst (λ t. Live log queue t before)
          (sym (receive_old e task l last_eq (subst (λ f. f.id ≤ l) (sym e_eq) old.0)))
          (
            rest,
            h,
            subst (λ o. QueueFits live o log queue rest) (sym last_eq) (ds, queue_eq, old.1),
          )

    go :
        (o : Option ℕ)
        → task.last_message ≡ o
        → QueueFits live o log (e ∷ queue) rest
        → Live log queue (receive (of_event e) task) before
    go none e' s = next_is (receive_first e task e') (subst (HasSent log task before) (sym s) h)
    go (some l) e' ([], s, old) =
        let k = subst (HasSent log task before) (sym s) h in
        next_is (receive_new e task l e' (next_above log before queue task e l k e')) k
    go (some l) e' (d ∷ ds, s, old) = skipped d ds l e' (head_eq e d queue (ds ++ rest) s) old
