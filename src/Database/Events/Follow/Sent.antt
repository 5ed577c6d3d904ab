-- ===== src/Database/Events/Follow/Sent.antt =====
-- What a controller has sent and what waits for it (plane/src/database/subscribe.rs), as an invariant.
use plane.Prelude.{
  All, List, Option, [], ap, append_assoc, map, none, refl, some, sym, ℕ, ◌++◌, ◌∙◌, ◌∷◌, ◌≡◌, ◌≤◌,
}
use plane.Database.Events.{Event, Task, of_event, send_batch, send_message}
use plane.Database.Events.Ordered.{Increasing}
use plane.Database.Events.Follow.{Phase, World, catching_up, live, offline}

-- The task stopped just after the events `xs`, unless it saw none.
abbrev pub StoppedAfter : Option ℕ → List Event → List Event → Type 0
StoppedAfter none before passed = passed ≡ []
StoppedAfter (some last) before passed =
    (ys : List Event) × (f : Event) × (before ++ passed ≡ ys ++ f ∷ []) × (f.id ≡ last)

-- The task has sent the events between `before` and `rest`, each once.
pub record HasSent (log : List Event) (task : Task) (before rest : List Event) : Type 0 where
  pub passed : List Event
  pub parts : log ≡ before ++ (passed ++ rest)
  pub messages : task.sent ≡ map of_event passed
  pub increasing : Increasing log
  pub stopped : StoppedAfter task.last_message before passed

-- What waits in the queue of the connection.
abbrev pub QueueFits : Phase → Option ℕ → List Event → List Event → List Event → Type 0
QueueFits offline last log queue rest = Unit
QueueFits catching_up none log queue rest = ⊥
QueueFits catching_up (some l) log queue rest = (pre : List Event) × (log ≡ pre ++ queue)
QueueFits live none log queue rest = queue ≡ rest
QueueFits live (some l) log queue rest =
    (dup : List Event) × (queue ≡ dup ++ rest) × All (λ e. e.id ≤ l) dup

pub record IsFollowing (w : World) : Type 0 where
  pub before : List Event
  pub rest : List Event
  pub has_sent : HasSent w.log w.task before rest
  pub queued : QueueFits w.phase w.task.last_message w.log w.queue rest

pub map-append : (xs ys : List Event) → map of_event (xs ++ ys) ≡ map of_event xs ++ map of_event ys
map-append [] ys = refl
map-append (x ∷ xs) ys = ap (λ l. of_event x ∷ l) (map-append xs ys)

-- One more message, the next of the log, is sent.
pub advance :
    (log before rest : List Event) (task : Task) (e : Event)
    → HasSent log task before (e ∷ rest)
    → HasSent log (record (send_message (of_event e) task) { last_message = some e.id }) before rest
unfolding send_message
advance log before rest task e h = record {
  passed = h.passed ++ e ∷ [];
  parts = h.parts ∙ ap (λ l. before ++ l) (sym (append_assoc h.passed (e ∷ []) rest));
  messages = ap (λ l. l ++ of_event e ∷ []) h.messages ∙ sym (map-append h.passed (e ∷ []));
  increasing = h.increasing;
  stopped = (before ++ h.passed, e, sym (append_assoc before h.passed (e ∷ [])), refl);
}

pub send_batch-HasSent :
    (log before es zs : List Event) (task : Task)
    → HasSent log task before (es ++ zs)
    → HasSent log (send_batch es task) before zs
unfolding send_batch
send_batch-HasSent log before [] zs task h = h
send_batch-HasSent log before (e ∷ es) zs task h =
    send_batch-HasSent log before es zs _ (advance log before (es ++ zs) task e h)

-- The event at which the task stopped splits the log.
pub last_of :
    (log before rest : List Event) (task : Task) (l : ℕ)
    → HasSent log task before rest
    → task.last_message ≡ some l
    → (ys : List Event) × (f : Event) × (log ≡ ys ++ f ∷ rest) × (f.id ≡ l)
last_of log before rest task l h last_eq = go task.last_message last_eq h.stopped
  where
    go :
        (o : Option ℕ)
        → o ≡ some l
        → StoppedAfter o before h.passed
        → (ys : List Event) × (f : Event) × (log ≡ ys ++ f ∷ rest) × (f.id ≡ l)
    go none e s = cc
    go (some m) e (ys, f, split, id_eq) = (
      ys,
      f,
      h.parts
          ∙ sym (append_assoc before h.passed rest)
          ∙ ap (λ t. t ++ rest) split
          ∙ append_assoc ys (f ∷ []) rest,
      id_eq ∙ cc,
    )
