-- ===== src/Database/Events/Follow/Connecting.antt =====
-- Commits and listens (plane/src/database/subscribe.rs) keep the invariant.
use plane.Prelude.{
  List, Option, Option-cases, [], ap, append_assoc, append_nil, inl, inr, map, none, refl, some,
  sym, ℕ, ◌++◌, ◌∙◌, ◌∷◌, ◌≡◌,
}
use plane.Database.Events.{Event, Task, of_event}
use plane.Database.Events.Ordered.{Below, Increasing-snoc}
use plane.Database.Events.Follow.{Phase, World, after_listen, catching_up, live, offline, queue_for}
use plane.Database.Events.Follow.Sent.{HasSent, IsFollowing, QueueFits, StoppedAfter}

grow :
    (log before rest : List Event) (task : Task) (e : Event)
    → Below e.id log
    → HasSent log task before rest
    → HasSent (log ++ e ∷ []) task before (rest ++ e ∷ [])
grow log before rest task e b h = record {
  passed = h.passed;
  parts =
      ap (λ t. t ++ e ∷ []) h.parts
      ∙ append_assoc before (h.passed ++ rest) (e ∷ [])
      ∙ ap (λ t. before ++ t) (append_assoc h.passed rest (e ∷ []));
  messages = h.messages;
  increasing = Increasing-snoc log e h.increasing b;
  stopped = h.stopped;
}

grow-QueueFits :
    (ph : Phase) (last : Option ℕ) (log queue rest : List Event) (e : Event)
    → QueueFits ph last log queue rest
    → QueueFits ph last (log ++ e ∷ []) (queue_for ph e queue) (rest ++ e ∷ [])
grow-QueueFits offline last log queue rest e q = tt
grow-QueueFits catching_up none log queue rest e q = q
grow-QueueFits catching_up (some l) log queue rest e (pre, q) =
    (pre, ap (λ t. t ++ e ∷ []) q ∙ append_assoc pre queue (e ∷ []))
grow-QueueFits live none log queue rest e q = ap (λ t. t ++ e ∷ []) q
grow-QueueFits live (some l) log queue rest e (dup, q, old) =
    (dup, ap (λ t. t ++ e ∷ []) q ∙ append_assoc dup rest (e ∷ []), old)

pub commit-IsFollowing :
    (w : World) (e : Event)
    → Below e.id w.log
    → IsFollowing w
    → IsFollowing (record w { log = w.log ++ e ∷ []; queue = queue_for w.phase e w.queue })
commit-IsFollowing w e b i = record {
  before = i.before;
  rest = i.rest ++ e ∷ [];
  has_sent = grow w.log i.before i.rest w.task e b i.has_sent;
  queued = grow-QueueFits w.phase w.task.last_message w.log w.queue i.rest e i.queued;
}

-- With nothing sent so far, the task starts at the end of the log.
start_at_end :
    (log before rest : List Event) (task : Task)
    → HasSent log task before rest
    → task.last_message ≡ none
    → HasSent log task log []
start_at_end log before rest task h none_eq = record {
  passed = [];
  parts = sym (append_nil log);
  messages = go task.last_message none_eq h.stopped;
  increasing = h.increasing;
  stopped = rw none_eq refl;
}
  where
    go : (o : Option ℕ) → o ≡ none → StoppedAfter o before h.passed → task.sent ≡ []
    go none e s = h.messages ∙ ap (map of_event) s
    go (some l) e s = cc

pub listen-IsFollowing :
    (w : World)
    → IsFollowing w
    → IsFollowing (record w { phase = after_listen w.task.last_message; queue = [] })
listen-IsFollowing w i = elim (Option-cases w.task.last_message) [
  | inl none_eq ↦ record {
    before = w.log;
    rest = [];
    has_sent = start_at_end w.log i.before i.rest w.task i.has_sent none_eq;
    queued = rw none_eq refl;
  }
  | inr (l, last_eq) ↦ record {
    before = i.before;
    rest = i.rest;
    has_sent = i.has_sent;
    queued = rw last_eq (w.log, sym (append_nil w.log));
  }
]
