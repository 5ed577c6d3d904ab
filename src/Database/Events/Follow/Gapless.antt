-- ===== src/Database/Events/Follow/Gapless.antt =====
-- The events that a controller has sent are one run of the log (plane/src/database/subscribe.rs).
use plane.Prelude.{List, Option, [], append_nil, map, none, refl, some, sym, ℕ, ◌++◌, ◌∷◌, ◌≡◌}
use plane.Database.Events.{Event, get_events_since, of_event, receive, send_batch}
use plane.Database.Events.Ordered.{Increasing, Increasing-before, Increasing-init}
use plane.Database.Events.Follow.{
  Reach, Step, World, catching_up, caught_up, commit, fetch, here, initial, listen, live, lose,
  next, notify, offline,
}
use plane.Database.Events.Follow.Sent.{IsFollowing, QueueFits}
use plane.Database.Events.Follow.Connecting.{commit-IsFollowing, listen-IsFollowing}
use plane.Database.Events.Follow.Reading.{
  caught_up-QueueFits, fetch-HasSent, send_batch-last_message, still_catching_up,
}
use plane.Database.Events.Follow.Receiving.{receive-Live}

notify-IsFollowing :
    (w : World) (e : Event) (es : List Event)
    → w.phase ≡ live
    → w.queue ≡ e ∷ es
    → IsFollowing w
    → IsFollowing (record w { queue = es; task = receive (of_event e) w.task })
notify-IsFollowing w e es live_eq queue_eq i =
    let (rest, h, q) = receive-Live w.log i.before es w.task e (i.rest, i.has_sent, waiting) in
    record { before = i.before; rest = rest; has_sent = h; queued = rw live_eq q }
  where
    waiting : QueueFits live w.task.last_message w.log (e ∷ es) i.rest
    waiting = rw queue_eq at (rw live_eq at i.queued)

fetch-IsFollowing :
    (w : World) (last : ℕ) (e : Event) (es : List Event)
    → w.phase ≡ catching_up
    → w.task.last_message ≡ some last
    → get_events_since last w.log ≡ e ∷ es
    → IsFollowing w
    → IsFollowing (record w { task = send_batch (e ∷ es) w.task })
fetch-IsFollowing w last e es phase_eq last_eq read i =
    let (zs, h) =
      fetch-HasSent w.log i.before i.rest w.task last (e ∷ es) i.has_sent last_eq read in
    let (l', last_eq') = send_batch-last_message e es w.task in
    record {
      before = i.before;
      rest = zs;
      has_sent = h;
      queued = rw phase_eq (
          still_catching_up w.task.last_message (send_batch (e ∷ es) w.task).last_message w.log
            w.queue i.rest zs last l' last_eq last_eq' (rw phase_eq at i.queued));
    }

caught_up-IsFollowing :
    (w : World) (last : ℕ)
    → w.phase ≡ catching_up
    → w.task.last_message ≡ some last
    → get_events_since last w.log ≡ []
    → IsFollowing w
    → IsFollowing (record w { phase = live })
caught_up-IsFollowing w last phase_eq last_eq read i = record {
  before = i.before;
  rest = i.rest;
  has_sent = i.has_sent;
  queued =
      caught_up-QueueFits w.log i.before i.rest w.queue w.task last i.has_sent last_eq read
        (rw phase_eq at i.queued);
}

lose-IsFollowing :
    (w : World) → IsFollowing w → IsFollowing (record w { phase = offline; queue = [] })
lose-IsFollowing w i = record {
  before = i.before;
  rest = i.rest;
  has_sent = i.has_sent;
  queued = tt;
}

-- The log only grows.
Increasing-step : (w u : World) → Step w u → Increasing u.log → Increasing w.log
Increasing-step w u (commit e p) h = Increasing-init w.log e (rw p at h)
Increasing-step w u (listen off p) h = rw p at h
Increasing-step w u (fetch last e es ph l read p) h = rw p at h
Increasing-step w u (caught_up last ph l read p) h = rw p at h
Increasing-step w u (notify e es ph q p) h = rw p at h
Increasing-step w u (lose p) h = rw p at h

step-IsFollowing : (w u : World) → Step w u → Increasing u.log → IsFollowing w → IsFollowing u
step-IsFollowing w u (commit e p) h i =
    rw p (commit-IsFollowing w e (Increasing-before w.log e [] (rw p at h)) i)
step-IsFollowing w u (listen off p) h i = rw p (listen-IsFollowing w i)
step-IsFollowing w u (fetch last e es ph l read p) h i =
    rw p (fetch-IsFollowing w last e es ph l read i)
step-IsFollowing w u (caught_up last ph l read p) h i =
    rw p (caught_up-IsFollowing w last ph l read i)
step-IsFollowing w u (notify e es ph q p) h i = rw p (notify-IsFollowing w e es ph q i)
step-IsFollowing w u (lose p) h i = rw p (lose-IsFollowing w i)

initial-IsFollowing : (log : List Event) → Increasing log → IsFollowing (initial log)
initial-IsFollowing log h = record {
  before = log;
  rest = [];
  has_sent = record {
    passed = [];
    parts = sym (append_nil log);
    messages = refl;
    increasing = h;
    stopped = refl;
  };
  queued = tt;
}

reach-IsFollowing :
    (log : List Event) (w : World) → Increasing w.log → Reach (initial log) w → IsFollowing w
reach-IsFollowing log w h here = initial-IsFollowing log h
reach-IsFollowing log w h (next {u} r s) =
    step-IsFollowing u w s h (reach-IsFollowing log u (Increasing-step u w s h) r)

-- If the events of the log have committed in the order of their ids, then over any number of lost
-- connections what a controller has sent on is one run of the log: nothing twice, nothing out of
-- order and no gap. On a
-- live connection whose queue is empty, a controller that has seen an event has sent all that
-- follow the run's first.
pub reach-contiguous :
    (log : List Event) (w : World)
    → Increasing w.log
    → Reach (initial log) w
    → (before passed rest : List Event) × (w.log ≡ before ++ (passed ++ rest))
      × (w.task.sent ≡ map of_event passed)
      × (w.phase ≡ live → w.queue ≡ [] → rest ≡ [])
reach-contiguous log w h r =
    let i = reach-IsFollowing log w h r in
    (i.before, i.has_sent.passed, i.rest, i.has_sent.parts, i.has_sent.messages, drained i)
  where
    at_end : (o : Option ℕ) (rest : List Event) → QueueFits live o w.log [] rest → rest ≡ []
    at_end none rest q = sym q
    at_end (some l) [] q = refl
    at_end (some l) (r ∷ rs) ([], q, old) = cc
    at_end (some l) (r ∷ rs) (d ∷ ds, q, old) = cc

    drained : (i : IsFollowing w) → w.phase ≡ live → w.queue ≡ [] → i.rest ≡ []
    drained i ph empty = at_end w.task.last_message i.rest (rw empty at (rw ph at i.queued))
