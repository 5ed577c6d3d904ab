-- ===== src/Tests/Events.antt =====
-- A controller that follows the log of events (plane/src/database/subscribe.rs) and loses its
-- connection once.
use plane.Prelude.{filterb, List, [], none, refl, ℕ, ◌++◌, ◌∷◌, ◌≡◌, map, arith}
use plane.Database.Events.{
  send_message, sort_by_id, insert_by_id, Event, of_event, receive, send_batch, get_events_since,
}
use plane.Database.Events.Follow.{
  World, Reach, here, next, commit, listen, fetch, caught_up, notify, lose, live, initial,
  catching_up,
}
use plane.Database.Events.Ordered.{Increasing}
use plane.Database.Events.Follow.Gapless.{reach-contiguous}

abbrev event : ℕ → Event
event id = record { id = id; kind = 1; key = none; created_at = id; payload = 0 }

abbrev old_log : List Event
old_log = event 1 ∷ event 2 ∷ []

abbrev w1 : World
w1 = record (initial old_log) { phase = live }

abbrev w2 : World
w2 = record w1 { log = old_log ++ event 3 ∷ []; queue = event 3 ∷ [] }

abbrev w3 : World
w3 = record w2 { queue = []; task = receive (of_event (event 3)) w2.task }

abbrev w4 : World
w4 = record w3 { phase = plane.Database.Events.Follow.offline; queue = [] }

abbrev w5 : World
w5 = record w4 { log = old_log ++ event 3 ∷ event 4 ∷ [] }

abbrev w6 : World
w6 = record w5 { phase = catching_up; queue = [] }

abbrev w7 : World
w7 = record w6 { task = send_batch (event 4 ∷ []) w6.task }

abbrev w8 : World
w8 = record w7 { phase = live }

reached : Reach (initial old_log) w8
unfolding receive send_batch get_events_since send_message sort_by_id insert_by_id filterb
reached =
    next {u = w7}
      (next {u = w6}
        (next {u = w5}
          (next {u = w4}
            (next {u = w3}
              (next {u = w2}
                (next {u = w1} (next {u = initial old_log} here (listen refl refl))
                  (commit (event 3) refl))
                (notify (event 3) [] refl refl refl))
              (lose refl))
            (commit (event 4) refl))
          (listen refl refl))
        (fetch 3 (event 4) [] refl refl refl refl))
      (caught_up 4 refl refl refl refl)

increasing : Increasing w8.log
increasing = (
  (omega arith, (omega arith, (omega arith, tt))),
  ((omega arith, (omega arith, tt)), ((omega arith, tt), (tt, tt))),
)

reach-contiguous_example :
    (before passed rest : List Event) × (w8.log ≡ before ++ (passed ++ rest))
    × (w8.task.sent ≡ map of_event passed)
    × (w8.phase ≡ live → w8.queue ≡ [] → rest ≡ [])
reach-contiguous_example = reach-contiguous old_log w8 increasing reached
