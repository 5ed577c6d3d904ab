-- ===== src/Database/Events/Follow/Reading.antt =====
-- What is read from the database (plane/src/database/subscribe.rs) continues what was sent.
use plane.Prelude.{
  All, All-append, All-map, List, Option, [], ap, append_nil, arith, none, refl, some, subst, suc,
  sym, take, ℕ, ◌++◌, ◌<◌, ◌∙◌, ◌∷◌, ◌≡◌, ◌≤◌,
}
use plane.Database.Events.{Event, Task, get_events_since, send_batch}
use plane.Database.Events.Ordered.{Increasing, Increasing-before, get_events_since_lem, take_split}
use plane.Database.Events.Follow.{catching_up, live}
use plane.Database.Events.Follow.Sent.{HasSent, QueueFits, last_of, send_batch-HasSent}

-- What is read after the last event is the beginning of what remains.
read_next :
    (log before rest : List Event) (task : Task) (l : ℕ)
    → HasSent log task before rest
    → task.last_message ≡ some l
    → get_events_since l log ≡ take 100 rest
read_next log before rest task l h last_eq =
    let (ys, f, split, id_eq) = last_of log before rest task l h last_eq in
    ap (λ t. get_events_since l t) split
    ∙ ap (λ n. get_events_since n (ys ++ f ∷ rest)) (sym id_eq)
    ∙ get_events_since_lem ys f rest (subst Increasing split h.increasing)

pub fetch-HasSent :
    (log before rest : List Event) (task : Task) (l : ℕ) (es : List Event)
    → HasSent log task before rest
    → task.last_message ≡ some l
    → get_events_since l log ≡ es
    → (zs : List Event) × HasSent log (send_batch es task) before zs
fetch-HasSent log before rest task l es h last_eq read =
    let (zs, rest_eq) =
      take_split 100 rest es (sym (read_next log before rest task l h last_eq) ∙ read) in
    (zs, send_batch-HasSent log before es zs task (subst (HasSent log task before) rest_eq h))

pub send_batch-last_message :
    (e : Event) (es : List Event) (task : Task)
    → (l : ℕ) × ((send_batch (e ∷ es) task).last_message ≡ some l)
unfolding send_batch
send_batch-last_message e [] task = (e.id, refl)
send_batch-last_message e (f ∷ fs) task = send_batch-last_message f fs _

pub still_catching_up :
    (last last' : Option ℕ) (log queue rest zs : List Event) (l l' : ℕ)
    → last ≡ some l
    → last' ≡ some l'
    → QueueFits catching_up last log queue rest
    → QueueFits catching_up last' log queue zs
still_catching_up none last' log queue rest zs l l' e e' q = absurd q
still_catching_up (some m) none log queue rest zs l l' e e' q = cc
still_catching_up (some m) (some m') log queue rest zs l l' e e' q = q

pub All-suffix : (P : Event → Type 0) (xs ys : List Event) → All P (xs ++ ys) → All P ys
All-suffix P [] ys h = h
All-suffix P (x ∷ xs) ys (h, hs) = All-suffix P xs ys hs

take_nil : (n : ℕ) (xs : List Event) → take (suc n) xs ≡ [] → xs ≡ []
take_nil n [] h = refl
take_nil n (x ∷ xs) h = cc

suffix_old :
    (log pre queue ys : List Event) (f : Event)
    → Increasing log
    → log ≡ ys ++ f ∷ []
    → log ≡ pre ++ queue
    → All (λ e. e.id ≤ f.id) queue
suffix_old log pre queue ys f i last_eq queue_eq =
    All-suffix (λ e. e.id ≤ f.id) pre queue (subst (All (λ e. e.id ≤ f.id)) queue_eq all_old)
  where
    all_old : All (λ e. e.id ≤ f.id) log
    all_old = subst (All (λ e. e.id ≤ f.id)) (sym last_eq) (
        All-append (λ e. e.id ≤ f.id) ys (f ∷ [])
          (All-map (λ e. e.id < f.id) (λ e. e.id ≤ f.id) (λ e h. omega arith) ys
            (Increasing-before ys f [] (subst Increasing last_eq i)))
          (omega arith, tt))

-- When nothing is left to read, what the connection has notified meanwhile is old.
pub caught_up-QueueFits :
    (log before rest queue : List Event) (task : Task) (l : ℕ)
    → HasSent log task before rest
    → task.last_message ≡ some l
    → get_events_since l log ≡ []
    → QueueFits catching_up task.last_message log queue rest
    → QueueFits live task.last_message log queue rest
caught_up-QueueFits log before rest queue task l h last_eq read q = go task.last_message last_eq q
  where
    rest_nil : rest ≡ []
    rest_nil = take_nil 99 rest (sym (read_next log before rest task l h last_eq) ∙ read)

    old : (pre : List Event) → log ≡ pre ++ queue → All (λ e. e.id ≤ l) queue
    old pre queue_eq =
        let (ys, f, split, id_eq) = last_of log before rest task l h last_eq in
        subst (λ n. All (λ e. e.id ≤ n) queue) id_eq
          (suffix_old log pre queue ys f h.increasing (split ∙ ap (λ t. ys ++ f ∷ t) rest_nil)
            queue_eq)

    go :
        (o : Option ℕ)
        → o ≡ some l
        → QueueFits catching_up o log queue rest
        → QueueFits live o log queue rest
    go none e s = absurd s
    go (some m) e (pre, queue_eq) = (
      queue,
      sym (append_nil queue) ∙ ap (λ t. queue ++ t) (sym rest_nil),
      subst (λ n. All (λ e. e.id ≤ n) queue) same (old pre queue_eq),
    )
      where
        same : l ≡ m
        same = cc
