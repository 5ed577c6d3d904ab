-- ===== src/Database/Events.antt =====
-- plane/src/database/subscribe.rs: the log of events, which every controller follows, and the
-- table of those who listen. An event that is emitted is a row of the table `event` and, when its
-- transaction commits, a notification to each connection that listens.
pub mod Ordered
pub mod Follow
pub mod Listeners
use plane.Prelude.Rows.{any_where}
use plane.Prelude.{
  true, ◌==◌, ◌&&◌, Bool, List, Option, [], false, filterb, if◌then◌else◌, leb, ltb, none, some,
  take, ℕ, ◌++◌, ◌∷◌,
}

-- A row of the table; the payload is a JSON value.
pub record Event : Type 0 where
  pub id : ℕ
  pub kind : ℕ
  pub key : Option ℕ
  pub created_at : ℕ
  pub payload : ℕ

-- `Notification<Value>`; one without an id is ephemeral.
pub record Notification : Type 0 where
  pub id : Option ℕ
  pub timestamp : ℕ
  pub kind : ℕ
  pub key : Option ℕ
  pub payload : ℕ

abbrev pub of_event : Event → Notification
of_event e = record {
  id = some e.id;
  timestamp = e.created_at;
  kind = e.kind;
  key = e.key;
  payload = e.payload;
}

-- `order by id asc`
unfoldable pub insert_by_id : Event → List Event → List Event
insert_by_id e [] = e ∷ []
insert_by_id e (f ∷ fs) =
    let rest = insert_by_id e fs in if leb e.id f.id then e ∷ f ∷ fs else f ∷ rest

unfoldable pub sort_by_id : List Event → List Event
sort_by_id [] = []
sort_by_id (e ∷ es) = insert_by_id e (sort_by_id es)

-- `get_events_since`: at most a hundred events.
unfoldable pub get_events_since : ℕ → List Event → List Event
get_events_since since log = take 100 (sort_by_id (filterb (λ e. ltb since e.id) log))

-- What the task of the manager keeps: the id of the last event, and what it has sent so far.
pub record Task : Type 0 where
  pub last_message : Option ℕ
  pub sent : List Notification

-- A subscription: a kind, and a key or none for all of the kind.
abbrev pub Listener : Type 0
Listener = ℕ × Option ℕ

abbrev pub same_key : Option ℕ → Option ℕ → Bool
same_key none none = true
same_key none (some k) = false
same_key (some j) none = false
same_key (some j) (some k) = j == k

abbrev pub same_listener : Listener → Listener → Bool
same_listener (kind, key) (kind', key') = kind == kind' && same_key key key'

-- `listeners.get` and the send: the listener gets the notification where it is in the table.
abbrev pub sent_to : Listener → List Listener → List Listener
sent_to l listeners = if any_where (same_listener l) listeners then l ∷ [] else []

abbrev pub keyed_listener : ℕ → Option ℕ → List Listener → List Listener
keyed_listener kind none listeners = []
keyed_listener kind (some key) listeners = sent_to (kind, some key) listeners

-- The listeners that `send_message` gives a notification to: those of its key, then those of all.
unfoldable pub listeners_for : Notification → List Listener → List Listener
unfolding any_where
listeners_for n listeners =
    keyed_listener n.kind n.key listeners ++ sent_to (n.kind, none) listeners

-- What was sent, to the subscribers of all events and to the listeners.
unfoldable pub send_message : Notification → Task → Task
send_message n t = record t { sent = t.sent ++ n ∷ [] }

-- A batch that was read from the database: each message is sent, and its id kept.
unfoldable pub send_batch : List Event → Task → Task
send_batch [] t = t
send_batch (e ∷ es) t =
    send_batch es (record (send_message (of_event e) t) { last_message = some e.id })

abbrev is_old : ℕ → Option ℕ → Bool
is_old id none = false
is_old id (some last) = leb id last

-- A notification of the listener: one that was read from the database before is skipped.
abbrev notified : Option ℕ → Notification → Task → Task
notified none n t = send_message n t
notified (some id) n t =
    if is_old id t.last_message then t else send_message n (record t { last_message = some id })

unfoldable pub receive : Notification → Task → Task
receive n t = notified n.id n t
