-- ===== src/Database/Keys/Lease.antt =====
-- The lease that ties a key's row in the database (plane/src/database/backend_key.rs) to the loop
-- that runs on the drone (plane/src/drone/key_manager.rs), with the messages between them
-- (plane/src/controller/drone.rs, plane/src/drone/mod.rs). The drone's clock shows `drift` more
-- than the controller's, both counted from an origin for which that is so.
pub mod Safety
use plane.Prelude.{
  All, List, Option, none, some, ℕ, ◌*◌, ◌++◌, ◌+◌, ◌<◌, ◌∷◌, ◌≡◌, ◌≤◌, All-map, [], arith, refl,
}
use plane.Protocol.{second, KeyDeadlines}
use plane.Database.Keys.{key_lease_expiration, renewed_deadlines, key_lease_hard_terminate_after}

pub record Lease : Type 0 where
  pub clock : ℕ  -- of the controller
  pub expires_at : Option ℕ  -- of the key's row; `none` when the row is gone
  pub spawn_sent : Option KeyDeadlines  -- a spawn action that the drone has not handled
  pub running : Option KeyDeadlines  -- of the loop of a backend that runs
  pub requests : List ℕ  -- the local times of the renew requests on their way
  pub responses : List KeyDeadlines  -- the renewals on their way back

-- The loop kills its backend within `grace` of the hard deadline, by the drone's clock.
abbrev pub Alive : ℕ → ℕ → Lease → Type 0
Alive drift grace l =
    (d : KeyDeadlines) → l.running ≡ some d → l.clock + drift ≤ d.hard_terminate_at + grace

-- An assumption on the drone: it starts a backend before its soft deadline. `handle_message` warns of
-- a later spawn, and does not refuse it.
abbrev StartsInTime : ℕ → KeyDeadlines → Lease → Type 0
StartsInTime drift d l = l.clock + drift ≤ d.soft_terminate_at

-- The drone handles the spawn action and registers the key.
abbrev spawn_handled : KeyDeadlines → Lease → Lease
spawn_handled d l = record l { spawn_sent = none; running = some d }

-- The loop sends a request with the time of its clock.
abbrev request_sent : ℕ → Lease → Lease
request_sent local_time l = record l { requests = local_time ∷ l.requests }

-- The controller handles the request of the local time `t`; the requests `others` stay.
abbrev request_renewed : ℕ → List ℕ → Lease → Lease
request_renewed t others l = record l {
  expires_at = some (l.clock + key_lease_expiration);
  requests = others;
  responses = renewed_deadlines t ∷ l.responses;
}

-- The drone handles a renewal; the renewals `others` stay.
abbrev renewal_handled : KeyDeadlines → List KeyDeadlines → Lease → Lease
renewal_handled d others l = record l { running = some d; responses = others }

-- The row of the key is removed.
abbrev key_removed : Lease → Lease
key_removed l = record l { expires_at = none }

-- `pass` lets time pass, for as long as the drone kills in time; `refuse` is a renewal that finds no
-- row, or a message that is lost; `drop` is one for a backend that does not run any more.
pub data Step (drift grace : ℕ) (l m : Lease) : Type 0 where
  pass : (t : ℕ) → m ≡ record l { clock = l.clock + t } → Alive drift grace m → Step drift grace l m
  start :
      (d : KeyDeadlines)
      → l.spawn_sent ≡ some d
      → StartsInTime drift d l
      → m ≡ spawn_handled d l
      → Step drift grace l m
  ask :
      (d : KeyDeadlines)
      → l.running ≡ some d
      → m ≡ request_sent (l.clock + drift) l
      → Step drift grace l m
  renew :
      (before : List ℕ) (t : ℕ) (after : List ℕ) (e : ℕ)
      → l.requests ≡ before ++ t ∷ after
      → l.expires_at ≡ some e
      → m ≡ request_renewed t (before ++ after) l
      → Step drift grace l m
  refuse :
      (before : List ℕ) (t : ℕ) (after : List ℕ)
      → l.requests ≡ before ++ t ∷ after
      → m ≡ record l { requests = before ++ after }
      → Step drift grace l m
  extend :
      (before : List KeyDeadlines) (d : KeyDeadlines) (after : List KeyDeadlines)
      (old : KeyDeadlines)
      → l.responses ≡ before ++ d ∷ after
      → l.running ≡ some old
      → m ≡ renewal_handled d (before ++ after) l
      → Step drift grace l m
  drop :
      (before : List KeyDeadlines) (d : KeyDeadlines) (after : List KeyDeadlines)
      → l.responses ≡ before ++ d ∷ after
      → l.running ≡ none
      → m ≡ record l { responses = before ++ after }
      → Step drift grace l m
  stop : m ≡ record l { running = none } → Step drift grace l m
  remove : (e : ℕ) → l.expires_at ≡ some e → e < l.clock → m ≡ key_removed l → Step drift grace l m

pub data Reach (drift grace : ℕ) (l : Lease) : Lease → Type 0 where
  here : Reach drift grace l l
  next : {m n : Lease} → Reach drift grace l m → Step drift grace m n → Reach drift grace l n

-- Deadlines that end ten seconds before the row may be removed; after it was removed they are
-- over for as long.
abbrev pub Safe : ℕ → ℕ → Option ℕ → KeyDeadlines → Type 0
Safe drift clock none d = d.hard_terminate_at + 10 * second ≤ clock + drift
Safe drift clock (some e) d = d.hard_terminate_at + 10 * second ≤ e + drift

abbrev pub SafeSpawn : ℕ → ℕ → Option ℕ → Option KeyDeadlines → Type 0
SafeSpawn drift clock e none = Unit
SafeSpawn drift clock e (some d) =
    Safe drift clock e d × (d.soft_terminate_at ≤ d.hard_terminate_at)

-- A backend that runs has its key, and the lease has not expired.
abbrev pub Holds : ℕ → ℕ → Option ℕ → Option KeyDeadlines → Type 0
Holds drift clock e none = Unit
Holds drift clock none (some d) = ⊥
Holds drift clock (some e) (some d) = (clock ≤ e) × Safe drift clock (some e) d

abbrev pub Recent : ℕ → Option ℕ → Type 0
Recent clock none = Unit
Recent clock (some e) = e ≤ clock + key_lease_expiration

pub record IsSafe (drift : ℕ) (l : Lease) : Type 0 where
  pub holds : Holds drift l.clock l.expires_at l.running
  pub recent : Recent l.clock l.expires_at
  pub spawn_safe : SafeSpawn drift l.clock l.expires_at l.spawn_sent
  pub asked : All (λ t. t ≤ l.clock + drift) l.requests
  pub answered : All (Safe drift l.clock l.expires_at) l.responses

-- The state in which a controller has just created a backend for a drone whose last heartbeat
-- showed the local time `local_time`.
abbrev pub created : ℕ → KeyDeadlines → Lease
created now d = record {
  clock = now;
  expires_at = some (now + key_lease_expiration);
  spawn_sent = some d;
  running = none;
  requests = [];
  responses = [];
}
