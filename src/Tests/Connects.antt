-- ===== src/Tests/Connects.antt =====
-- Connecting (plane/src/database/connect.rs) and the keys' constraints.
use plane.Prelude.{
  [], arith, false, filterb, find, length, none, refl, some, true, ℕ, ◌*◌, ◌+◌, ◌∷◌, ◌≡◌,
}
use plane.BackendState.{BackendState, BackendStatus}
use plane.Protocol.{KeyConfig, second}
use plane.Database.{BackendRow, Database, KeyRow}
use plane.Database.Connect.{
  create_backend_with_key, Chance, ConnectRequest, DroneForSpawn, SpawnConfig,
}
use plane.Database.Actions.{ack_pending_action, create_pending_action}
use plane.Database.Backend.{backend, termination_candidates}
use plane.Prelude.Rows.{any_where, update_where}
use plane.Controller.DroneSocket.{sweep, sweep_all, terminate}
use plane.Database.Connect.Attempt.{connect}
use plane.Database.Connect.Outcomes.{IsFair, connect_keeps_live}
use plane.Database.Connect.Outcomes.Steps.{HoldsAlone}
use plane.Database.Connect.Held.{Held, connect_live}
use plane.Controller.DroneSocket.Directed.{
  IsDirected, acks, changes, changes-IsDirected, creates, sweeps, terminates,
}

abbrev config : SpawnConfig
config = record {
  id = none;
  cluster = some 3;
  pool = 0;
  executable = 8;
  lifetime_limit_seconds = some 600;
  max_idle_seconds = some 60;
  use_static_token = false;
  subdomain = none;
}

abbrev key : KeyConfig
key = record { name = 4; namespace = 0; tag = 2 }

abbrev request : ConnectRequest
request = record { key = some key; spawn_config = some config; user = none; auth = 0 }

abbrev drone : DroneForSpawn
drone = record { id = 1; drone = 7; last_local_time = 103 * second }

-- Nothing happens between the transactions, and the drone is always picked.
abbrev chance : ℕ → Chance
chance n = record {
  random_backend = 100 + n;
  random_key = 200 + n;
  random_token = 300 + n;
  random_secret = 400 + n;
  random_static = 500 + n;
  random_action = 600 + n;
  check_at = 100 * second;
  remove_at = 100 * second;
  create_at = 100 * second;
  token_at = 100 * second;
  before_remove = λ db. db;
  before_create = λ db. db;
  before_token = λ db. db;
  pick_drone = λ cluster pool db. some drone;
}

abbrev held_key : KeyRow
held_key = record {
  id = 50;
  key_name = 4;
  namespace = 0;
  tag = 2;
  expires_at = 130 * second;
  fencing_token = 9;
  allow_renew = true;
}

abbrev held_backend : BackendRow
held_backend = record {
  id = 50;
  cluster = 3;
  last_status = BackendStatus.ready;
  last_status_time = 80 * second;
  last_status_number = some 50;
  cluster_address = some 11;
  drone_id = 1;
  expiration_time = none;
  allowed_idle_seconds = some 60;
  last_keepalive = 80 * second;
  state = BackendState.ready 11;
  static_token = none;
  subdomain = none;
}

abbrev pub held_database : Database
held_database = record {
  backend = held_backend ∷ [];
  backend_key = held_key ∷ [];
  token = [];
  backend_state = [];
  backend_action = [];
  emitted = [];
}

held_alone : HoldsAlone held_key held_database
unfolding filterb
held_alone = refl

fair : (n : ℕ) → IsFair held_key (chance n)
fair n = record { live = omega arith; remove = λ db h. h; create = λ db h. h; token = λ db h. h }

-- A request for the same key with another tag.
abbrev other_tag : ConnectRequest
other_tag = record request { key = some (record key { tag = 3 }) }

connect_keeps_live_example : HoldsAlone held_key (connect chance none other_tag held_database).1
connect_keeps_live_example =
    connect_keeps_live held_key chance none other_tag held_database fair held_alone

connect_live_example :
    Held
      (chance 1)
      key
      held_key
      held_backend
      held_database
      (connect chance none request held_database)
unfolding find
connect_live_example =
    connect_live chance none request key held_key held_backend held_database refl refl refl
      (omega arith)

-- A new key is held by a new backend.
abbrev new_key : KeyConfig
new_key = record { name = 5; namespace = 0; tag = 2 }

abbrev changed : Database
changed =
    changes
      (creates (chance 1) new_key config 3 drone none
        ∷ terminates 101 7 50 true
        ∷ sweeps (400 * second) (λ b. b) 1
        ∷ acks 410 7 1
        ∷ [])
      held_database

changes-IsDirected_example : IsDirected changed
changes-IsDirected_example =
    changes-IsDirected
      (creates (chance 1) new_key config 3 drone none
        ∷ terminates 101 7 50 true
        ∷ sweeps (400 * second) (λ b. b) 1
        ∷ acks 410 7 1
        ∷ [])
      held_database tt

three_actions : length changed.backend_action ≡ 3
unfolding ack_pending_action sweep sweep_all termination_candidates terminate backend
    create_backend_with_key create_pending_action update_where filterb find any_where
three_actions = refl
