-- ===== src/Database/Connect.antt =====
-- plane/src/database/connect.rs: a client connects to the backend of a key, or a backend is
-- created for it. Random ids and tokens, the drone that is picked and the times of the
-- transactions come from outside. What other controllers do between two transactions is a
-- function on the database.
pub mod Attempt
pub mod Outcomes
pub mod Held
pub mod Spawned
use plane.Prelude.{
  Bool, Option, [], false, if◌then◌else◌, none, some, true, ℕ, ◌*◌, ◌++◌, ◌+◌, ◌/◌, ◌==◌, ◌||◌, ◌∷◌,
}
use plane.Prelude.Rows.{any_where}
use plane.BackendState.{BackendState, BackendStatus, as_int}
use plane.Protocol.{second, KeyConfig, KeyDeadlines, AcquiredKey, BackendAction, spawn}
use plane.Database.{BackendRow, Database, KeyRow}
use plane.Database.Backend.{emit_state_change}
use plane.Database.Keys.{
  key_lease_expiration, key_lease_renew_after, key_lease_soft_terminate_after,
}
use plane.Database.Keys.Unique.{clash}

pub data ConnectError : Type 0 where
  no_drone_available : ConnectError
  key_held : (request_tag key_tag : ℕ) → ConnectError
  key_unheld_no_spawn_config : ConnectError
  failed_to_remove_key : ConnectError
  failed_to_acquire_key : ConnectError
  database_error : ConnectError
  no_cluster_provided : ConnectError

unfoldable pub retryable : ConnectError → Bool
retryable failed_to_remove_key = true
retryable failed_to_acquire_key = true
retryable _ = false

pub data Result {ℓ} (A : Type ℓ) : Type ℓ where
  ok : A → Result A
  err : ConnectError → Result A

pub record SpawnConfig : Type 0 where
  pub id : Option ℕ
  pub cluster : Option ℕ
  pub pool : ℕ
  pub executable : ℕ
  pub lifetime_limit_seconds : Option ℕ
  pub max_idle_seconds : Option ℕ
  pub use_static_token : Bool
  pub subdomain : Option ℕ

pub record ConnectRequest : Type 0 where
  pub key : Option KeyConfig
  pub spawn_config : Option SpawnConfig
  pub user : Option ℕ
  pub auth : ℕ

pub record DroneForSpawn : Type 0 where
  pub id : ℕ
  pub drone : ℕ
  pub last_local_time : ℕ

pub record ConnectResponse : Type 0 where
  pub backend_id : ℕ
  pub cluster : ℕ
  pub spawned : Bool
  pub status : BackendStatus
  pub token : ℕ
  pub secret_token : Option ℕ
  pub subdomain : Option ℕ
  pub drone : Option ℕ

-- What an attempt takes from outside.
pub record Chance : Type 0 where
  pub random_backend : ℕ
  pub random_key : ℕ
  pub random_token : ℕ
  pub random_secret : ℕ
  pub random_static : ℕ
  pub random_action : ℕ
  pub check_at : ℕ
  pub remove_at : ℕ
  pub create_at : ℕ
  pub token_at : ℕ
  pub before_remove : Database → Database
  pub before_create : Database → Database
  pub before_token : Database → Database
  pub pick_drone : ℕ → ℕ → Database → Option DroneForSpawn

unfoldable pub or_random : Option ℕ → ℕ → ℕ
or_random none random = random
or_random (some id) random = id

-- The deadlines of a new backend. The hard deadline is counted with the constant of the soft one.
unfoldable pub spawn_deadlines : DroneForSpawn → KeyDeadlines
spawn_deadlines drone = record {
  renew_at = drone.last_local_time + key_lease_renew_after;
  soft_terminate_at = drone.last_local_time + key_lease_soft_terminate_after;
  hard_terminate_at = drone.last_local_time + key_lease_soft_terminate_after;
}

-- `extract(epoch from now()) * 1000` in a column of integers: the database rounds to the nearest
-- millisecond.
abbrev pub epoch_millis : ℕ → ℕ
epoch_millis now = (now + 500_000) / 1_000_000

abbrev pub new_key_row : ℕ → ℕ → KeyConfig → KeyRow
new_key_row now b key = record {
  id = b;
  key_name = key.name;
  namespace = key.namespace;
  tag = key.tag;
  expires_at = now + key_lease_expiration;
  fencing_token = epoch_millis now;
  allow_renew = true;
}

new_backend_row : ℕ → ℕ → SpawnConfig → ℕ → DroneForSpawn → Option ℕ → BackendRow
new_backend_row now b config cluster drone static_token = record {
  id = b;
  cluster = cluster;
  last_status = BackendStatus.scheduled;
  last_status_time = now;
  last_status_number = some (as_int BackendStatus.scheduled);
  cluster_address = none;
  drone_id = drone.id;
  expiration_time = elim config.lifetime_limit_seconds [
    | none ↦ none
    | some t ↦ some (now + t * second)
  ];
  allowed_idle_seconds = config.max_idle_seconds;
  last_keepalive = now;
  state = BackendState.scheduled;
  static_token = static_token;
  subdomain = config.subdomain;
}

-- The constraints of plane/schema/derived_schema.sql that the insertion may violate.
unfoldable pub violates_uniqueness : ℕ → KeyRow → Database → Bool
unfolding any_where
violates_uniqueness b k db =
    any_where (λ (row : BackendRow). row.id == b) db.backend || any_where (clash k) db.backend_key

abbrev pub spawn_action : ℕ → SpawnConfig → KeyConfig → DroneForSpawn → Option ℕ → BackendAction
spawn_action now config key drone static_token =
    spawn config.executable
      (record { key = key; deadlines = spawn_deadlines drone; token = epoch_millis now })
      static_token

-- The transaction: a backend, its key, its first state and the action for its drone, or nothing.
unfoldable pub create_backend_with_key :
    Chance → KeyConfig → SpawnConfig → ℕ → DroneForSpawn → Option ℕ → Database → Result ℕ × Database
unfolding or_random spawn_deadlines new_backend_row violates_uniqueness emit_state_change
create_backend_with_key c key config cluster drone static_token db =
    let b = or_random config.id c.random_backend in
    let now = c.create_at in
    let k = new_key_row now b key in
    if violates_uniqueness b k db then (err failed_to_acquire_key, db) else (
      ok b,
      emit_state_change b BackendState.scheduled (record db {
        backend = new_backend_row now b config cluster drone static_token ∷ db.backend;
        backend_key = k ∷ db.backend_key;
        backend_action =
            db.backend_action
            ++ record {
              id = c.random_action;
              backend_id = b;
              drone_id = drone.id;
              action = spawn_action now config key drone static_token;
              created_at = now;
              acked_at = none;
            }
              ∷ [];
      }),
    )
