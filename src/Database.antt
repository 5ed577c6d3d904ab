-- ===== src/Database.antt =====
-- plane/src/database: the controller's tables. A table is the list of its rows, a query of the
-- source a function on the tables; `now` is the time of its transaction, which Postgres gives to
-- every `now()` of it. Names, tokens and JSON values that are only stored or compared are numbers,
-- and times are nanoseconds.
pub mod Backend
pub mod Keys
pub mod Connect
pub mod Acme
pub mod Events
pub mod Routes
pub mod Nodes
pub mod Drones
pub mod Actions
pub mod Cleanup
use plane.Prelude.{Bool, List, Option, ℕ}
use plane.BackendState.{BackendState, BackendStatus}
use plane.Protocol.{BackendAction}

pub record BackendRow : Type 0 where
  pub id : ℕ
  pub cluster : ℕ
  pub last_status : BackendStatus
  pub last_status_time : ℕ
  pub last_status_number : Option ℕ
  pub cluster_address : Option ℕ
  pub drone_id : ℕ
  pub expiration_time : Option ℕ
  pub allowed_idle_seconds : Option ℕ
  pub last_keepalive : ℕ
  pub state : BackendState
  pub static_token : Option ℕ
  pub subdomain : Option ℕ

pub record KeyRow : Type 0 where
  pub id : ℕ
  pub key_name : ℕ
  pub namespace : ℕ
  pub tag : ℕ
  pub expires_at : ℕ
  pub fencing_token : ℕ
  pub allow_renew : Bool

pub record TokenRow : Type 0 where
  pub token : ℕ
  pub backend_id : ℕ
  pub username : Option ℕ
  pub auth : ℕ
  pub secret_token : ℕ
  pub expiration_time : ℕ

pub record ActionRow : Type 0 where
  pub id : ℕ
  pub backend_id : ℕ
  pub drone_id : ℕ
  pub action : BackendAction
  pub created_at : ℕ
  pub acked_at : Option ℕ

-- `backend_state` has the log of states, oldest first. `emitted` has the notifications of a
-- backend's state.
pub record Database : Type 0 where
  pub backend : List BackendRow
  pub backend_key : List KeyRow
  pub token : List TokenRow
  pub backend_state : List (ℕ × BackendState)
  pub backend_action : List ActionRow
  pub emitted : List (ℕ × BackendState)
