-- ===== src/Database/Connect/Attempt.antt =====
-- `create_token`, `attempt_connect` and `connect` of plane/src/database/connect.rs.
use plane.Prelude.{
  Option, false, if◌then◌else◌, none, not, some, suc, true, zero, ℕ, ◌*◌, ◌+◌, ◌==◌, ◌∷◌, ◌||◌,
}
use plane.Prelude.Rows.{any_where}
use plane.BackendState.{BackendStatus}
use plane.Protocol.{second, KeyConfig}
use plane.Database.{BackendRow, Database, TokenRow}
use plane.Database.Keys.{BackendKeyResult, check_key, is_live, remove_key}
use plane.Database.Connect.{
  Chance, ConnectRequest, ConnectResponse, DroneForSpawn, Result, SpawnConfig,
  create_backend_with_key, database_error, err, failed_to_remove_key, key_held,
  key_unheld_no_spawn_config, no_cluster_provided, no_drone_available, ok, retryable,
}

abbrev pub token_lifetime_seconds : ℕ
token_lifetime_seconds = 3600

-- A token that exists already violates the primary key, and a backend that is not there the foreign
-- key: a database error.
unfoldable pub create_token : Chance → ℕ → ConnectRequest → Database → Result (ℕ × ℕ) × Database
unfolding any_where
create_token c b request db =
    if any_where (λ (t : TokenRow). t.token == c.random_token) db.token
      || not (any_where (λ (row : BackendRow). row.id == b) db.backend)
    then (err database_error, db)
    else (
      ok (c.random_token, c.random_secret),
      record db {
        token =
            record {
              token = c.random_token;
              backend_id = b;
              username = request.user;
              auth = request.auth;
              secret_token = c.random_secret;
              expiration_time = c.token_at + token_lifetime_seconds * second;
            }
            ∷ db.token;
      },
    )

-- The answer with the static token, or with a token that is created for this client.
unfoldable pub respond :
    Chance
    → ConnectRequest
    → Option ℕ
    → (ℕ → Option ℕ → ConnectResponse)
    → ℕ
    → Database
    → Result ConnectResponse × Database
unfolding create_token
respond c request (some token) response b db = (ok (response token none), db)
respond c request none response b db =
    let (r, db') = create_token c b request (c.before_token db) in
    (elim r [ ok (token, secret) ↦ ok (response token (some secret)) | err e ↦ err e ], db')

unfoldable pub or_else : Option ℕ → Option ℕ → Option ℕ
or_else none o = o
or_else (some x) o = some x

unfoldable pub respond_created :
    Chance
    → ConnectRequest
    → SpawnConfig
    → ℕ
    → DroneForSpawn
    → Option ℕ
    → Result ℕ × Database
    → Result ConnectResponse × Database
unfolding respond
respond_created c request config cluster drone static_token (err e, db) = (err e, db)
respond_created c request config cluster drone static_token (ok b, db) =
    respond c request static_token
      (λ token secret. record {
        backend_id = b;
        cluster = cluster;
        spawned = true;
        status = BackendStatus.scheduled;
        token = token;
        secret_token = secret;
        subdomain = config.subdomain;
        drone = some drone.drone;
      })
      b db

unfoldable pub spawn_on :
    Chance
    → KeyConfig
    → ConnectRequest
    → SpawnConfig
    → ℕ
    → Option DroneForSpawn
    → Database
    → Result ConnectResponse × Database
unfolding respond_created create_backend_with_key
spawn_on c key request config cluster none db = (err no_drone_available, db)
spawn_on c key request config cluster (some drone) db =
    let static_token : Option ℕ = if config.use_static_token then some c.random_static else none in
    respond_created c request config cluster drone static_token
      (create_backend_with_key c key config cluster drone static_token (c.before_create db))

unfoldable pub spawn_in :
    Chance
    → KeyConfig
    → ConnectRequest
    → SpawnConfig
    → Option ℕ
    → Database
    → Result ConnectResponse × Database
unfolding spawn_on
spawn_in c key request config none db = (err no_cluster_provided, db)
spawn_in c key request config (some cluster) db =
    spawn_on c key request config cluster (c.pick_drone cluster config.pool db) db

-- The second half of an attempt: the key is not held.
unfoldable pub spawn_for :
    Chance
    → Option ℕ
    → KeyConfig
    → ConnectRequest
    → Option SpawnConfig
    → Database
    → Result ConnectResponse × Database
unfolding spawn_in or_else
spawn_for c default_cluster key request none db = (err key_unheld_no_spawn_config, db)
spawn_for c default_cluster key request (some config) db =
    spawn_in c key request config (or_else config.cluster default_cluster) db

-- The key is held by a live backend.
unfoldable pub connect_held :
    Chance
    → KeyConfig
    → ConnectRequest
    → BackendKeyResult
    → Database
    → Result ConnectResponse × Database
unfolding respond
connect_held c key request r db =
    if not (r.tag == key.tag)
    then (err (key_held key.tag r.tag), db)
    else respond c request r.static_connection_token
        (λ token secret. record {
          backend_id = r.id;
          cluster = r.cluster;
          spawned = false;
          status = r.status;
          token = token;
          secret_token = secret;
          subdomain = r.subdomain;
          drone = none;
        })
        r.id db

-- The key has expired: it is removed, unless it was renewed since it was checked.
unfoldable pub connect_expired :
    Chance
    → Option ℕ
    → KeyConfig
    → ConnectRequest
    → BackendKeyResult
    → Database
    → Result ConnectResponse × Database
unfolding remove_key spawn_for
connect_expired c default_cluster key request r db =
    let (removed, db') = remove_key c.remove_at r.id (c.before_remove db) in
    if removed
    then spawn_for c default_cluster key request request.spawn_config db'
    else (err failed_to_remove_key, db')

unfoldable pub connect_checked :
    Chance
    → Option ℕ
    → KeyConfig
    → ConnectRequest
    → Option (Option BackendKeyResult)
    → Database
    → Result ConnectResponse × Database
unfolding connect_held connect_expired is_live spawn_for
connect_checked c default_cluster key request none db =
    spawn_for c default_cluster key request request.spawn_config db
connect_checked c default_cluster key request (some none) db = (err database_error, db)
connect_checked c default_cluster key request (some (some r)) db =
    if is_live r
    then connect_held c key request r db
    else connect_expired c default_cluster key request r db

-- `KeyConfig::new_random`: the namespace and the tag are empty, which is the number 0.
abbrev pub random_key_config : ℕ → KeyConfig
random_key_config name = record { name = name; namespace = 0; tag = 0 }

unfoldable pub connect_key :
    Chance
    → Option ℕ
    → ConnectRequest
    → Option KeyConfig
    → Database
    → Result ConnectResponse × Database
unfolding connect_checked check_key spawn_for
connect_key c default_cluster request none db =
    spawn_for c default_cluster (random_key_config c.random_key) request request.spawn_config db
connect_key c default_cluster request (some key) db =
    connect_checked c default_cluster key request (check_key c.check_at key db) db

unfoldable pub attempt_connect :
    Chance → Option ℕ → ConnectRequest → Database → Result ConnectResponse × Database
unfolding connect_key
attempt_connect c default_cluster request db = connect_key c default_cluster request request.key db

-- The loop of `connect`: `left` attempts may follow this one.
unfoldable pub connect_within :
    ℕ → (ℕ → Chance) → ℕ → Option ℕ → ConnectRequest → Database → Result ConnectResponse × Database
unfolding attempt_connect retryable
connect_within zero chance attempt default_cluster request db =
    attempt_connect (chance attempt) default_cluster request db
connect_within (suc left) chance attempt default_cluster request db =
    let (r, db') = attempt_connect (chance attempt) default_cluster request db in
    elim r [
      | ok response ↦ (ok response, db')
      | err e ↦ elim (retryable e) [
        | false ↦ (err e, db')
        | true ↦ connect_within left chance (attempt + 1) default_cluster request db'
      ]
    ]

-- `connect`: at most three attempts.
unfoldable pub connect :
    (ℕ → Chance) → Option ℕ → ConnectRequest → Database → Result ConnectResponse × Database
unfolding connect_within
connect chance default_cluster request db = connect_within 2 chance 1 default_cluster request db
