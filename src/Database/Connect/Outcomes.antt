-- ===== src/Database/Connect/Outcomes.antt =====
-- What `connect` of plane/src/database/connect.rs guarantees of a key with a live lease.
pub mod Steps
use plane.Database.Connect.Outcomes.Steps.{HoldsAlone, create_held, remove_held}
use plane.Prelude.{
  List, [], ◌∷◌, ◌&&◌, ◌≤◌, ◌∙◌, ap, sym, filterb, if◌then◌else◌, refl, Bool-cases, Option, arith,
  false, inl, inr, ℕ, ◌≡◌, Bool, none, not, some, ◌==◌, ◌||◌, suc, true, zero, ◌+◌,
}
use plane.Prelude.Rows.{any-filterb, any_where, delete_where}
use plane.Protocol.{KeyConfig}
use plane.Database.{Database, KeyRow}
use plane.Database.Backend.{emit_state_change}
use plane.Database.Keys.{BackendKeyResult, check_key, expired, is_live, remove_key}
use plane.Database.Keys.Unique.{clash}
use plane.Database.Connect.{
  Chance, Result, ok, err, SpawnConfig, ConnectRequest, ConnectResponse, DroneForSpawn,
  create_backend_with_key, violates_uniqueness, or_random, retryable, new_key_row,
}
use plane.Database.Connect.Attempt.{
  create_token, respond, respond_created, spawn_on, spawn_in, spawn_for, connect_held,
  connect_expired, connect_checked, connect_key, attempt_connect, connect_within, connect,
}

-- The key has not expired when the attempt would remove it, and other controllers leave it.
pub record IsFair (k : KeyRow) (c : Chance) : Type 0 where
  pub live : c.remove_at ≤ k.expires_at
  pub remove : (db : Database) → HoldsAlone k db → HoldsAlone k (c.before_remove db)
  pub create : (db : Database) → HoldsAlone k db → HoldsAlone k (c.before_create db)
  pub token : (db : Database) → HoldsAlone k db → HoldsAlone k (c.before_token db)

-- What an attempt leaves in the table of keys.
abbrev Keeps : KeyRow → Result ConnectResponse × Database → Type 0
Keeps k (r, db) = HoldsAlone k db

keys-create_token :
    (c : Chance) (b : ℕ) (request : ConnectRequest) (db : Database)
    → (create_token c b request db).1.backend_key ≡ db.backend_key
unfolding create_token
keys-create_token c b request db = ground arith

module _ (k : KeyRow) (c : Chance) (fair : IsFair k c) (request : ConnectRequest) where
  respond_held :
      (static_token : Option ℕ) (response : ℕ → Option ℕ → ConnectResponse) (b : ℕ) (db : Database)
      → HoldsAlone k db
      → Keeps k (respond c request static_token response b db)
  unfolding respond
  respond_held (some token) response b db u = u
  respond_held none response b db u =
      rw (keys-create_token c b request (c.before_token db)) (fair.token db u)

  respond_created_held :
      (config : SpawnConfig) (cluster : ℕ) (drone : DroneForSpawn) (static_token : Option ℕ)
      (r : Result ℕ × Database)
      → HoldsAlone k r.1
      → Keeps k (respond_created c request config cluster drone static_token r)
  unfolding respond_created
  respond_created_held config cluster drone static_token (err e, db) u = u
  respond_created_held config cluster drone static_token (ok b, db) u =
      respond_held static_token _ b db u

  spawn_on_held :
      (key : KeyConfig) (config : SpawnConfig) (cluster : ℕ) (o : Option DroneForSpawn)
      (db : Database)
      → HoldsAlone k db
      → Keeps k (spawn_on c key request config cluster o db)
  unfolding spawn_on
  spawn_on_held key config cluster none db u = u
  spawn_on_held key config cluster (some drone) db u =
      respond_created_held config cluster drone _ _
        (create_held k c key config cluster drone _ (c.before_create db) (fair.create db u))

  spawn_in_held :
      (key : KeyConfig) (config : SpawnConfig) (o : Option ℕ) (db : Database)
      → HoldsAlone k db
      → Keeps k (spawn_in c key request config o db)
  unfolding spawn_in
  spawn_in_held key config none db u = u
  spawn_in_held key config (some cluster) db u = spawn_on_held key config cluster _ db u

  spawn_for_held :
      (default_cluster : Option ℕ) (key : KeyConfig) (o : Option SpawnConfig) (db : Database)
      → HoldsAlone k db
      → Keeps k (spawn_for c default_cluster key request o db)
  unfolding spawn_for
  spawn_for_held default_cluster key none db u = u
  spawn_for_held default_cluster key (some config) db u = spawn_in_held key config _ db u

  connect_live_held :
      (key : KeyConfig) (r : BackendKeyResult) (db : Database)
      → HoldsAlone k db
      → Keeps k (connect_held c key request r db)
  unfolding connect_held
  connect_live_held key r db u = elim (Bool-cases (not (r.tag == key.tag))) [
    | inl other ↦ rw other u
    | inr same ↦ rw same (respond_held r.static_connection_token _ r.id db u)
  ]

  connect_expired_held :
      (default_cluster : Option ℕ) (key : KeyConfig) (r : BackendKeyResult) (db : Database)
      → HoldsAlone k db
      → Keeps k (connect_expired c default_cluster key request r db)
  unfolding connect_expired
  connect_expired_held default_cluster key r db u =
      elim (Bool-cases (remove_key c.remove_at r.id (c.before_remove db)).0) [
        | inl removed ↦ rw removed (spawn_for_held default_cluster key request.spawn_config _ after)
        | inr kept ↦ rw kept after
      ]
    where
      after : HoldsAlone k (remove_key c.remove_at r.id (c.before_remove db)).1
      after = remove_held k c.remove_at r.id (c.before_remove db) fair.live (fair.remove db u)

  connect_key_held :
      (default_cluster : Option ℕ) (o : Option KeyConfig) (db : Database)
      → HoldsAlone k db
      → Keeps k (connect_key c default_cluster request o db)
  unfolding connect_key connect_checked
  connect_key_held default_cluster none db u =
      spawn_for_held default_cluster _ request.spawn_config db u
  connect_key_held default_cluster (some key) db u = checked (check_key c.check_at key db)
    where
      checked :
          (o : Option (Option BackendKeyResult))
          → Keeps k (connect_checked c default_cluster key request o db)
      checked none = spawn_for_held default_cluster key request.spawn_config db u
      checked (some none) = u
      checked (some (some r)) = elim (Bool-cases (is_live r)) [
        | inl live ↦ rw live (connect_live_held key r db u)
        | inr expired ↦ rw expired (connect_expired_held default_cluster key r db u)
      ]

connect_within_held :
    (k : KeyRow) (left : ℕ) (chance : ℕ → Chance) (attempt : ℕ) (default_cluster : Option ℕ)
    (request : ConnectRequest) (db : Database)
    → ((n : ℕ) → IsFair k (chance n))
    → HoldsAlone k db
    → Keeps k (connect_within left chance attempt default_cluster request db)
unfolding connect_within attempt_connect
connect_within_held k zero chance attempt default_cluster request db fair u =
    connect_key_held k (chance attempt) (fair attempt) request default_cluster request.key db u
connect_within_held k (suc left) chance attempt default_cluster request db fair u =
    next (attempt_connect (chance attempt) default_cluster request db)
      (connect_key_held k (chance attempt) (fair attempt) request default_cluster request.key db u)
      (λ db'. connect_within_held k left chance (attempt + 1) default_cluster request db' fair)
  where
    next :
        (r : Result ConnectResponse × Database)
        → Keeps k r
        → ((db' : Database)
            → HoldsAlone k db'
            → Keeps k (connect_within left chance (attempt + 1) default_cluster request db'))
        → Keeps k (elim r.0 [
          | ok response ↦ (ok response, r.1)
          | err e ↦ elim (retryable e) [
            | false ↦ (err e, r.1)
            | true ↦ connect_within left chance (attempt + 1) default_cluster request r.1
          ]
        ])
    next (ok response, db') h ih = h
    next (err e, db') h ih = again (retryable e)
      where
        again :
            (b : Bool)
            → Keeps k (elim b [
              | false ↦ (err e, db')
              | true ↦ connect_within left chance (attempt + 1) default_cluster request db'
            ])
        again false = h
        again true = ih db' h

-- However `connect` ends, with an answer or an error, after one attempt or three, and whatever key
-- it asks for: a backend that holds a key alone still does, if its lease has not expired at any
-- attempt and if the other controllers leave it in between.
pub connect_keeps_live :
    (k : KeyRow) (chance : ℕ → Chance) (default_cluster : Option ℕ) (request : ConnectRequest)
    (db : Database)
    → ((n : ℕ) → IsFair k (chance n))
    → HoldsAlone k db
    → HoldsAlone k (connect chance default_cluster request db).1
unfolding connect
connect_keeps_live k chance default_cluster request db fair u =
    connect_within_held k 2 chance 1 default_cluster request db fair u
