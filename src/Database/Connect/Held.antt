-- ===== src/Database/Connect/Held.antt =====
-- `connect` of plane/src/database/connect.rs for a key that a live backend holds.
use plane.Prelude.{
  Bool, Bool-cases, Option, arith, false, find, inl, inr, lt→ltb, none, not, refl, some, true, ℕ,
  ◌&&◌, ◌<◌, ◌==◌, ◌≡◌, ◌≢◌, ◌⊎◌, ==_refl,
}
use plane.Prelude.Rows.{any_where}
use plane.Protocol.{KeyConfig}
use plane.Database.{BackendRow, Database, KeyRow, TokenRow}
use plane.Database.Keys.{BackendKeyResult, check_key, is_key, is_live}
use plane.Database.Connect.{
  Chance, Result, ok, err, ConnectRequest, ConnectResponse, key_held, database_error, retryable,
}
use plane.Database.Connect.Attempt.{
  create_token, respond, connect_held, connect_checked, connect_key, connect, connect_within,
  attempt_connect,
}

abbrev pub has_token : ℕ → Database → Bool
has_token token db = any_where (λ (t : TokenRow). t.token == token) db.token

abbrev has_backend : ℕ → Database → Bool
has_backend b db = any_where (λ (row : BackendRow). row.id == b) db.backend

-- The token opens the backend.
abbrev opens : ℕ → ℕ → Database → Bool
opens token b db = any_where (λ (t : TokenRow). t.token == token && t.backend_id == b) db.token

-- The token of an answer for the backend `b`: its static token, or one that was made for it; `mid`
-- is the database before that.
abbrev HasAccess : Option ℕ → ℕ → Database → Database → ConnectResponse → Database → Type 0
HasAccess static_token b db mid response db' =
    ((static_token ≡ some response.token) × (db' ≡ db))
    ⊎ ((static_token ≡ none)
        × (has_token response.token mid ≡ false)
        × (opens response.token b db' ≡ true)
        × (db' ≡ record mid { token = db'.token }))

-- No token could be made.
abbrev IsRefused : ℕ → ℕ → Database → Type 0
IsRefused token b mid = (has_token token mid ≡ true) ⊎ (has_backend b mid ≡ false)

-- How a request may end for the key that `k` holds with the backend `row`.
abbrev pub Held :
    Chance → KeyConfig → KeyRow → BackendRow → Database → Result ConnectResponse × Database → Type 0
Held c key k row db (ok response, db') =
    (k.tag ≡ key.tag)
    × (response.backend_id ≡ k.id)
    × (response.spawned ≡ false)
    × (response.cluster ≡ row.cluster)
    × (response.status ≡ row.last_status)
    × HasAccess row.static_token k.id db (c.before_token db) response db'
Held c key k row db (err e, db') =
    ((k.tag ≢ key.tag) × (e ≡ key_held key.tag k.tag) × (db' ≡ db))
    ⊎ ((k.tag ≡ key.tag)
        × (row.static_token ≡ none)
        × (e ≡ database_error)
        × (db' ≡ c.before_token db)
        × IsRefused c.random_token k.id (c.before_token db))

module _ (c : Chance) (request : ConnectRequest) (key : KeyConfig) (k : KeyRow) (row : BackendRow)
    (db : Database) where
  abbrev holder : BackendKeyResult
  holder = record {
    id = k.id;
    tag = k.tag;
    token = k.fencing_token;
    key = k.key_name;
    status = row.last_status;
    cluster = row.cluster;
    subdomain = row.subdomain;
    static_connection_token = row.static_token;
    expires_at = k.expires_at;
    as_of = c.check_at;
  }

  responded :
      k.tag ≡ key.tag
      → (o : Option ℕ) → row.static_token ≡ o
      → Held c key k row db (
          respond c request o
            (λ token secret. record {
              backend_id = k.id;
              cluster = row.cluster;
              spawned = false;
              status = row.last_status;
              token = token;
              secret_token = secret;
              subdomain = row.subdomain;
              drone = none;
            })
            k.id
            db)
  unfolding respond any_where
  responded same (some token) e = (same, refl, refl, refl, refl, inl (e, refl))
  responded same none e = elim (Bool-cases (has_token c.random_token (c.before_token db))) [
    | inl taken ↦ unfold create_token in rw taken (inr (same, e, refl, refl, inl taken))
    | inr free ↦ elim (Bool-cases (has_backend k.id (c.before_token db))) [
      | inl there ↦
          unfold create_token in
          rw (free, there)
            (
              same,
              refl,
              refl,
              refl,
              refl,
              inr (e, free, ground (arith, ==_refl c.random_token, ==_refl k.id), refl),
            )
      | inr gone ↦ unfold create_token in rw (free, gone) (inr (same, e, refl, refl, inr gone))
    ]
  ]

  held : Held c key k row db (connect_held c key request holder db)
  unfolding connect_held
  held = elim (Bool-cases (not (k.tag == key.tag))) [
    | inl other ↦ rw other (inl (ground arith, refl, refl))
    | inr same ↦ rw same (responded (ground arith) row.static_token refl)
  ]

  checked :
      find (is_key key) db.backend_key ≡ some k
      → find (λ (r : BackendRow). r.id == k.id) db.backend ≡ some row
      → check_key c.check_at key db ≡ some (some holder)
  unfolding check_key
  checked found backs = rw (found, check_key) (rw backs refl)

  attempt-Held :
      (default_cluster : Option ℕ)
      → request.key ≡ some key
      → check_key c.check_at key db ≡ some (some holder)
      → c.check_at < k.expires_at
      → Held c key k row db (attempt_connect c default_cluster request db)
  unfolding attempt_connect connect_key connect_checked is_live
  attempt-Held default_cluster asks found live =
      rw asks (rw (found, connect_checked) (rw (lt→ltb c.check_at k.expires_at live) held))

  -- No way in which the attempt may end is tried again.
  not_again :
      (r : Result ConnectResponse × Database) (again : Database → Result ConnectResponse × Database)
      → Held c key k row db r
      → Held c key k row db (elim r.0 [
        | ok response ↦ (ok response, r.1)
        | err e ↦ elim (retryable e) [ false ↦ (err e, r.1) | true ↦ again r.1 ]
      ])
  unfolding retryable
  not_again (ok response, db') again h = h
  not_again (err e, db') again (inl (other, is_held, same)) =
      rw is_held (inl (other, is_held, same))
  not_again (err e, db') again (inr (same, no_token, is_error, kept, refused)) =
      rw is_error (inr (same, no_token, is_error, kept, refused))

-- A request for a key with a live lease is answered after one attempt, and the key is not taken:
-- with the tag of the key the client is given the backend that holds it, with its static token or
-- with a new token that opens it, and nothing else changes; with another tag it is refused and
-- nothing changes. Only a token that exists already, or a backend that another controller has
-- removed meanwhile, is a database error, and then nothing changes either.
pub connect_live :
    (chance : ℕ → Chance) (default_cluster : Option ℕ) (request : ConnectRequest) (key : KeyConfig)
    (k : KeyRow) (row : BackendRow) (db : Database)
    → request.key ≡ some key
    → find (is_key key) db.backend_key ≡ some k
    → find (λ (r : BackendRow). r.id == k.id) db.backend ≡ some row
    → (chance 1).check_at < k.expires_at
    → Held (chance 1) key k row db (connect chance default_cluster request db)
unfolding connect connect_within
connect_live chance default_cluster request key k row db asks found backs live =
    not_again (chance 1) request key k row db
      (attempt_connect (chance 1) default_cluster request db)
      (connect_within 1 chance 2 default_cluster request)
      (attempt-Held (chance 1) request key k row db default_cluster asks
        (checked (chance 1) request key k row db found backs) live)
