-- ===== src/Database/Keys.antt =====
-- plane/src/database/backend_key.rs: the lease that a backend holds on its key.
pub mod Unique
pub mod Lease
use plane.Prelude.{
  Bool, Option, false, find, if◌then◌else◌, ltb, none, some, ℕ, ◌&&◌, ◌*◌, ◌+◌, ◌==◌,
}
use plane.Prelude.Rows.{any_where, delete_where, update_where}
use plane.BackendState.{BackendStatus}
use plane.Protocol.{second, KeyConfig, KeyDeadlines}
use plane.Database.{BackendRow, Database, KeyRow}

abbrev pub key_lease_renew_after : ℕ
key_lease_renew_after = 30 * second

abbrev pub key_lease_soft_terminate_after : ℕ
key_lease_soft_terminate_after = 40 * second

abbrev pub key_lease_hard_terminate_after : ℕ
key_lease_hard_terminate_after = 50 * second

abbrev pub key_lease_expiration : ℕ
key_lease_expiration = 60 * second

abbrev renewable : ℕ → KeyRow → Bool
renewable b k = k.id == b && k.allow_renew

unfoldable pub prevent_renew : ℕ → Database → Bool × Database
unfolding update_where any_where
prevent_renew b db = (
  any_where (renewable b) db.backend_key,
  record db {
    backend_key = update_where (renewable b) (λ k. record k { allow_renew = false }) db.backend_key;
  },
)

abbrev pub expired : ℕ → ℕ → KeyRow → Bool
expired now b k = k.id == b && ltb k.expires_at now

-- The key is removed if it is still expired.
unfoldable pub remove_key : ℕ → ℕ → Database → Bool × Database
unfolding delete_where any_where
remove_key now b db = (
  any_where (expired now b) db.backend_key,
  record db { backend_key = delete_where (expired now b) db.backend_key },
)

-- `false` is the error `RowNotFound`.
unfoldable pub renew_key : ℕ → ℕ → Database → Bool × Database
unfolding update_where any_where
renew_key now b db = (
  any_where (renewable b) db.backend_key,
  record db {
    backend_key =
        update_where (renewable b) (λ k. record k { expires_at = now + key_lease_expiration })
          db.backend_key;
  },
)

pub record BackendKeyResult : Type 0 where
  pub id : ℕ
  pub tag : ℕ
  pub token : ℕ
  pub key : ℕ
  pub status : BackendStatus
  pub cluster : ℕ
  pub subdomain : Option ℕ
  pub static_connection_token : Option ℕ
  pub expires_at : ℕ
  pub as_of : ℕ

abbrev pub is_key : KeyConfig → KeyRow → Bool
is_key key k = k.key_name == key.name && k.namespace == key.namespace

-- A key that no backend row joins is a decoding error, `some none`.
joined : ℕ → KeyRow → Option BackendRow → Option BackendKeyResult
joined now k none = none
joined now k (some row) = some (record {
  id = k.id;
  tag = k.tag;
  token = k.fencing_token;
  key = k.key_name;
  status = row.last_status;
  cluster = row.cluster;
  subdomain = row.subdomain;
  static_connection_token = row.static_token;
  expires_at = k.expires_at;
  as_of = now;
})

unfoldable pub check_key : ℕ → KeyConfig → Database → Option (Option BackendKeyResult)
unfolding joined find
check_key now key db = elim (find (is_key key) db.backend_key) [
  | none ↦ none
  | some k ↦ some (joined now k (find (λ (row : BackendRow). row.id == k.id) db.backend))
]

unfoldable pub is_live : BackendKeyResult → Bool
is_live r = ltb r.as_of r.expires_at

-- The deadlines that the controller sends with a renewal, in handle_message_from_drone of
-- plane/src/controller/drone.rs.
unfoldable pub renewed_deadlines : ℕ → KeyDeadlines
renewed_deadlines local_time = record {
  renew_at = local_time + key_lease_renew_after;
  soft_terminate_at = local_time + key_lease_soft_terminate_after;
  hard_terminate_at = local_time + key_lease_hard_terminate_after;
}

-- The arm `RenewKey` of `handle_message_from_drone`: the error ends it, and no response is sent.
unfoldable pub handle_renew_key : ℕ → ℕ → ℕ → Database → Option KeyDeadlines × Database
unfolding renew_key renewed_deadlines
handle_renew_key now b local_time db =
    let (renewed, db') = renew_key now b db in
    (if renewed then some (renewed_deadlines local_time) else none, db')
