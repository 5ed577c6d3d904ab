-- ===== src/Database/Cleanup.antt =====
-- The clean-up of old rows (plane/src/cleanup.rs, with `cleanup` of plane/src/database/backend.rs,
-- `clean_up_tokens` and `revoke` of connect.rs and `clean_up_events` of subscribe.rs). `choose` is the
-- order in which the database finds the rows of a query with a limit and no order.
pub mod Referential
use plane.Prelude.{
  Bool, List, Option, false, filterb, ltb, none, some, take, ℕ, ◌&&◌, ◌*◌, ◌+◌, ◌==◌,
}
use plane.Prelude.Rows.{any_where, delete_where}
use plane.Protocol.{second}
use plane.Database.{ActionRow, BackendRow, Database, KeyRow, TokenRow, BackendState}
use plane.Database.Backend.{is_terminated_status}
use plane.Database.Events.{Event}

abbrev pub day : ℕ
day = 86400 * second

abbrev pub is_old_backend : ℕ → ℕ → BackendRow → Bool
is_old_backend now min_age_days row =
    is_terminated_status row.last_status && ltb (row.last_status_time + min_age_days * day) now

abbrev pub has_row : ℕ → List BackendRow → Bool
has_row b rows = any_where (λ (row : BackendRow). row.id == b) rows

unfoldable pub delete_backends : ℕ → List BackendRow → Database → Database
unfolding delete_where any_where
delete_backends now deleted db = record db {
  token = delete_where (λ (t : TokenRow). has_row t.backend_id deleted) db.token;
  backend_action = delete_where (λ (a : ActionRow). has_row a.backend_id deleted) db.backend_action;
  backend_key =
      delete_where (λ (k : KeyRow). has_row k.id deleted && ltb k.expires_at now) db.backend_key;
  backend_state = delete_where (λ (e : ℕ × BackendState). has_row e.0 deleted) db.backend_state;
  backend = delete_where (λ (row : BackendRow). has_row row.id deleted) db.backend;
}

unfoldable pub clean_up_tokens : ℕ → Database → Database
unfolding delete_where
clean_up_tokens now db = record db {
  token = delete_where (λ (t : TokenRow). ltb t.expiration_time now) db.token;
}

unfoldable pub clean_up_events : ℕ → ℕ → List Event → List Event
unfolding delete_where
clean_up_events now min_age_days events =
    delete_where (λ (e : Event). ltb (e.created_at + min_age_days * day) now) events

abbrev pub default_batch_size : ℕ
default_batch_size = 100

abbrev or_default : Option ℕ → ℕ
or_default none = default_batch_size
or_default (some n) = n

module _ (choose : List BackendRow → List BackendRow) where
  -- The temporary table `deleted_backend`.
  unfoldable pub deleted_backend : ℕ → ℕ → ℕ → Database → List BackendRow
  unfolding filterb
  deleted_backend now min_age_days batch_size db =
      take batch_size (choose (filterb (is_old_backend now min_age_days) db.backend))

  unfoldable pub cleanup : ℕ → ℕ → ℕ → Database → Database
  cleanup now min_age_days batch_size db =
      delete_backends now (deleted_backend now min_age_days batch_size db) db

  unfoldable pub run_cleanup :
      ℕ → Option ℕ → Option ℕ → Database × List Event → Database × List Event
  run_cleanup now none batch_size (db, events) = (clean_up_tokens now db, events)
  run_cleanup now (some min_age_days) batch_size (db, events) = (
    clean_up_tokens now (cleanup now min_age_days (or_default batch_size) db),
    clean_up_events now min_age_days events,
  )

abbrev is_user : ℕ → Option ℕ → Bool
is_user user none = false
is_user user (some u) = u == user

-- `revoke`: the tokens of a user for a backend.
unfoldable revoke : ℕ → ℕ → Database → Database
unfolding delete_where
revoke b user db = record db {
  token = delete_where (λ (t : TokenRow). t.backend_id == b && is_user user t.username) db.token;
}
