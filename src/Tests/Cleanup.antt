-- ===== src/Tests/Cleanup.antt =====
-- Two old backends and a running one, before the clean-up (plane/src/cleanup.rs).
use plane.Prelude.{Bool, List, [], arith, none, refl, some, true, ℕ, ◌*◌, ◌++◌, ◌∷◌, ◌≡◌, ◌∙◌, map}
use plane.Prelude.Rows.{any_where, any_where-append}
use plane.Protocol.{BackendAction}
use plane.BackendState.{BackendStatus, soft, external}
use plane.Database.{ActionRow, BackendRow, Database, KeyRow, TokenRow}
use plane.Database.Cleanup.{
  clean_up_tokens, cleanup, day, delete_backends, deleted_backend, run_cleanup,
}
use plane.Database.Cleanup.Referential.{IsReferential, run_cleanup-IsReferential}
use plane.Tests.Streams.{backend_row, database}

abbrev ended : ℕ → BackendRow
ended b = record backend_row { id = b; last_status = BackendStatus.terminated }

abbrev token : ℕ → ℕ → TokenRow
token t b = record {
  token = t;
  backend_id = b;
  username = none;
  auth = 1;
  secret_token = 1;
  expiration_time = 5 * day;
}

abbrev held_key : ℕ → ℕ → KeyRow
held_key b expires_at = record {
  id = b;
  key_name = b;
  namespace = 1;
  tag = 1;
  expires_at = expires_at;
  fencing_token = 1;
  allow_renew = true;
}

abbrev action : ℕ → ℕ → ActionRow
action id b = record {
  id = id;
  backend_id = b;
  drone_id = 7;
  action = BackendAction.terminate soft external;
  created_at = 100;
  acked_at = none;
}

abbrev old_rows : Database
old_rows = record database {
  backend = ended 51 ∷ backend_row ∷ ended 52 ∷ [];
  backend_key = held_key 50 (4 * day) ∷ held_key 52 day ∷ [];
  token = token 1 50 ∷ token 2 51 ∷ token 3 52 ∷ [];
  backend_action = action 1 52 ∷ action 2 50 ∷ [];
}

-- The database finds the first row last.
unfoldable rotate : List BackendRow → List BackendRow
rotate [] = []
rotate (row ∷ rows) = rows ++ row ∷ []

rotate_same :
    (p : BackendRow → Bool) (rows : List BackendRow) → any_where p (rotate rows) ≡ any_where p rows
unfolding rotate any_where
rotate_same p [] = refl
rotate_same p (row ∷ rows) = any_where-append p rows (row ∷ []) ∙ ground arith

remaining :
    map
      (λ (row : BackendRow). row.id)
      (run_cleanup rotate (3 * day) (some 1) (some 1) (old_rows, [])).0.backend
    ≡ 51 ∷ 50 ∷ []
unfolding run_cleanup clean_up_tokens cleanup delete_backends deleted_backend rotate
remaining = refl

run_cleanup-IsReferential_example :
    IsReferential (run_cleanup rotate (3 * day) (some 1) (some 1) (old_rows, [])).0
unfolding any_where IsReferential
run_cleanup-IsReferential_example =
    run_cleanup-IsReferential rotate rotate_same (3 * day) (some 1) (some 1) old_rows [] refl
      (refl, refl, refl, refl)
