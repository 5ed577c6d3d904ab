-- ===== src/Tests/Streams.antt =====
-- A client that watches a backend's status (plane/src/database/backend.rs,
-- plane/src/controller/backend_state.rs).
use plane.Prelude.{filterb, [], arith, map, none, refl, some, ℕ, ◌∷◌, ◌≡◌}
use plane.BackendState.{BackendState, BackendStatus, status, as_int, ordinal}
use plane.Database.{Database, BackendRow}
use plane.Database.Backend.{update_state}
use plane.Database.Backend.Stream.{StateNotice, status_stream}
use plane.Database.Backend.Stream.Complete.{Ascending, entry_of, row_of}
use plane.Database.Backend.Stream.Ascending.{
  IsLogged, status_stream-IsLogged, update_state-IsLogged,
}
use plane.Controller.StatusStream.{handle_backend_status_stream}
use plane.Controller.StatusStream.Resume.{handle_backend_status_stream_resumes}

abbrev pub backend_row : BackendRow
backend_row = record {
  id = 50;
  cluster = 1;
  last_status = BackendStatus.starting;
  last_status_time = 103;
  last_status_number = some 30;
  cluster_address = none;
  drone_id = 7;
  expiration_time = none;
  allowed_idle_seconds = none;
  last_keepalive = 100;
  state = BackendState.starting;
  static_token = none;
  subdomain = none;
}

abbrev notice : ℕ → BackendState → StateNotice
notice t s = record { timestamp = t; payload = s }

-- The backend's states, between those of another.
abbrev pub database : Database
database = record {
  backend = backend_row ∷ [];
  backend_key = [];
  token = [];
  backend_state =
      (50, BackendState.scheduled)
      ∷ (51, BackendState.scheduled)
      ∷ (50, BackendState.loading)
      ∷ (50, BackendState.starting)
      ∷ [];
  backend_action = [];
  emitted = [];
}

is_logged : IsLogged 50 database
unfolding as_int status filterb
is_logged = record {
  ascends = ((omega arith, (omega arith, tt)), ((omega arith, tt), (tt, tt)));
  covered = ((λ h. (omega arith, (omega arith, (omega arith, tt)))), tt);
}

status_stream-IsLogged_example :
    status_stream
      (map row_of (notice 101 BackendState.scheduled ∷ notice 102 BackendState.loading ∷ []))
      (notice 102 BackendState.loading ∷ notice 103 BackendState.starting ∷ [])
    ≡ map entry_of (
        notice 101 BackendState.scheduled
        ∷ notice 102 BackendState.loading
        ∷ notice 103 BackendState.starting
        ∷ [])
unfolding filterb
status_stream-IsLogged_example =
    status_stream-IsLogged 50 database (notice 101 BackendState.scheduled ∷ [])
      (notice 102 BackendState.loading ∷ []) (notice 103 BackendState.starting ∷ []) is_logged refl

update_state-IsLogged_example : IsLogged 50 (update_state 104 50 (BackendState.ready 11) database).1
update_state-IsLogged_example =
    update_state-IsLogged 104 50 50 (BackendState.ready 11) database is_logged

ascending : Ascending (
    notice 101 BackendState.scheduled
    ∷ notice 102 BackendState.loading
    ∷ notice 103 BackendState.starting
    ∷ [])
unfolding ordinal status
ascending = ((omega arith, (omega arith, tt)), ((omega arith, tt), (tt, tt)))

handle_backend_status_stream_resumes_example :
    handle_backend_status_stream (some (status BackendState.loading)) (
      status_stream
        (map row_of (notice 101 BackendState.scheduled ∷ notice 102 BackendState.loading ∷ []))
        (notice 103 BackendState.starting ∷ []))
    ≡ map entry_of (notice 103 BackendState.starting ∷ [])
handle_backend_status_stream_resumes_example =
    handle_backend_status_stream_resumes
      (notice 101 BackendState.scheduled ∷ notice 102 BackendState.loading ∷ []) []
      (notice 103 BackendState.starting ∷ []) (notice 101 BackendState.scheduled ∷ [])
      (notice 103 BackendState.starting ∷ []) (notice 102 BackendState.loading) ascending refl
