-- ===== src/Controller/DroneSocket/Directed.antt =====
-- Every action is for the drone of its backend: `create_backend_with_key` of
-- plane/src/database/connect.rs, `sweep_loop` of plane/src/controller/drone.rs and `terminate` of
-- terminate.rs, the three that create actions, and the operations that change the rows.
mod Running
use plane.Controller.DroneSocket.Directed.Running.{
  all_rows, candidates_run, found_runs, or_later, runs_on, same_actions, same_rows,
}
use plane.Prelude.{
  All, All-append, All-map, Bool, Bool-cases, List, Option, [], ==_refl, arith, false, filterb,
  find, if◌then◌else◌, inl, inr, none, refl, some, true, ℕ, ◌&&◌, ◌||◌, ◌==◌, ◌∷◌, ◌≡◌, ap, ◌∙◌,
}
use plane.Prelude.Rows.{any_where, update_where}
use plane.BackendState.{BackendState, as_int, status}
use plane.Protocol.{BackendAction, KeyConfig}
use plane.Database.{ActionRow, BackendRow, Database}
use plane.Database.Actions.{ack_pending_action, create_pending_action, is_action, new_action}
use plane.Database.Backend.{
  accepts, backend, emit_state_change, is_candidate, termination_candidates, update_keepalive,
  update_state,
}
use plane.Database.Connect.{
  Chance, DroneForSpawn, SpawnConfig, create_backend_with_key, or_random, new_key_row,
  violates_uniqueness,
}
use plane.Controller.DroneSocket.{sweep, sweep_all, swept_action, terminate, terminate_row}

abbrev pub IsDirected : Database → Type 0
IsDirected db =
    All (λ (a : ActionRow). runs_on a.backend_id a.drone_id db.backend ≡ true) db.backend_action

-- What happens to the tables.
pub data Change : Type 0 where
  creates :
      (c : Chance) (key : KeyConfig) (config : SpawnConfig) (cluster : ℕ) (drone : DroneForSpawn)
      (static_token : Option ℕ)
      → Change
  sweeps : (now : ℕ) (action_id : ℕ → ℕ) (drone : ℕ) → Change
  terminates : (now action_id b : ℕ) (is_hard : Bool) → Change
  updates : (now b : ℕ) (state : BackendState) → Change
  keeps_alive : (now b : ℕ) → Change
  acks : (now id drone : ℕ) → Change

abbrev terminated_or : Database → Option Database → Database
terminated_or db none = db
terminated_or db (some db') = db'

abbrev pub change : Change → Database → Database
change (creates c key config cluster drone static_token) db =
    (create_backend_with_key c key config cluster drone static_token db).1
change (sweeps now action_id drone) db = sweep now action_id drone db
change (terminates now action_id b is_hard) db =
    terminated_or db (terminate now action_id b is_hard db)
change (updates now b state) db = (update_state now b state db).1
change (keeps_alive now b) db = (update_keepalive now b db).1
change (acks now id drone) db = ack_pending_action now id drone db

abbrev pub changes : List Change → Database → Database
changes [] db = db
changes (c ∷ cs) db = changes cs (change c db)

-- A new action for a drone that has its backend.
create-IsDirected :
    (now id b drone : ℕ) (action : BackendAction) (db : Database)
    → runs_on b drone db.backend ≡ true
    → IsDirected db
    → IsDirected (create_pending_action now id b drone action db).1
unfolding create_pending_action
create-IsDirected now id b drone action db h d =
    All-append _ db.backend_action (new_action now id b drone action ∷ []) d (h, tt)

sweep_all-IsDirected :
    (now : ℕ) (action_id : ℕ → ℕ) (drone : ℕ) (rows : List BackendRow) (db : Database)
    → All (λ (row : BackendRow). runs_on row.id drone db.backend ≡ true) rows
    → IsDirected db
    → IsDirected (sweep_all now action_id drone rows db)
unfolding sweep_all create_pending_action
sweep_all-IsDirected now action_id drone [] db h d = d
sweep_all-IsDirected now action_id drone (row ∷ rows) db (h, hs) d =
    sweep_all-IsDirected now action_id drone rows _ hs
      (create-IsDirected now (action_id row.id) row.id drone swept_action db h d)

terminate-IsDirected :
    (now action_id b : ℕ) (is_hard : Bool) (db : Database)
    → IsDirected db
    → IsDirected (terminated_or db (terminate now action_id b is_hard db))
unfolding terminate backend
terminate-IsDirected now action_id b is_hard db d =
    go (find (λ (row : BackendRow). row.id == b) db.backend) refl
  where
    go :
        (o : Option BackendRow)
        → find (λ (row : BackendRow). row.id == b) db.backend ≡ o
        → IsDirected (terminated_or db (terminate_row now action_id b is_hard o db))
    go none e = d
    go (some row) e =
        create-IsDirected now action_id b row.drone_id _ db (found_runs b db.backend row e) d

create_backend-IsDirected :
    (c : Chance) (key : KeyConfig) (config : SpawnConfig) (cluster : ℕ) (drone : DroneForSpawn)
    (static_token : Option ℕ) (db : Database)
    → IsDirected db
    → IsDirected (create_backend_with_key c key config cluster drone static_token db).1
unfolding create_backend_with_key emit_state_change any_where
create_backend-IsDirected c key config cluster drone static_token db d =
    elim (Bool-cases (violates_uniqueness b (new_key_row c.create_at b key) db)) [
      | inl violated ↦ rw violated d
      | inr free ↦ rw free (
          All-append _ db.backend_action (_ ∷ [])
            (All-map _ _
              (λ (a : ActionRow) h. or_later _ (runs_on a.backend_id a.drone_id db.backend) h)
              db.backend_action d)
            (ground (arith, ==_refl b, ==_refl drone.id), tt))
    ]
  where
    b : ℕ
    b = or_random config.id c.random_backend

update_state-IsDirected :
    (now b : ℕ) (state : BackendState) (db : Database)
    → IsDirected db
    → IsDirected (update_state now b state db).1
unfolding update_state emit_state_change
update_state-IsDirected now b state db d =
    elim (Bool-cases (any_where (accepts b (as_int (status state))) db.backend)) [
      | inl taken ↦ rw taken (same_rows _ _ db.backend db.backend_action (λ row. (refl, refl)) d)
      | inr late ↦ rw late d
    ]

change-IsDirected : (c : Change) (db : Database) → IsDirected db → IsDirected (change c db)
unfolding sweep termination_candidates update_keepalive ack_pending_action
change-IsDirected (creates c key config cluster drone static_token) db d =
    create_backend-IsDirected c key config cluster drone static_token db d
change-IsDirected (sweeps now action_id drone) db d =
    sweep_all-IsDirected now action_id drone _ db
      (candidates_run now drone db.backend db.backend (all_rows db.backend)) d
change-IsDirected (terminates now action_id b is_hard) db d =
    terminate-IsDirected now action_id b is_hard db d
change-IsDirected (updates now b state) db d = update_state-IsDirected now b state db d
change-IsDirected (keeps_alive now b) db d =
    same_rows _ _ db.backend db.backend_action (λ row. (refl, refl)) d
change-IsDirected (acks now id drone) db d =
    same_actions db.backend (is_action id drone) (λ row. record row { acked_at = some now })
      db.backend_action (λ a. (refl, refl)) d

-- After any creations of backends, sweeps, terminations, updates of states, keepalives and
-- acknowledgements, every action is for the drone that its backend was created on, if that was so
-- before.
pub changes-IsDirected :
    (cs : List Change) (db : Database) → IsDirected db → IsDirected (changes cs db)
changes-IsDirected [] db d = d
changes-IsDirected (c ∷ cs) db d = changes-IsDirected cs (change c db) (change-IsDirected c db d)
