-- ===== src/Controller/DroneSocket/Sweeping.antt =====
-- Backends that are idle or expired are told to terminate (`sweep_loop` of
-- plane/src/controller/drone.rs).
pub mod Overdue
use plane.Prelude.{
  Bool, false, true, ℕ, ◌&&◌, ◌==◌, List, [], ap, arith, refl, ◌++◌, ◌||◌, ◌∙◌, ◌∷◌, ◌≡◌, Option,
  none, some, ◌<◌, ◌+◌, ◌*◌, ◌⊎◌, inl, inr, ◌↔◌, ◌≢◌, filterb, Bool-cases, sym, ==_iff, not,
}
use mathlib.Core.List.{Memᴰ}
use mathlib.Core.List.Memᴰ
use plane.Prelude.Rows.{any-filterb, any_where}
use plane.Protocol.{second, BackendAction}
use plane.BackendState.{BackendStatus, soft, swept}
use plane.Database.{ActionRow}
use plane.Database.Actions.{is_pending, create_pending_action, new_action}
use plane.Database.Backend.{
  idle_too_long, is_candidate, is_scheduled_status, is_terminated_status, past,
  termination_candidates,
}
use plane.Controller.DroneSocket.Sweeping.Overdue.{IsOverdue, candidate_iff, or_iff}
use plane.Controller.DroneSocket.{sweep, sweep_all, swept_action, BackendRow, Database}

-- The action is the soft termination of a sweep.
abbrev is_sweep : BackendAction → Bool
is_sweep (BackendAction.terminate soft swept) = true
is_sweep _ = false

-- The action waits for the drone and tells it to terminate the backend softly, because of a sweep.
abbrev pub told : ℕ → ℕ → ActionRow → Bool
told drone b row = is_pending drone row && (row.backend_id == b && is_sweep row.action)

created_rows :
    (drone b : ℕ) (a : ActionRow) (rows : List ActionRow)
    → any_where (told drone b) (rows ++ a ∷ []) ≡ (told drone b a || any_where (told drone b) rows)
unfolding any_where
created_rows drone b a [] = refl
created_rows drone b a (row ∷ rows) = ground (arith, created_rows drone b a rows)

created :
    (now id drone b : ℕ) (r : BackendRow) (db : Database)
    → any_where
        (told drone b)
        (create_pending_action now id r.id drone swept_action db).1.backend_action
      ≡ (r.id == b || any_where (told drone b) db.backend_action)
unfolding create_pending_action
created now id drone b r db =
    created_rows drone b (new_action now id r.id drone swept_action) db.backend_action
    ∙ ap (λ x. x || any_where (told drone b) db.backend_action) (ground arith)

sweep_all_lem :
    (now : ℕ) (action_id : ℕ → ℕ) (drone b : ℕ) (rows : List BackendRow) (db : Database)
    → any_where (told drone b) (sweep_all now action_id drone rows db).backend_action ≡ (
        any_where (λ (row : BackendRow). row.id == b) rows
        || any_where (told drone b) db.backend_action)
unfolding sweep_all any_where
sweep_all_lem now action_id drone b [] db = refl
sweep_all_lem now action_id drone b (row ∷ rows) db =
    sweep_all_lem now action_id drone b rows _
    ∙ ap (λ x. any_where (λ (r : BackendRow). r.id == b) rows || x)
        (created now (action_id row.id) drone b row db)
    ∙ swap (any_where (λ (r : BackendRow). r.id == b) rows) (row.id == b)
        (any_where (told drone b) db.backend_action)
  where
    swap : (x y z : Bool) → (x || (y || z)) ≡ ((y || x) || z)
    swap x y z = ground arith

-- After a round of the sweep a drone is told to terminate a backend softly just if the backend is
-- one of its own, was started and has not terminated, and has been idle for longer than it may be
-- since its last keepalive or has expired; or if the drone was told so before.
pub sweep_tells :
    (now : ℕ) (action_id : ℕ → ℕ) (drone b : ℕ) (db : Database)
    → (any_where (told drone b) (sweep now action_id drone db).backend_action ≡ true) ↔ (
        ((row : BackendRow) × Memᴰ row db.backend × (row.id ≡ b) × IsOverdue now drone row)
        ⊎ (any_where (told drone b) db.backend_action ≡ true))
unfolding sweep
sweep_tells now action_id drone b db = (told_why, tells)
  where
    is_candidate_now : Bool
    is_candidate_now =
        any_where (λ (row : BackendRow). row.id == b) (termination_candidates now drone db)

    was_told : Bool
    was_told = any_where (told drone b) db.backend_action

    after : Bool
    after =
        any_where (told drone b)
          (sweep_all now action_id drone (termination_candidates now drone db) db).backend_action

    parts : after ≡ (is_candidate_now || was_told)
    parts = sweep_all_lem now action_id drone b (termination_candidates now drone db) db

    told_why :
        after ≡ true
        → ((row : BackendRow) × Memᴰ row db.backend × (row.id ≡ b) × IsOverdue now drone row)
          ⊎ (was_told ≡ true)
    told_why h = elim ((or_iff is_candidate_now was_told).0 (sym parts ∙ h)) [
      | inl e ↦ inl ((candidate_iff now drone b db).0 e)
      | inr e ↦ inr e
    ]

    tells :
        (((row : BackendRow) × Memᴰ row db.backend × (row.id ≡ b) × IsOverdue now drone row)
          ⊎ (was_told ≡ true))
        → after ≡ true
    tells (inl due) =
        parts ∙ (or_iff is_candidate_now was_told).1 (inl ((candidate_iff now drone b db).1 due))
    tells (inr e) = parts ∙ (or_iff is_candidate_now was_told).1 (inr e)
