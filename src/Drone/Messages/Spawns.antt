-- ===== src/Drone/Messages/Spawns.antt =====
-- What becomes of a spawn action on a drone (`handle_message` of plane/src/drone/mod.rs).
use plane.Prelude.{==_refl, Bool, Option, ltb, none, refl, some, ℕ, ◌≡◌}
use plane.Prelude.Table
use plane.Prelude.Table.{get-insert}
use plane.BackendState.{BackendState}
use plane.Protocol.{AcquiredKey, BackendAction}
use plane.Drone.KeyManager.{register_key}
use plane.Drone.BackendManager
use plane.Drone.Executor.{apply_action, accept}
use plane.Drone.Messages.{Drone, action, handle_message}

-- A spawn for a backend whose key is not registered is applied and acked, also where its soft
-- deadline has passed and the handler has warned that it ignores it: the manager of the backend
-- is in the table.
pub spawn_applied :
    (clock : ℕ → ℕ) (runtime_ok : Bool) (now action_id b executable : ℕ) (key : AcquiredKey)
    (static_token : Option ℕ) (d : Drone)
    → Table.get b d.keys.handles ≡ none
    → let (d', reply) =
        handle_message clock runtime_ok now
          (action action_id b (BackendAction.spawn executable key static_token))
          d in
      (reply.acked ≡ some action_id)
      × (reply.warned ≡ ltb key.deadlines.soft_terminate_at now)
      × (Table.get b d'.executor.backends
          ≡ some (BackendManager.new accept BackendState.scheduled).0)
unfolding handle_message register_key apply_action
spawn_applied clock runtime_ok now action_id b executable key static_token d absent =
    rw absent (refl, refl, (rw get-insert (rw ==_refl refl)))
