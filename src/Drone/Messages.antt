-- ===== src/Drone/Messages.antt =====
-- `handle_message` of plane/src/drone/mod.rs: what a drone does with the messages of its
-- controller.
pub mod Spawns
use plane.Prelude.{
  Bool, Option, false, if◌then◌else◌, ltb, none, some, ℕ, List, [], length, suc, zero, ◌∷◌,
}
use plane.Prelude.Table
use plane.BackendState.{is_terminated}
use plane.Protocol.{KeyDeadlines, AcquiredKey, BackendAction}
use plane.Drone.KeyManager.{unregister_key, KeyManager, register_key, update_deadlines}
use plane.Drone.KeyManager
use plane.Drone.StateStore
use plane.Drone.StateStore.{BackendStateMessage}
use plane.Drone.Executor.{Executor, apply_action}
use plane.Drone.Executor

pub record Drone : Type 0 where
  pub keys : KeyManager
  pub executor : Executor

pub data MessageToDrone : Type 0 where
  action : (action_id backend_id : ℕ) (action : BackendAction) → MessageToDrone
  ack_event : (event_id : ℕ) → MessageToDrone
  renew_key_response : (backend : ℕ) (deadlines : Option KeyDeadlines) → MessageToDrone

-- What the handler says: the ack that it sends, and whether it warned that a spawn came too late.
pub record Reply : Type 0 where
  pub acked : Option ℕ
  pub warned : Bool

-- The listener of `drone_loop`: the key of a backend that has terminated is unregistered.
unregister_ended : List BackendStateMessage → KeyManager → KeyManager
unfolding unregister_key is_terminated
unregister_ended [] keys = keys
unregister_ended (m ∷ ms) keys =
    unregister_ended ms (if is_terminated m.state then unregister_key m.backend_id keys else keys)

-- The messages that the listener has heard since there were `n`.
abbrev since : ℕ → List BackendStateMessage → List BackendStateMessage
since zero ms = ms
since (suc n) [] = []
since (suc n) (m ∷ ms) = since n ms

unfoldable pub heard : Executor → Executor → KeyManager → KeyManager
unfolding unregister_ended
heard old new keys = unregister_ended (since (length old.store.delivered) new.store.delivered) keys

module _ (clock : ℕ → ℕ) (runtime_ok : Bool) (now : ℕ) where
  -- An action is acked if it was applied.
  apply_and_ack : ℕ → ℕ → BackendAction → Bool → Drone → Drone × Reply
  unfolding apply_action heard
  apply_and_ack action_id b x warned d =
      let (applied, executor) = apply_action clock runtime_ok b x d.executor in
      (
        record d { executor = executor; keys = heard d.executor executor d.keys },
        record { acked = if applied then some action_id else none; warned = warned },
      )

  -- The key is registered first; a backend whose key is registered already is not spawned again.
  handle_spawn : ℕ → ℕ → ℕ → AcquiredKey → Option ℕ → Drone → Drone × Reply
  unfolding register_key apply_and_ack
  handle_spawn action_id b executable key static_token d =
      let warned = ltb key.deadlines.soft_terminate_at now in
      let (registered, keys) = register_key b key d.keys in
      if registered
      then apply_and_ack action_id b (BackendAction.spawn executable key static_token) warned
          (record d { keys = keys })
      else (record d { keys = keys }, record { acked = none; warned = warned })

  unfoldable pub handle_message : MessageToDrone → Drone → Drone × Reply
  unfolding handle_spawn apply_and_ack update_deadlines StateStore.ack_event
  handle_message (action action_id b (BackendAction.spawn executable key static_token)) d =
      handle_spawn action_id b executable key static_token d
  handle_message (action action_id b (BackendAction.terminate kind reason)) d =
      apply_and_ack action_id b (BackendAction.terminate kind reason) false d
  handle_message (ack_event k) d = (
    record d { executor = record (d.executor) { store = StateStore.ack_event k d.executor.store } },
    record { acked = none; warned = false },
  )
  handle_message (renew_key_response b (some deadlines)) d = (
    record d { keys = update_deadlines b deadlines d.keys },
    record { acked = none; warned = false },
  )
  handle_message (renew_key_response b none) d = (d, record { acked = none; warned = false })
