-- ===== src/Tests/Leases.antt =====
-- The lease of a key (plane/src/database/backend_key.rs, plane/src/drone/key_manager.rs).
use plane.Prelude.{All, List, [], arith, false, none, refl, some, true, ◌*◌, ◌∷◌, ◌≡◌}
use plane.Protocol.{AcquiredKey, KeyDeadlines, second}
use plane.Drone.KeyManager.{KeyManager, Tick, new, register_key, renew_key_loop}
use plane.Drone.KeyManager.Loop.{
  InTime, KilledWithin, is_soft, renew_key_loop-InTime, renew_key_loop-kills,
}
use plane.Drone.KeyManager.Handles.{Call, IsCurrent, calls, calls-IsCurrent}
use plane.Database.Keys.Lease.{Step, Lease, Reach, created, here, next, pass, remove, start}
use plane.Database.Keys.Lease.Safety.{removed_key_not_running}
use plane.Database.Connect.{DroneForSpawn, spawn_deadlines}
use plane.Database.Connect.Spawned.{spawned_lease_safe, spawned_never_soft}

-- A drone whose clock is 5 s ahead and whose last heartbeat showed 103 s; the controller's clock
-- shows 100 s.
abbrev drone : DroneForSpawn
drone = record { id = 1; drone = 7; last_local_time = 103 * second }

abbrev deadlines : KeyDeadlines
deadlines = record {
  renew_at = 133 * second;
  soft_terminate_at = 143 * second;
  hard_terminate_at = 143 * second;
}

abbrev started : Lease
started = record (created (100 * second) deadlines) { spawn_sent = none; running = some deadlines }

abbrev stopped : Lease
stopped = record started { running = none }

abbrev late : Lease
late = record stopped { clock = 161 * second }

abbrev removed : Lease
removed = record late { expires_at = none }

-- The drone starts the backend and stops it; a minute later the key is removed.
life : Reach (5 * second) (10 * second) (created (100 * second) deadlines) removed
life =
    next {m = late}
      (next {m = stopped}
        (next {m = started} (next here (start deadlines refl (omega arith) refl)) (Step.stop refl))
        (pass (61 * second) refl (λ d h. ground arith)))
      (remove (160 * second) refl (omega arith) refl)

removed_key_not_running_example : removed.running ≡ none
removed_key_not_running_example =
    removed_key_not_running (5 * second) (10 * second) (100 * second) (103 * second) deadlines
      removed (omega arith) (omega arith) (omega arith) (omega arith) life refl

spawned_life :
    Reach (5 * second) (10 * second) (created (100 * second) (spawn_deadlines drone)) removed
unfolding spawn_deadlines
spawned_life = life

spawned_lease_safe_example : removed.running ≡ none
spawned_lease_safe_example =
    spawned_lease_safe (5 * second) (10 * second) (100 * second) drone removed (omega arith)
      (omega arith) spawned_life refl

abbrev tick : Tick
tick = record { applied = true; lag = 0; delay = second }

abbrev ticks : List Tick
ticks = tick ∷ tick ∷ tick ∷ tick ∷ []

abbrev usual : KeyDeadlines
usual = record {
  renew_at = 30 * second;
  soft_terminate_at = 40 * second;
  hard_terminate_at = 50 * second;
}

renew_key_loop-kills_example :
    KilledWithin (50 * second) (54 * second) (renew_key_loop true usual 0 ticks)
renew_key_loop-kills_example =
    renew_key_loop-kills true usual 0 ticks
      (record { renew_first = omega arith; soft_first = omega arith }) (omega arith)
      (refl, (refl, (refl, (refl, tt))))

renew_key_loop-InTime_example : All (InTime usual) (renew_key_loop true usual 0 ticks)
renew_key_loop-InTime_example = renew_key_loop-InTime true usual 0 ticks

spawned_never_soft_example :
    All (λ e. is_soft e ≡ false) (renew_key_loop true (spawn_deadlines drone) 0 ticks)
spawned_never_soft_example = spawned_never_soft true drone 0 ticks

abbrev key : AcquiredKey
key = record { key = record { name = 4; namespace = 0; tag = 2 }; deadlines = usual; token = 9 }

calls-IsCurrent_example :
    IsCurrent (calls (Call.connect 1 ∷ Call.register 3 key ∷ Call.update 3 deadlines ∷ []) new)
calls-IsCurrent_example =
    calls-IsCurrent (Call.connect 1 ∷ Call.register 3 key ∷ Call.update 3 deadlines ∷ [])

abbrev holding : KeyManager
holding = (register_key 3 key new).1
