-- ===== src/Database/Connect/Spawned.antt =====
-- The lease that `create_backend_with_key` of plane/src/database/connect.rs starts.
use plane.Prelude.{All, Bool, List, arith, false, none, ℕ, ◌*◌, ◌+◌, ◌≡◌, ◌≤◌}
use plane.Protocol.{second}
use plane.Database.Keys.Lease.{Lease, Reach, created}
use plane.Database.Keys.Lease.Safety.{removed_key_not_running}
use plane.Database.Connect.{DroneForSpawn, spawn_deadlines}
use plane.Drone.KeyManager.{Tick, renew_key_loop}
use plane.Drone.KeyManager.Loop.{is_soft, never_soft}

-- The loop that a drone starts with the deadlines of a new backend never terminates it softly,
-- as long as no renewal brings other deadlines: it goes straight to the kill.
pub spawned_never_soft :
    (sender : Bool) (drone : DroneForSpawn) (now : ℕ) (ticks : List Tick)
    → All (λ e. is_soft e ≡ false) (renew_key_loop sender (spawn_deadlines drone) now ticks)
unfolding spawn_deadlines
spawned_never_soft sender drone now ticks =
    never_soft sender (spawn_deadlines drone) now ticks (omega arith)

-- A new backend whose drone's last heartbeat was not sent after its creation, by the drone's own
-- clock, has lost its process when a controller has removed its key as expired, if the drone does
-- not start it after its soft deadline and kills it within ten seconds of its hard deadline.
pub spawned_lease_safe :
    (drift grace now : ℕ) (drone : DroneForSpawn) (l : Lease)
    → grace ≤ 10 * second
    → drone.last_local_time ≤ now + drift
    → Reach drift grace (created now (spawn_deadlines drone)) l
    → l.expires_at ≡ none
    → l.running ≡ none
unfolding spawn_deadlines
spawned_lease_safe drift grace now drone l short behind r gone =
    removed_key_not_running drift grace now drone.last_local_time (spawn_deadlines drone) l short
      behind (omega arith) (omega arith) r gone
