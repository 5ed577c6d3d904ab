-- ===== src/Database/Nodes/Online.antt =====
-- The connections of nodes (`register` and `mark_offline` of plane/src/database/node.rs), and the
-- `NodeHandle` of plane/src/controller/core.rs, whose drop marks the node offline.
pub mod Latest
pub mod Exact
use plane.Prelude.{
  All, Bool, List, Option, [], arith, false, is_some, some, true, ℕ, ◌&&◌, ◌++◌, ◌<◌, ◌==◌, ◌∷◌,
  ◌≡◌,
}
use plane.Prelude.Rows.{any_where}
use plane.Database.Nodes.{NodeRow, Nodes, PlaneVersionInfo, has, mark_offline, register}

-- `NodeHandle`: a connection of a node to a controller.
pub record NodeHandle : Type 0 where
  pub id : ℕ
  pub controller : ℕ
  pub connection_start_time : ℕ

-- `open` has the handles that are not dropped; no transaction so far is later than `clock`.
pub record World : Type 0 where
  pub nodes : Nodes
  pub handles : List NodeHandle
  pub clock : ℕ

-- `Controller::register_node`
abbrev pub connect : ℕ → Option ℕ → ℕ → ℕ → ℕ → PlaneVersionInfo → ℕ → World → World
connect now cluster name kind controller version ip w =
    let ((id, start), nodes) = register now cluster name kind controller version ip w.nodes in
    record {
      nodes = nodes;
      handles =
          record { id = id; controller = controller; connection_start_time = start } ∷ w.handles;
      clock = now;
    }

-- The time of a transaction is after those before it; handles are dropped in any order.
pub data Step (w u : World) : Type 0 where
  connects :
      (now : ℕ) (cluster : Option ℕ) (name kind controller : ℕ) (version : PlaneVersionInfo)
      (ip : ℕ)
      → w.clock < now
      → u ≡ connect now cluster name kind controller version ip w
      → Step w u
  drops :
      (before : List NodeHandle) (h : NodeHandle) (after : List NodeHandle)
      → w.handles ≡ before ++ h ∷ after
      → u ≡ record w {
        nodes = mark_offline h.id h.controller h.connection_start_time w.nodes;
        handles = before ++ after;
      }
      → Step w u

pub data Reach (w : World) : World → Type 0 where
  here : Reach w w
  next : {u v : World} → Reach w u → Step u v → Reach w v

abbrev pub empty : World
empty = record { nodes = record { rows = []; next_id = 1; emitted = [] }; handles = []; clock = 0 }

-- The handle is that of the row's latest connection.
abbrev pub is_latest : NodeRow → NodeHandle → Bool
is_latest row h = (h.id == row.id) && has row.last_connection_start_time h.connection_start_time

-- A row shows a controller exactly when the handle of its latest connection is open, and then that
-- of the handle.
abbrev pub Shows : List NodeHandle → NodeRow → Type 0
Shows handles row =
    (is_some row.controller ≡ any_where (is_latest row) handles)
    × All (λ h. is_latest row h ≡ true → row.controller ≡ some h.controller) handles

pub ==_sym_false : (a b : ℕ) → (a == b) ≡ false → (b == a) ≡ false
==_sym_false a b h = ground arith
