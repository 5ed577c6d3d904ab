-- ===== src/Database/Drones/Picking.antt =====
-- The drone that `pick_drone_for_spawn` of plane/src/database/drone.rs gives: a suitable one, with
-- the fewest backends of those that were drawn; and none only where no drone is suitable.
mod Least
use mathlib.Core.List.{Memᴰ, Perm}
use mathlib.Core.List.Memᴰ
use mathlib.Core.List.Perm
use mathlib.Core.Logic.{∥∥₁_elim}
use plane.Prelude.{
  All, Bool, Bool-cases, List, Option, [], arith, false, find, inl, inr, ltb, none, refl, some,
  subst, take, ℕ, ◌&&◌, ◌∷◌, ◌≡◌, ◌≤◌, ◌⊎◌, ap, if◌then◌else◌, lt→ltb, suc, sym, true, zero, ◌<◌,
  ◌==◌, Option-cases, ◌∙◌,
}
use plane.Prelude.Rows.{any_where}
use plane.Database.Drones.Picking.Least.{drawn_nil, mem-take, min_by_count_lem}
use plane.Database.{BackendRow}
use plane.Database.Nodes.{ControllerRow, NodeRow}
use plane.Database.Drones.{
  Candidate, DroneRow, backend_count, is_drone, is_eligible, is_reachable, least, min_by_count,
  candidates, candidate, of_drone, any_where, or_zero, pick_drone_for_spawn, DroneForSpawn,
  for_spawn,
}

-- The node is suitable, whether a draw comes upon it or not: it has a drone that is ready, heard of
-- recently, not draining and of the pool, and its controller is online and heard of recently.
abbrev has_drone : ℕ → ℕ → Option DroneRow → Bool
has_drone now pool none = false
has_drone now pool (some d) = is_eligible now pool d

abbrev pub is_suitable : ℕ → ℕ → ℕ → List ControllerRow → List DroneRow → NodeRow → Bool
is_suitable now cluster pool controllers drones node =
    is_reachable now cluster controllers node && has_drone now pool (find (is_drone node.id) drones)

find_test :
    (p : DroneRow → Bool) (rows : List DroneRow) (d : DroneRow) → find p rows ≡ some d → p d ≡ true
unfolding find
find_test p [] d h = cc
find_test p (row ∷ rows) d h = ground (arith, find_test p rows d, h)

none_picked : (o : Option Candidate) → for_spawn o ≡ none → o ≡ none
none_picked none e = refl
none_picked (some c) e = cc

module _ (now cluster pool : ℕ) (controllers : List ControllerRow) (backends : List BackendRow)
    (drones : List DroneRow) where
  abbrev suitable : NodeRow → Bool
  suitable node = is_suitable now cluster pool controllers drones node

  -- A suitable node has the drone's id, and its count is the drone's.
  abbrev pub stands_for : Candidate → NodeRow → Bool
  stands_for c node =
      (suitable node) && (node.id == c.id && c.backend_count == backend_count c.id backends)

  abbrev row_for : NodeRow → Option Candidate
  row_for node = candidate now cluster pool controllers backends drones node

  abbrev id_of : Option Candidate → ℕ
  id_of none = 0
  id_of (some c) = c.id

  abbrev count_of : Option Candidate → ℕ
  count_of none = 0
  count_of (some c) = c.backend_count

  of_drone-some :
      (node : NodeRow) (d : DroneRow) (c : Candidate)
      → of_drone now cluster pool controllers backends node (some d) ≡ some c
      → ((is_reachable now cluster controllers node && is_eligible now pool d) ≡ true)
        × (c.id ≡ d.id)
        × (c.backend_count ≡ backend_count node.id backends)
  unfolding of_drone or_zero
  of_drone-some node d c h =
      elim (Bool-cases (is_reachable now cluster controllers node && is_eligible now pool d)) [
        | inl good ↦ let e = rw good at h in (good, sym (ap id_of e), sym (ap count_of e))
        | inr bad ↦ impossible (rw bad at h)
      ]
    where
      impossible : {X : Type 0} → none ≡ some c → X
      impossible e = cc

  row_for_suitable :
      (node : NodeRow) (c : Candidate) → row_for node ≡ some c → stands_for c node ≡ true
  unfolding candidate
  row_for_suitable node c h = go (find (is_drone node.id) drones) refl h
    where
      same_id :
          (d : DroneRow) → find (is_drone node.id) drones ≡ some d → c.id ≡ d.id → c.id ≡ node.id
      same_id d e id_eq = ground (arith, find_test (is_drone node.id) drones d e, id_eq)

      go :
          (o : Option DroneRow)
          → find (is_drone node.id) drones ≡ o
          → of_drone now cluster pool controllers backends node o ≡ some c
          → stands_for c node ≡ true
      go none e k = cc
      go (some d) e k =
          let (good, id_eq, count_eq) = of_drone-some node d c k in
          rw e (rw good (rw (same_id d e id_eq) (rw count_eq (ground arith))))

  row_for-none : (node : NodeRow) → row_for node ≡ none → suitable node ≡ false
  unfolding candidate of_drone
  row_for-none node h = go (find (is_drone node.id) drones) refl h
    where
      go :
          (o : Option DroneRow)
          → find (is_drone node.id) drones ≡ o
          → of_drone now cluster pool controllers backends node o ≡ none
          → suitable node ≡ false
      go none e k = rw e (ground arith)
      go (some d) e k = rw e (ground (arith, k))

  abbrev all_rows : List NodeRow → List Candidate
  all_rows nodes = candidates now cluster pool controllers backends drones nodes

  candidates_suitable :
      (nodes : List NodeRow) (c : Candidate)
      → Memᴰ c (all_rows nodes)
      → any_where (stands_for c) nodes ≡ true
  unfolding candidates any_where
  candidates_suitable [] c m = absurd (Memᴰ.not-nil m)
  candidates_suitable (node ∷ nodes) c m = elim (Option-cases (row_for node)) [
    | inl none_eq ↦ ground (arith, candidates_suitable nodes c (rw none_eq at m))
    | inr (d, some_eq) ↦ elim (Memᴰ.cases_cons (rw some_eq at m)) [
      | inl e ↦ ground (arith, row_for_suitable node c (some_eq ∙ ap some (sym e)))
      | inr k ↦ ground (arith, candidates_suitable nodes c k)
    ]
  ]

  candidates_none : (nodes : List NodeRow) → all_rows nodes ≡ [] → any_where suitable nodes ≡ false
  unfolding candidates any_where
  candidates_none [] h = refl
  candidates_none (node ∷ nodes) h = elim (Option-cases (row_for node)) [
    | inl none_eq ↦ rw (row_for-none node none_eq) (candidates_none nodes (rw none_eq at h))
    | inr (d, some_eq) ↦ not_nil (rw some_eq at h)
  ]
    where
      not_nil : {d : Candidate} {X : Type 0} → d ∷ all_rows nodes ≡ [] → X
      not_nil {d} e = cc

  module _ (shuffle : List Candidate → List Candidate)
      (shuffle_perm : (cs : List Candidate) → Perm (shuffle cs) cs) where
    -- The rows that the query reads.
    abbrev pub drawn : ℕ → List NodeRow → List Candidate
    drawn best_of nodes = take best_of (shuffle (all_rows nodes))

    -- The drone that is picked is suitable, whatever the order of the draw, and has the fewest
    -- backends of those that were drawn.
    pub pick_drone_for_spawn_least :
        (best_of : ℕ) (nodes : List NodeRow) (chosen : DroneForSpawn)
        → pick_drone_for_spawn shuffle now cluster pool best_of controllers backends drones nodes
          ≡ some chosen
        → (c : Candidate) × (for_spawn (some c) ≡ some chosen)
          × (any_where (stands_for c) nodes ≡ true)
          × All (λ (d : Candidate). c.backend_count ≤ d.backend_count) (drawn best_of nodes)
    unfolding pick_drone_for_spawn
    pick_drone_for_spawn_least best_of nodes chosen h =
        go (min_by_count (drawn best_of nodes)) refl h
      where
        go :
            (o : Option Candidate)
            → min_by_count (drawn best_of nodes) ≡ o
            → for_spawn o ≡ some chosen
            → (c : Candidate) × (for_spawn (some c) ≡ some chosen)
              × (any_where (stands_for c) nodes ≡ true)
              × All (λ (d : Candidate). c.backend_count ≤ d.backend_count) (drawn best_of nodes)
        go none e k = cc
        go (some c) e k =
            let (m, all) = min_by_count_lem (drawn best_of nodes) c e in (c, k, found m, all)
          where
            found : Memᴰ c (drawn best_of nodes) → any_where (stands_for c) nodes ≡ true
            found m =
                ∥∥₁_elim
                  ((Perm.mem_iff (shuffle_perm (all_rows nodes))).0 ∣ mem-take best_of _ c m ∣₁)
                  (hlevel) (candidates_suitable nodes c)

    -- With at least one draw, no drone is picked only where none is suitable.
    pub pick_drone_for_spawn-none :
        (best_of : ℕ) (nodes : List NodeRow)
        → 0 < best_of
        → pick_drone_for_spawn shuffle now cluster pool best_of controllers backends drones nodes
          ≡ none
        → any_where (is_suitable now cluster pool controllers drones) nodes ≡ false
    unfolding pick_drone_for_spawn
    pick_drone_for_spawn-none best_of nodes lt h = candidates_none nodes (
        Perm.eq-nil (
          Perm.symm
            (subst (λ cs. Perm cs (all_rows nodes)) no_rows (shuffle_perm (all_rows nodes)))))
      where
        no_rows : shuffle (all_rows nodes) ≡ []
        no_rows =
            drawn_nil best_of (shuffle (all_rows nodes)) lt
              (none_picked (min_by_count (drawn best_of nodes)) h)
