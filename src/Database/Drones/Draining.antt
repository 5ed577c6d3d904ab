-- ===== src/Database/Drones/Draining.antt =====
-- A drone that drains is not picked again (`drain`, `register_drone` and `heartbeat` of
-- plane/src/database/drone.rs).
use mathlib.Core.List.{Perm}
use plane.Prelude.{
  All, All-append, Bool, Bool-cases, List, [], false, find, inl, inr, refl, some, true, ℕ, ◌==◌,
  ◌∙◌, ◌∷◌, ◌≡◌, Option, arith, none, subst, ◌≢◌, ap,
}
use plane.Prelude.Rows.{any_where, update_where, any_where-append}
use plane.Database.{BackendRow}
use plane.Database.Drones.Picking.{is_suitable, stands_for, pick_drone_for_spawn_least}
use plane.Database.Drones.{
  DroneRow, drain, heartbeat, is_drone, is_eligible, register_drone, ControllerRow, Candidate,
  NodeRow, DroneForSpawn, pick_drone_for_spawn,
}

==_eq : (a b : ℕ) → (a == b) ≡ true → a ≡ b
==_eq a b h = ground arith

-- A change of the table.
pub data Change : Type 0 where
  registers : (id : ℕ) (ready : Bool) (pool : ℕ) → Change
  drains : (id : ℕ) → Change
  beats : (now id local_time : ℕ) → Change

abbrev pub change : Change → List DroneRow → List DroneRow
change (registers id ready pool) rows = register_drone id ready pool rows
change (drains id) rows = (drain id rows).1
change (beats now id local_time) rows = heartbeat now id local_time rows

abbrev pub changes : List Change → List DroneRow → List DroneRow
changes [] rows = rows
changes (c ∷ cs) rows = changes cs (change c rows)

-- The drone is in the table and drains.
record IsDraining (id : ℕ) (rows : List DroneRow) : Type 0 where
  known : any_where (is_drone id) rows ≡ true
  draining : All (λ (row : DroneRow). is_drone id row ≡ true → row.draining ≡ true) rows

any-update_where :
    (id j : ℕ) (f : DroneRow → DroneRow) (rows : List DroneRow)
    → ((row : DroneRow) → (f row).id ≡ row.id)
    → any_where (is_drone id) (update_where (is_drone j) f rows) ≡ any_where (is_drone id) rows
unfolding any_where update_where
any-update_where id j f [] h = refl
any-update_where id j f (row ∷ rows) h =
    rw (any-update_where id j f rows h) (elim (Bool-cases (is_drone j row)) [
      | inl hit ↦ rw hit (rw (h row) refl)
      | inr miss ↦ rw miss refl
    ])

All-update_where :
    (P : DroneRow → Type 0) (p : DroneRow → Bool) (f : DroneRow → DroneRow) (rows : List DroneRow)
    → ((row : DroneRow) → P row → P (f row))
    → All P rows
    → All P (update_where p f rows)
unfolding update_where
All-update_where P p f [] g h = tt
All-update_where P p f (row ∷ rows) g (h, hs) = (
  elim (Bool-cases (p row)) [ inl hit ↦ rw hit (g row h) | inr miss ↦ rw miss h ],
  All-update_where P p f rows g hs,
)

-- An update that changes neither an id nor, except to true, a `draining`.
update-IsDraining :
    (id j : ℕ) (f : DroneRow → DroneRow) (rows : List DroneRow)
    → ((row : DroneRow) → (f row).id ≡ row.id)
    → ((row : DroneRow) → row.draining ≡ true → (f row).draining ≡ true)
    → IsDraining id rows
    → IsDraining id (update_where (is_drone j) f rows)
update-IsDraining id j f rows h g i = record {
  known = any-update_where id j f rows h ∙ i.known;
  draining =
      All-update_where (λ (row : DroneRow). is_drone id row ≡ true → row.draining ≡ true)
        (is_drone j) f rows (λ row k e. g row (k (rw (h row) at e))) i.draining;
}

register-IsDraining :
    (id j : ℕ) (ready : Bool) (pool : ℕ) (rows : List DroneRow)
    → IsDraining id rows
    → IsDraining id (register_drone j ready pool rows)
unfolding register_drone
register-IsDraining id j ready pool rows i = elim (Bool-cases (any_where (is_drone j) rows)) [
  | inl known ↦ rw known (
      update-IsDraining id j (λ row. record row { ready = ready }) rows (λ row. refl) (λ row e. e)
        i)
  | inr unknown ↦ rw unknown (record {
    known = any_where-append _ rows _ ∙ rw i.known refl;
    draining = All-append _ rows _ i.draining ((λ e. absurd (other_id (==_eq j id e) unknown)), tt);
  })
]
  where
    other_id : j ≡ id → any_where (is_drone j) rows ≡ false → ⊥
    other_id e u = cc

change-IsDraining :
    (id : ℕ) (c : Change) (rows : List DroneRow)
    → IsDraining id rows
    → IsDraining id (change c rows)
unfolding drain heartbeat
change-IsDraining id (registers j ready pool) rows i = register-IsDraining id j ready pool rows i
change-IsDraining id (drains j) rows i =
    update-IsDraining id j (λ row. record row { draining = true }) rows (λ row. refl)
      (λ row e. refl) i
change-IsDraining id (beats now j t) rows i =
    update-IsDraining id j
      (λ row. record row { last_heartbeat = some now; last_local_time = some t }) rows (λ row. refl)
      (λ row e. e) i

changes-IsDraining :
    (id : ℕ) (cs : List Change) (rows : List DroneRow)
    → IsDraining id rows
    → IsDraining id (changes cs rows)
changes-IsDraining id [] rows i = i
changes-IsDraining id (c ∷ cs) rows i =
    changes-IsDraining id cs (change c rows) (change-IsDraining id c rows i)

drain-all :
    (id : ℕ) (rows : List DroneRow)
    → All
        (λ (row : DroneRow). is_drone id row ≡ true → row.draining ≡ true)
        (update_where (is_drone id) (λ row. record row { draining = true }) rows)
unfolding update_where
drain-all id [] = tt
drain-all id (row ∷ rows) = (
  elim (Bool-cases (is_drone id row)) [
    | inl hit ↦ rw hit (λ e. refl)
    | inr miss ↦ rw miss (λ e. cc)
  ],
  drain-all id rows,
)

drain-IsDraining :
    (id : ℕ) (rows : List DroneRow)
    → any_where (is_drone id) rows ≡ true
    → IsDraining id (drain id rows).1
unfolding drain
drain-IsDraining id rows h = record {
  known = any-update_where id id (λ row. record row { draining = true }) rows (λ row. refl) ∙ h;
  draining = drain-all id rows;
}

not_eligible : (now pool : ℕ) (d : DroneRow) → d.draining ≡ true → is_eligible now pool d ≡ false
not_eligible now pool d h = ground (arith, h)

found_here :
    (p : DroneRow → Bool) (row d : DroneRow) (rows : List DroneRow)
    → p row ≡ true
    → find p (row ∷ rows) ≡ some d
    → row ≡ d
unfolding find
found_here p row d rows hit h = ground (arith, hit, h)

find-draining :
    (id : ℕ) (rows : List DroneRow) (now pool : ℕ)
    → All (λ (row : DroneRow). is_drone id row ≡ true → row.draining ≡ true) rows
    → (d : DroneRow) → find (is_drone id) rows ≡ some d
    → is_eligible now pool d ≡ false
unfolding find
find-draining id [] now pool a d h = cc
find-draining id (row ∷ rows) now pool (a, rest) d h = elim (Bool-cases (is_drone id row)) [
  | inl hit ↦ not_eligible now pool d (
      subst (λ (r : DroneRow). r.draining ≡ true) (found_here (is_drone id) row d rows hit h)
        (a hit))
  | inr miss ↦ find-draining id rows now pool rest d (rw miss at h)
]

not_suitable :
    (now cluster pool id : ℕ) (controllers : List ControllerRow) (rows : List DroneRow)
    (node : NodeRow)
    → IsDraining id rows
    → (node.id == id) ≡ true
    → is_suitable now cluster pool controllers rows node ≡ false
not_suitable now cluster pool id controllers rows node i same =
    go (find (is_drone node.id) rows) refl
  where
    go :
        (o : Option DroneRow)
        → find (is_drone node.id) rows ≡ o
        → is_suitable now cluster pool controllers rows node ≡ false
    go none e = rw e (ground arith)
    go (some d) e = rw e (
        rw
          (find-draining id rows now pool i.draining d
            (subst (λ n. find (is_drone n) rows ≡ some d) (==_eq node.id id same) e))
          (ground arith))

none_stands :
    (now cluster pool id : ℕ) (controllers : List ControllerRow) (backends : List BackendRow)
    (rows : List DroneRow) (nodes : List NodeRow) (c : Candidate)
    → IsDraining id rows
    → c.id ≡ id
    → any_where (stands_for now cluster pool controllers backends rows c) nodes ≡ false
unfolding any_where
none_stands now cluster pool id controllers backends rows [] c i e = refl
none_stands now cluster pool id controllers backends rows (node ∷ nodes) c i e =
    elim (Bool-cases (node.id == id)) [
      | inl same ↦
          rw (not_suitable now cluster pool id controllers rows node i same)
            (none_stands now cluster pool id controllers backends rows nodes c i e)
      | inr other ↦
          ground
            (arith, other, e, none_stands now cluster pool id controllers backends rows nodes c i e)
    ]

-- Once a drone that is in the table drains, no later choice gives it, whatever the drones do in
-- between: it may register again, send heartbeats and be told to drain again.
pub drained-not_picked :
    (shuffle : List Candidate → List Candidate)
    (shuffle_perm : (cs : List Candidate) → Perm (shuffle cs) cs) (now cluster pool best_of id : ℕ)
    (controllers : List ControllerRow) (backends : List BackendRow) (nodes : List NodeRow)
    (rows : List DroneRow) (later : List Change) (chosen : DroneForSpawn)
    → any_where (is_drone id) rows ≡ true
    → pick_drone_for_spawn shuffle now cluster pool best_of controllers backends
        (changes later (drain id rows).1)
        nodes
      ≡ some chosen
    → chosen.id ≢ id
drained-not_picked shuffle shuffle_perm now cluster pool best_of id controllers backends nodes rows
      later chosen known picked same =
    let (c, chosen_eq, stands, least) =
      pick_drone_for_spawn_least now cluster pool controllers backends
        (changes later (drain id rows).1) shuffle shuffle_perm best_of nodes chosen picked in
    clash
      (none_stands now cluster pool id controllers backends (changes later (drain id rows).1) nodes
        c (changes-IsDraining id later (drain id rows).1 (drain-IsDraining id rows known))
        (ap spawn_id chosen_eq ∙ same))
      stands
  where
    spawn_id : Option DroneForSpawn → ℕ
    spawn_id none = 0
    spawn_id (some d) = d.id

    clash : {b : Bool} → b ≡ false → b ≡ true → ⊥
    clash f t = cc
