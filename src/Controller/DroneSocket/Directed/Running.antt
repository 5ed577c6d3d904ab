-- ===== src/Controller/DroneSocket/Directed/Running.antt =====
-- The rows of the table of backends (plane/src/database/backend.rs) that say which drone a backend is
-- on, and what keeps them.
use plane.Prelude.{
  All, All-map, Bool, Bool-cases, List, Option, [], ==_refl, arith, false, filterb, find,
  if◌then◌else◌, inl, inr, none, refl, some, true, ℕ, ◌&&◌, ◌||◌, ◌==◌, ◌∷◌, ◌≡◌, ap, ◌∙◌,
}
use plane.Prelude.Rows.{any_where, update_where}
use plane.Database.{ActionRow, BackendRow}
use plane.Database.Backend.{is_candidate}

-- There is a row of the backend on the drone.
abbrev pub runs_on : ℕ → ℕ → List BackendRow → Bool
runs_on b drone rows = any_where (λ (row : BackendRow). row.id == b && row.drone_id == drone) rows

pub or_later : (a b : Bool) → b ≡ true → (a || b) ≡ true
or_later true b h = refl
or_later false b h = h

runs_on-update_where :
    (b drone : ℕ) (p : BackendRow → Bool) (f : BackendRow → BackendRow) (rows : List BackendRow)
    → ((row : BackendRow) → ((f row).id ≡ row.id) × ((f row).drone_id ≡ row.drone_id))
    → runs_on b drone (update_where p f rows) ≡ runs_on b drone rows
unfolding any_where update_where
runs_on-update_where b drone p f [] h = refl
runs_on-update_where b drone p f (row ∷ rows) h =
    ground (arith, runs_on-update_where b drone p f rows h, h row)

pub all_rows :
    (rows : List BackendRow)
    → All (λ (row : BackendRow). runs_on row.id row.drone_id rows ≡ true) rows
unfolding any_where
all_rows [] = tt
all_rows (row ∷ rows) = (
  ground (arith, ==_refl row.id, ==_refl row.drone_id),
  All-map _ _ (λ (r : BackendRow) h. or_later _ (runs_on r.id r.drone_id rows) h) rows
      (all_rows rows),
)

pub candidates_run :
    (now drone : ℕ) (backends rows : List BackendRow)
    → All (λ (row : BackendRow). runs_on row.id row.drone_id backends ≡ true) rows
    → All
        (λ (row : BackendRow). runs_on row.id drone backends ≡ true)
        (filterb (is_candidate now drone) rows)
unfolding filterb
candidates_run now drone backends [] h = tt
candidates_run now drone backends (row ∷ rows) (h, hs) =
    let rest = candidates_run now drone backends rows hs in
    elim (Bool-cases (is_candidate now drone row)) [
      | inl due ↦ rw due (rw (here (ground (arith, due))) at h, rest)
      | inr other ↦ rw other rest
    ]
  where
    here : (row.drone_id == drone) ≡ true → row.drone_id ≡ drone
    here e = ground (arith, e)

pub found_runs :
    (b : ℕ) (rows : List BackendRow) (row : BackendRow)
    → find (λ (r : BackendRow). r.id == b) rows ≡ some row
    → runs_on b row.drone_id rows ≡ true
unfolding find any_where
found_runs b [] row h = cc
found_runs b (r ∷ rs) row h = elim (Bool-cases (r.id == b)) [
  | inl same ↦ here same (rw same at h)
  | inr other ↦ rw other (found_runs b rs row (rw other at h))
]
  where
    here :
        (r.id == b) ≡ true
        → some r ≡ some row
        → ((r.id == b && r.drone_id == row.drone_id) || runs_on b row.drone_id rs) ≡ true
    here same e = let same_drone = ap drone_of e in ground (arith, same, same_drone)
      where
        drone_of : Option BackendRow → ℕ
        drone_of none = 0
        drone_of (some x) = x.drone_id

-- A change of rows that leaves their ids and drones.
pub same_rows :
    (p : BackendRow → Bool) (f : BackendRow → BackendRow) (rows : List BackendRow)
    (actions : List ActionRow)
    → ((row : BackendRow) → ((f row).id ≡ row.id) × ((f row).drone_id ≡ row.drone_id))
    → All (λ (a : ActionRow). runs_on a.backend_id a.drone_id rows ≡ true) actions
    → All
        (λ (a : ActionRow). runs_on a.backend_id a.drone_id (update_where p f rows) ≡ true)
        actions
same_rows p f rows actions keeps d =
    All-map _ _
      (λ (a : ActionRow) h. runs_on-update_where a.backend_id a.drone_id p f rows keeps ∙ h) actions
      d

pub same_actions :
    (rows : List BackendRow) (p : ActionRow → Bool) (f : ActionRow → ActionRow)
    (actions : List ActionRow)
    → ((a : ActionRow) → ((f a).backend_id ≡ a.backend_id) × ((f a).drone_id ≡ a.drone_id))
    → All (λ (a : ActionRow). runs_on a.backend_id a.drone_id rows ≡ true) actions
    → All
        (λ (a : ActionRow). runs_on a.backend_id a.drone_id rows ≡ true)
        (update_where p f actions)
unfolding update_where
same_actions rows p f [] keeps d = tt
same_actions rows p f (a ∷ actions) keeps (d, ds) =
    (here (p a), same_actions rows p f actions keeps ds)
  where
    here :
        (b : Bool)
        → runs_on (if b then f a else a).backend_id (if b then f a else a).drone_id rows ≡ true
    here true = rw (keeps a).0 (rw (keeps a).1 d)
    here false = d
