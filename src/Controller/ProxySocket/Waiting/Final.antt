-- ===== src/Controller/ProxySocket/Waiting/Final.antt =====
-- A backend that is starting, and the states that end a wait for it (plane/src/controller/proxy.rs).
use plane.Prelude.{
  Bool-cases, List, Option, [], arith, false, inl, inr, none, refl, some, true, ℕ, ◌++◌, ◌<◌, ◌==◌,
  ◌∙◌, ◌∷◌, ◌≡◌, ◌≤◌, ◌⊎◌,
}
use plane.BackendState.{BackendState, ordinal, status}
use plane.Database.{BackendRow, Database}
use plane.Database.Backend.{backend, update_state}
use plane.Database.Backend.Updates.{backend-update_state, update_state_refused, updated}
use plane.Database.Routes.{RouteInfo}
use plane.Controller.ProxySocket.{Progress, finished}

-- A state at which the wait ends has been notified.
abbrev pub HasFinal : List BackendState → Type 0
HasFinal [] = ⊥
HasFinal (s ∷ ss) = (4 ≤ ordinal (status s)) ⊎ HasFinal ss

-- The backend is not ready yet and is not ending.
abbrev pub IsStarting : ℕ → Database → Type 0
IsStarting b db = (row : BackendRow) × (backend b db ≡ some row) × (ordinal row.last_status < 4)

-- The answers so far: none while the request is open, and at most one after it; a route leads to
-- the backend `b`, if any.
abbrev pub Answers : Option ℕ → Progress → List (Option RouteInfo) → Type 0
Answers b finished [] = Unit
Answers b finished (none ∷ []) = Unit
Answers b finished (some r ∷ []) = b ≡ some r.backend_id
Answers b finished (x ∷ y ∷ ys) = ⊥
Answers b _ sent = sent ≡ []

pub HasFinal-snoc :
    (ss : List BackendState) (s : BackendState) → HasFinal ss → HasFinal (ss ++ s ∷ [])
HasFinal-snoc [] s h = absurd h
HasFinal-snoc (x ∷ xs) s (inl h) = inl h
HasFinal-snoc (x ∷ xs) s (inr h) = inr (HasFinal-snoc xs s h)

pub HasFinal-last :
    (ss : List BackendState) (s : BackendState) → 4 ≤ ordinal (status s) → HasFinal (ss ++ s ∷ [])
HasFinal-last [] s h = inl h
HasFinal-last (x ∷ xs) s h = inr (HasFinal-last xs s h)

starting_or_final :
    (now : ℕ) (s : BackendState) (row : BackendRow)
    → ordinal row.last_status < 4
    → (ordinal (updated now s row).last_status < 4) ⊎ (4 ≤ ordinal (status s))
starting_or_final now s row h = ground arith

-- After an update a backend that was starting is starting still, or the update was taken and its
-- state ends the wait.
pub IsStarting-update_state :
    (now b j : ℕ) (s : BackendState) (db : Database)
    → IsStarting j db
    → IsStarting j (update_state now b s db).1
      ⊎ (((update_state now b s db).0 ≡ true) × ((j == b) ≡ true) × (4 ≤ ordinal (status s)))
IsStarting-update_state now b j s db (row, found, lt) =
    elim (Bool-cases (update_state now b s db).0) [
      | inl taken ↦ elim (Bool-cases (b == j)) [
        | inl same ↦ elim (starting_or_final now s row lt) [
          | inl lt' ↦ inl (updated now s row, at_same same, lt')
          | inr final ↦ inr (taken, ground (arith, same), final)
        ]
        | inr other ↦ inl (row, at_other other, lt)
      ]
      | inr refused ↦ inl (rw (update_state_refused now b s db refused) (row, found, lt))
    ]
  where
    at_same : (b == j) ≡ true → backend j (update_state now b s db).1 ≡ some (updated now s row)
    at_same same = backend-update_state now b j s db ∙ (rw same (rw found refl))

    at_other : (b == j) ≡ false → backend j (update_state now b s db).1 ≡ some row
    at_other other = backend-update_state now b j s db ∙ (rw other found)
