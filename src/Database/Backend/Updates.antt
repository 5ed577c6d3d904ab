-- ===== src/Database/Backend/Updates.antt =====
-- States of a backend arrive at plane/src/database/backend.rs in any order, late and more than
-- once.
use Prim.Native.Nat.{max}
use mathlib.Core.Option
use plane.Prelude.{
  ==_refl, All, Bool, Bool-cases, List, Option, [], arith, false, find, if◌then◌else◌, inl, inr,
  none, refl, some, ℕ, ◌++◌, ◌==◌, ◌∷◌, ◌≡◌, true, ◌&&◌,
}
use plane.Prelude.Rows.{any_where, delete_where, update_where, update_where-none}
use plane.BackendState.{BackendState, status, as_int, address, is_terminated}
use plane.Database.{BackendRow, Database, KeyRow}
use plane.Database.Backend.{
  accepts, backend, emit_state_change, is_before, update_state, with_state,
}

-- What an update makes of a row of its backend.
abbrev pub updated : ℕ → BackendState → BackendRow → BackendRow
updated now s row =
    if is_before row.last_status_number (as_int (status s)) then with_state now s row else row

abbrev at_id : ℕ → BackendRow → Bool
at_id b row = row.id == b

find-update_where :
    (now b j : ℕ) (s : BackendState) (rows : List BackendRow)
    → find (at_id j) (update_where (accepts b (as_int (status s))) (with_state now s) rows)
      ≡ (if b == j then Option.map (updated now s) (find (at_id j) rows) else find (at_id j) rows)
unfolding find update_where
find-update_where now b j s [] = ground arith
find-update_where now b j s (row ∷ rows) = ground (arith, find-update_where now b j s rows)

-- After an update the row of its backend has the new state, or is as it was where it had a status
-- that is not before the new one; every other row is as it was.
pub backend-update_state :
    (now b j : ℕ) (s : BackendState) (db : Database)
    → backend j (update_state now b s db).1
      ≡ (if b == j then Option.map (updated now s) (backend j db) else backend j db)
unfolding update_state backend
backend-update_state now b j s db =
    elim (Bool-cases (any_where (accepts b (as_int (status s))) db.backend)) [
      | inl some_row ↦ rw some_row (find-update_where now b j s db.backend)
      | inr no_row ↦ rw no_row (
          rw (update_where-none _ (with_state now s) db.backend no_row) at
            (find-update_where now b j s db.backend))
    ]

-- Messages of one backend with the times at which they are handled.
unfoldable pub receive : ℕ → List (ℕ × BackendState) → Database → Database
receive b [] db = db
receive b ((now, s) ∷ messages) db = receive b messages (update_state now b s db).1

abbrev pub highest : ℕ → List (ℕ × BackendState) → ℕ
highest n [] = n
highest n ((now, s) ∷ messages) = highest (max n (as_int (status s))) messages

abbrev pub number_of : Option BackendRow → Option ℕ
number_of none = none
number_of (some row) = row.last_status_number

number_of-updated :
    (now n : ℕ) (s : BackendState) (o : Option BackendRow)
    → number_of o ≡ some n
    → number_of (Option.map (updated now s) o) ≡ some (max n (as_int (status s)))
number_of-updated now n s none h = cc
number_of-updated now n s (some row) h = ground arith

-- Whatever the order in which a backend's states arrive, and however often, its row ends with the
-- highest of their status numbers and of the one that it had.
pub receive-highest :
    (b n : ℕ) (messages : List (ℕ × BackendState)) (db : Database)
    → number_of (backend b db) ≡ some n
    → number_of (backend b (receive b messages db)) ≡ some (highest n messages)
unfolding receive
receive-highest b n [] db h = h
receive-highest b n ((now, s) ∷ messages) db h =
    receive-highest b (max n (as_int (status s))) messages (update_state now b s db).1 (
      rw (backend-update_state now b b s db)
        (rw ==_refl (number_of-updated now n s (backend b db) h)))

-- The columns of a row that an update writes agree with its state.
pub record IsCoherent (row : BackendRow) : Type 0 where
  pub last_status : row.last_status ≡ status row.state
  pub last_status_number : row.last_status_number ≡ some (as_int (status row.state))
  pub cluster_address : row.cluster_address ≡ address row.state

AllCoherent-update_where :
    (now b : ℕ) (s : BackendState) (rows : List BackendRow)
    → All IsCoherent rows
    → All IsCoherent (update_where (accepts b (as_int (status s))) (with_state now s) rows)
unfolding update_where
AllCoherent-update_where now b s [] h = h
AllCoherent-update_where now b s (row ∷ rows) h = (
  elim (Bool-cases (accepts b (as_int (status s)) row)) [
    | inl taken ↦
        rw taken (record { last_status = refl; last_status_number = refl; cluster_address = refl })
    | inr left ↦ rw left h.0
  ],
  AllCoherent-update_where now b s rows h.1,
)

-- An update leaves the status, the number and the address of every row in agreement with its
-- state.
pub update_state-IsCoherent :
    (now b : ℕ) (s : BackendState) (db : Database)
    → All IsCoherent db.backend
    → All IsCoherent (update_state now b s db).1.backend
unfolding update_state
update_state-IsCoherent now b s db h =
    elim (Bool-cases (any_where (accepts b (as_int (status s))) db.backend)) [
      | inl some_row ↦ rw some_row (AllCoherent-update_where now b s db.backend h)
      | inr no_row ↦ rw no_row h
    ]

any_where-delete_where {ℓ} :
    {A : Type ℓ} (p : A → Bool) (xs : List A) → any_where p (delete_where p xs) ≡ false
unfolding any_where delete_where
any_where-delete_where p [] = refl
any_where-delete_where p (x ∷ xs) = ground (arith, any_where-delete_where p xs)

-- An accepted update is logged and emitted once; one with a terminated state takes the key from
-- the backend, and no other update changes whether the backend has a key.
pub update_state_effects :
    (now b : ℕ) (s : BackendState) (db : Database)
    → let (taken, db') = update_state now b s db in
      (db'.backend_state ≡ (if taken then db.backend_state ++ (b, s) ∷ [] else db.backend_state))
      × (db'.emitted ≡ (if taken then db.emitted ++ (b, s) ∷ [] else db.emitted))
      × (any_where (λ (k : KeyRow). k.id == b) db'.backend_key ≡ (
          if taken && is_terminated s
          then false
          else any_where (λ (k : KeyRow). k.id == b) db.backend_key))
unfolding update_state emit_state_change
update_state_effects now b s db =
    elim (Bool-cases (any_where (accepts b (as_int (status s))) db.backend)) [
      | inl some_row ↦ rw some_row (refl, refl, keys (is_terminated s))
      | inr no_row ↦ rw no_row (refl, refl, refl)
    ]
  where
    held : KeyRow → Bool
    held k = k.id == b

    keys :
        (ended : Bool)
        → any_where held (if ended then delete_where held db.backend_key else db.backend_key)
          ≡ (if ended then false else any_where held db.backend_key)
    keys true = any_where-delete_where held db.backend_key
    keys false = refl

-- A refused update changes nothing.
pub update_state_refused :
    (now b : ℕ) (s : BackendState) (db : Database)
    → (update_state now b s db).0 ≡ false
    → (update_state now b s db).1 ≡ db
unfolding update_state
update_state_refused now b s db h = ground arith
