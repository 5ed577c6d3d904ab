-- ===== src/Controller/DroneSocket/Sweeping/Overdue.antt =====
-- The backends that `termination_candidates` of plane/src/database/backend.rs finds for a sweep.
use plane.Prelude.{
  Bool, false, true, ℕ, ◌&&◌, ◌==◌, List, [], ap, arith, refl, ◌||◌, ◌∙◌, ◌∷◌, ◌≡◌, Option, none,
  some, ◌<◌, ◌+◌, ◌*◌, ◌⊎◌, inl, inr, ◌↔◌, ◌≢◌, filterb, Bool-cases, sym, ==_iff, not,
}
use mathlib.Core.List.{Memᴰ}
use mathlib.Core.List.Memᴰ
use plane.Prelude.Rows.{any-filterb, any_where}
use plane.BackendState.{BackendStatus}
use plane.Database.Backend.{
  idle_too_long, is_candidate, is_scheduled_status, is_terminated_status, past,
  termination_candidates,
}
use plane.Database.{BackendRow, Database}

-- Since its last keepalive a backend has been idle for longer than it may be.
abbrev IsIdle : ℕ → ℕ → Option ℕ → Type 0
IsIdle now last_keepalive none = ⊥
IsIdle now last_keepalive (some seconds) = last_keepalive + seconds * 1_000_000_000 < now

abbrev IsPast : ℕ → Option ℕ → Type 0
IsPast now none = ⊥
IsPast now (some t) = t < now

-- The drone should terminate the backend: it has been started and not terminated, and it is idle or
-- has expired.
abbrev pub IsOverdue : ℕ → ℕ → BackendRow → Type 0
IsOverdue now drone row =
    (row.drone_id ≡ drone)
    × (row.last_status ≢ BackendStatus.scheduled)
    × (row.last_status ≢ BackendStatus.terminated)
    × (IsIdle now row.last_keepalive row.allowed_idle_seconds ⊎ IsPast now row.expiration_time)

IsIdle-iff :
    (now last_keepalive : ℕ) (o : Option ℕ)
    → (idle_too_long now last_keepalive o ≡ true) ↔ IsIdle now last_keepalive o
IsIdle-iff now last_keepalive none = (λ h. cc, λ h. absurd h)
IsIdle-iff now last_keepalive (some t) = (λ h. ground (arith, h), λ h. ground (arith, h))

IsPast-iff : (now : ℕ) (o : Option ℕ) → (past now o ≡ true) ↔ IsPast now o
IsPast-iff now none = (λ h. cc, λ h. absurd h)
IsPast-iff now (some t) = (λ h. ground (arith, h), λ h. ground (arith, h))

status_iff :
    (s : BackendStatus)
    → (not (is_scheduled_status s || is_terminated_status s) ≡ true)
      ↔ ((s ≢ BackendStatus.scheduled) × (s ≢ BackendStatus.terminated))
status_iff s = ground arith

and_iff : (a b : Bool) → ((a && b) ≡ true) ↔ ((a ≡ true) × (b ≡ true))
and_iff a b = ground arith

pub or_iff : (a b : Bool) → ((a || b) ≡ true) ↔ ((a ≡ true) ⊎ (b ≡ true))
or_iff true b = (λ h. inl refl, λ h. refl)
or_iff false b = (λ h. inr h, λ h. elim h [ inl e ↦ cc | inr e ↦ e ])

is_candidate-IsOverdue :
    (now drone : ℕ) (row : BackendRow)
    → (is_candidate now drone row ≡ true) ↔ IsOverdue now drone row
is_candidate-IsOverdue now drone row = (overdue, candidate)
  where
    idle : Bool
    idle = idle_too_long now row.last_keepalive row.allowed_idle_seconds

    late : Bool
    late = past now row.expiration_time

    started : Bool
    started = not (is_scheduled_status row.last_status || is_terminated_status row.last_status)

    overdue : is_candidate now drone row ≡ true → IsOverdue now drone row
    overdue h =
        let (at_drone, rest) = (and_iff (row.drone_id == drone) (started && (idle || late))).0 h in
        let (runs, why) = (and_iff started (idle || late)).0 rest in
        let (not_scheduled, not_terminated) = (status_iff row.last_status).0 runs in
        (
          (==_iff row.drone_id drone).0 at_drone,
          not_scheduled,
          not_terminated,
          elim ((or_iff idle late).0 why) [
            | inl e ↦ inl ((IsIdle-iff now row.last_keepalive row.allowed_idle_seconds).0 e)
            | inr e ↦ inr ((IsPast-iff now row.expiration_time).0 e)
          ],
        )

    reason :
        IsIdle now row.last_keepalive row.allowed_idle_seconds ⊎ IsPast now row.expiration_time
        → (idle ≡ true) ⊎ (late ≡ true)
    reason (inl e) = inl ((IsIdle-iff now row.last_keepalive row.allowed_idle_seconds).1 e)
    reason (inr e) = inr ((IsPast-iff now row.expiration_time).1 e)

    candidate : IsOverdue now drone row → is_candidate now drone row ≡ true
    candidate (at_drone, not_scheduled, not_terminated, why) =
        (and_iff (row.drone_id == drone) (started && (idle || late))).1 (
          (==_iff row.drone_id drone).1 at_drone,
          (and_iff started (idle || late)).1 (
            (status_iff row.last_status).1 (not_scheduled, not_terminated),
            (or_iff idle late).1 (reason why),
          ),
        )

any_found :
    {A : Type 0} (p : A → Bool) (xs : List A)
    → any_where p xs ≡ true
    → (x : A) × Memᴰ x xs × (p x ≡ true)
unfolding any_where
any_found p [] h = cc
any_found p (x ∷ xs) h = elim (Bool-cases (p x)) [
  | inl here ↦ (x, Memᴰ.head refl, here)
  | inr later ↦ let (y, m, e) = any_found p xs (ground (arith, h, later)) in (y, Memᴰ.tail m, e)
]

found_any :
    {A : Type 0} (p : A → Bool) (x : A) (xs : List A)
    → Memᴰ x xs
    → p x ≡ true
    → any_where p xs ≡ true
unfolding any_where
found_any p x [] m h = absurd (Memᴰ.not-nil m)
found_any p x (y ∷ ys) m h = elim (Memᴰ.cases_cons m) [
  | inl same ↦ let e = ap p same in ground (arith, e, h)
  | inr k ↦ ground (arith, found_any p x ys k h)
]

-- Among the candidates is just a backend that is overdue.
pub candidate_iff :
    (now drone b : ℕ) (db : Database)
    → (any_where (λ (row : BackendRow). row.id == b) (termination_candidates now drone db) ≡ true)
      ↔ ((row : BackendRow) × Memᴰ row db.backend × (row.id ≡ b) × IsOverdue now drone row)
unfolding termination_candidates
candidate_iff now drone b db = (overdue, candidate)
  where
    same_rows :
        any_where (λ (row : BackendRow). row.id == b) (filterb (is_candidate now drone) db.backend)
        ≡ any_where (λ (row : BackendRow). is_candidate now drone row && row.id == b) db.backend
    same_rows = any-filterb _ (is_candidate now drone) db.backend

    overdue :
        any_where (λ (row : BackendRow). row.id == b) (filterb (is_candidate now drone) db.backend)
          ≡ true
        → (row : BackendRow) × Memᴰ row db.backend × (row.id ≡ b) × IsOverdue now drone row
    overdue h =
        let (row, m, e) = any_found _ db.backend (sym same_rows ∙ h) in
        let (due, same) = (and_iff (is_candidate now drone row) (row.id == b)).0 e in
        (row, m, (==_iff row.id b).0 same, (is_candidate-IsOverdue now drone row).0 due)

    candidate :
        ((row : BackendRow) × Memᴰ row db.backend × (row.id ≡ b) × IsOverdue now drone row)
        → any_where
            (λ (row : BackendRow). row.id == b)
            (filterb (is_candidate now drone) db.backend)
          ≡ true
    candidate (row, m, same, due) =
        same_rows
        ∙ found_any _ row db.backend m (
            (and_iff (is_candidate now drone row) (row.id == b)).1
              ((is_candidate-IsOverdue now drone row).1 due, (==_iff row.id b).1 same))
