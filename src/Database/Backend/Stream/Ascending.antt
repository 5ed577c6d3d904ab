-- ===== src/Database/Backend/Stream/Ascending.antt =====
-- The log of a backend's states, which `update_state` of plane/src/database/backend.rs writes,
-- ascends.
use plane.Prelude.{
  All, All-append, List, Option, [], append_nil, arith, filterb, filterb-append, if◌then◌else◌,
  none, some, ℕ, ◌++◌, ◌<◌, ◌==◌, ◌∙◌, ◌∷◌, ◌≡◌, ◌≤◌, All-map, Bool-cases, inl, inr, ltb, ltb→lt,
  refl, subst, sym, true, false, map,
}
use plane.BackendState.{BackendState, as_int, status, ordinal}
use plane.Prelude.Rows.{any_where, update_where}
use plane.Database.{BackendRow, Database}
use plane.BackendState.Order.{as_int-lt_iff}
use plane.Database.Backend.Stream.{StateNotice, status_stream}
use plane.Database.Backend.Stream.Complete.{Ascending, entry_of, row_of, status_stream_complete}
use plane.Database.Backend.{
  accepts, any_where, with_state, is_before, update_state, emit_state_change,
}

abbrev logged : ℕ → List (ℕ × BackendState) → List (ℕ × BackendState)
logged b log = filterb (λ (e : ℕ × BackendState). e.0 == b) log

abbrev number : ℕ × BackendState → ℕ
number e = as_int (status e.1)

-- Each entry has a number below that of the next.
abbrev pub Ascends : List (ℕ × BackendState) → Type 0
Ascends [] = Unit
Ascends (e ∷ es) = All (λ f. number e < number f) es × Ascends es

-- `n` is the number of a row of the backend; where it is null nothing was logged.
abbrev Covers : Option ℕ → List (ℕ × BackendState) → Type 0
Covers none es = es ≡ []
Covers (some n) es = All (λ e. number e ≤ n) es

pub record IsLogged (b : ℕ) (db : Database) : Type 0 where
  pub ascends : Ascends (logged b db.backend_state)
  pub covered :
      All
        (λ (row : BackendRow).
          row.id ≡ b → Covers row.last_status_number (logged b db.backend_state))
        db.backend

Ascends-snoc :
    (es : List (ℕ × BackendState)) (f : ℕ × BackendState)
    → Ascends es
    → All (λ e. number e < number f) es
    → Ascends (es ++ f ∷ [])
Ascends-snoc [] f a h = (tt, tt)
Ascends-snoc (e ∷ es) f (a, rest) (h, hs) =
    (All-append (λ g. number e < number g) es (f ∷ []) a (h, tt), Ascends-snoc es f rest hs)

logged-snoc :
    (b j : ℕ) (s : BackendState) (log : List (ℕ × BackendState))
    → logged j (log ++ (b, s) ∷ []) ≡ (if b == j then logged j log ++ (b, s) ∷ [] else logged j log)
unfolding filterb
logged-snoc b j s log =
    filterb-append _ log ((b, s) ∷ []) ∙ ground (arith, append_nil (logged j log))

==_eq : (a b : ℕ) → a ≡ b → (a == b) ≡ true
==_eq a b h = ground arith

-- An update is accepted only where everything logged is below it.
accepted_above :
    (b n : ℕ) (es : List (ℕ × BackendState)) (row : BackendRow)
    → (row.id ≡ b → Covers row.last_status_number es)
    → accepts b n row ≡ true
    → All (λ e. number e < n) es
accepted_above b n es row c h = go row.last_status_number (c (ground arith)) (ground arith)
  where
    go : (o : Option ℕ) → Covers o es → is_before o n ≡ true → All (λ e. number e < n) es
    go none nil before = subst (All (λ e. number e < n)) (sym nil) tt
    go (some m) le before =
        All-map (λ e. number e ≤ m) (λ e. number e < n) (λ e h. omega (arith, ltb→lt m n before, h))
          es le

any-accepted_above :
    (b n : ℕ) (es : List (ℕ × BackendState)) (rows : List BackendRow)
    → All (λ (row : BackendRow). row.id ≡ b → Covers row.last_status_number es) rows
    → any_where (accepts b n) rows ≡ true
    → All (λ e. number e < n) es
unfolding any_where
any-accepted_above b n es [] c h = cc
any-accepted_above b n es (row ∷ rows) (c, cs) h = elim (Bool-cases (accepts b n row)) [
  | inl taken ↦ accepted_above b n es row c taken
  | inr left ↦ any-accepted_above b n es rows cs (rw left at h)
]

-- The row that takes the state covers it, and one that refuses it has a number that does.
Covers-updated :
    (now b : ℕ) (s : BackendState) (es : List (ℕ × BackendState)) (row : BackendRow)
    → All (λ e. number e < as_int (status s)) es
    → row.id ≡ b
    → Covers row.last_status_number es
    → Covers
        (if accepts b (as_int (status s)) row then with_state now s row else row).last_status_number
        (es ++ (b, s) ∷ [])
Covers-updated now b s es row below id_eq c =
    rw (==_eq row.id b id_eq) (go row.last_status_number refl c)
  where
    with_new : (m : ℕ) → as_int (status s) ≤ m → All (λ e. number e ≤ m) (es ++ (b, s) ∷ [])
    with_new m le =
        All-append (λ e. number e ≤ m) es ((b, s) ∷ [])
          (All-map (λ e. number e < as_int (status s)) (λ e. number e ≤ m)
            (λ e h. omega (arith, h, le)) es below)
          (le, tt)

    go :
        (o : Option ℕ)
        → row.last_status_number ≡ o
        → Covers o es
        → Covers
            (if is_before row.last_status_number (as_int (status s))
              then with_state now s row
              else row).last_status_number
            (es ++ (b, s) ∷ [])
    go none e c = rw e (with_new (as_int (status s)) (omega arith))
    go (some m) e c = elim (Bool-cases (ltb m (as_int (status s)))) [
      | inl lt ↦ rw e (rw lt (with_new (as_int (status s)) (omega arith)))
      | inr ge ↦ rw e (rw ge (with_new m (ground arith)))
    ]

keeps_id :
    (now b : ℕ) (s : BackendState) (row : BackendRow)
    → (if accepts b (as_int (status s)) row then with_state now s row else row).id ≡ row.id
keeps_id now b s row = ground arith

other_number :
    (now b j : ℕ) (s : BackendState) (row : BackendRow)
    → ¬ (b ≡ j)
    → row.id ≡ j
    → (if accepts b (as_int (status s)) row then with_state now s row else row).last_status_number
      ≡ row.last_status_number
other_number now b j s row ne h = ground arith

Covers-update_where :
    (now b j : ℕ) (s : BackendState) (es es' : List (ℕ × BackendState)) (rows : List BackendRow)
    → ((row : BackendRow)
        → (row.id ≡ j → Covers row.last_status_number es)
        → row.id ≡ j
        → Covers
            (if accepts b (as_int (status s)) row
              then with_state now s row
              else row).last_status_number
            es')
    → All (λ (row : BackendRow). row.id ≡ j → Covers row.last_status_number es) rows
    → All
        (λ (row : BackendRow). row.id ≡ j → Covers row.last_status_number es')
        (update_where (accepts b (as_int (status s))) (with_state now s) rows)
unfolding update_where
Covers-update_where now b j s es es' [] f c = tt
Covers-update_where now b j s es es' (row ∷ rows) f (c, cs) =
    (λ h. f row c (sym (keeps_id now b s row) ∙ h), Covers-update_where now b j s es es' rows f cs)

taken-IsLogged :
    (now b j : ℕ) (s : BackendState) (db : Database)
    → any_where (accepts b (as_int (status s))) db.backend ≡ true
    → IsLogged j db
    → IsLogged j (update_state now b s db).1
unfolding update_state emit_state_change
taken-IsLogged now b j s db some_row i = elim (Bool-cases (b == j)) [
  | inl same ↦ rw some_row (record { ascends = ascends_same same; covered = covered_same same })
  | inr other ↦
      rw some_row (record { ascends = ascends_other other; covered = covered_other other })
]
  where
    es : List (ℕ × BackendState)
    es = logged j db.backend_state

    es' : List (ℕ × BackendState)
    es' = logged j (db.backend_state ++ (b, s) ∷ [])

    same_eq : (b == j) ≡ true → es' ≡ es ++ (b, s) ∷ []
    same_eq h = logged-snoc b j s db.backend_state ∙ (rw h refl)

    other_eq : (b == j) ≡ false → es' ≡ es
    other_eq h = logged-snoc b j s db.backend_state ∙ (rw h refl)

    below : (b == j) ≡ true → All (λ e. number e < as_int (status s)) es
    below h =
        any-accepted_above b (as_int (status s)) es db.backend
          (subst
            (λ n.
              All (λ (row : BackendRow). row.id ≡ n → Covers row.last_status_number es) db.backend)
            (ground (arith, h)) i.covered)
          some_row

    ascends_same : (b == j) ≡ true → Ascends es'
    ascends_same h = rw (same_eq h) (Ascends-snoc es (b, s) i.ascends (below h))

    ascends_other : (b == j) ≡ false → Ascends es'
    ascends_other h = rw (other_eq h) i.ascends

    rows : List BackendRow
    rows = update_where (accepts b (as_int (status s))) (with_state now s) db.backend

    covered_same :
        (b == j) ≡ true
        → All (λ (row : BackendRow). row.id ≡ j → Covers row.last_status_number es') rows
    covered_same h =
        Covers-update_where now b j s es es' db.backend
          (λ row c id_eq.
            subst (Covers _) (sym (same_eq h))
              (Covers-updated now b s es row (below h) (id_eq ∙ (ground (arith, h))) (c id_eq)))
          i.covered

    covered_other :
        (b == j) ≡ false
        → All (λ (row : BackendRow). row.id ≡ j → Covers row.last_status_number es') rows
    covered_other h =
        Covers-update_where now b j s es es' db.backend
          (λ row c id_eq.
            rw (other_number now b j s row (ground (arith, h)) id_eq)
              (subst (Covers _) (sym (other_eq h)) (c id_eq)))
          i.covered

-- An update keeps the states that are logged of each backend ascending, below the status numbers
-- of the backend's rows; whatever it is called with.
pub update_state-IsLogged :
    (now b j : ℕ) (s : BackendState) (db : Database)
    → IsLogged j db
    → IsLogged j (update_state now b s db).1
unfolding update_state
update_state-IsLogged now b j s db i =
    elim (Bool-cases (any_where (accepts b (as_int (status s))) db.backend)) [
      | inl some_row ↦ taken-IsLogged now b j s db some_row i
      | inr no_row ↦ rw no_row i
    ]

abbrev row_log : ℕ → List StateNotice → List (ℕ × BackendState)
row_log b ns = map (λ (n : StateNotice). (b, n.payload)) ns

Ascending-of_Ascends : (b : ℕ) (ns : List StateNotice) → Ascends (row_log b ns) → Ascending ns
Ascending-of_Ascends b [] a = tt
Ascending-of_Ascends b (n ∷ ns) (h, a) = (all_after ns h, Ascending-of_Ascends b ns a)
  where
    all_after :
        (ms : List StateNotice)
        → All (λ e. as_int (status n.payload) < number e) (row_log b ms)
        → All (λ (m : StateNotice). ordinal (status n.payload) < ordinal (status m.payload)) ms
    all_after [] k = tt
    all_after (m ∷ ms) (k, ks) =
        ((as_int-lt_iff (status n.payload) (status m.payload)).0 k, all_after ms ks)

-- A client that watches a backend is shown each state that the updates have logged of it, once and
-- in order: those that it reads, `before` and `both`, and those that it is notified of, `both` and
-- `later`. The log is any that the updates keep.
pub status_stream-IsLogged :
    (b : ℕ) (db : Database) (before both later : List StateNotice)
    → IsLogged b db
    → logged b db.backend_state ≡ row_log b (before ++ (both ++ later))
    → status_stream (map row_of (before ++ both)) (both ++ later)
      ≡ map entry_of (before ++ (both ++ later))
status_stream-IsLogged b db before both later i log =
    status_stream_complete before both later
      (Ascending-of_Ascends b (before ++ (both ++ later)) (subst Ascends log i.ascends))
