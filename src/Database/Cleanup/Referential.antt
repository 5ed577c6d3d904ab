-- ===== src/Database/Cleanup/Referential.antt =====
-- What the clean-up leaves (`cleanup` of plane/src/database/backend.rs): the foreign keys to the
-- table of backends, and the backends that are not old.
use plane.Prelude.{
  Bool, List, arith, false, filterb, ltb, not, refl, sym, subst, true, ℕ, [], ◌&&◌, ◌==◌, ◌∙◌, ◌∷◌,
  ◌≡◌, Bool-cases, inl, inr, ==_iff, Option, none, some,
}
use plane.Prelude.Rows.{any-filterb, any-take, any_where, delete_where}
use plane.Database.{ActionRow, BackendRow, Database, KeyRow, TokenRow, BackendState}
use plane.Database.Backend.{is_terminated_status}
use plane.Database.Events.{Event}
use plane.Database.Cleanup.{
  clean_up_tokens, cleanup, delete_backends, deleted_backend, has_row, is_old_backend, run_cleanup,
}

-- A backend that is not deleted is still there.
has_row-delete :
    (b : ℕ) (deleted rows : List BackendRow)
    → has_row b deleted ≡ false
    → has_row b (delete_where (λ (row : BackendRow). has_row row.id deleted) rows) ≡ has_row b rows
unfolding any_where delete_where filterb
has_row-delete b deleted [] h = refl
has_row-delete b deleted (row ∷ rows) h =
    let rest = has_row-delete b deleted rows h in
    elim (Bool-cases (row.id == b)) [
      | inl same ↦
          let at_row : has_row row.id deleted ≡ false =
            subst (λ (i : ℕ). has_row i deleted ≡ false) (sym ((==_iff row.id b).0 same)) h in
          ground (arith, at_row, same, rest)
      | inr other ↦ elim (Bool-cases (has_row row.id deleted)) [
        | inl gone ↦ ground (arith, gone, other, rest)
        | inr stays ↦ ground (arith, stays, other, rest)
      ]
    ]

module _ {A : Type 0} (ref : A → ℕ) where
  abbrev is_dangling : List BackendRow → A → Bool
  is_dangling backends x = not (has_row (ref x) backends)

  -- Rows that refer to backends, when the backends of `deleted` go and of the rows the ones that
  -- `goes` names, all the ones of a deleted backend among them.
  any-dangling :
      (goes : A → Bool) (deleted backends : List BackendRow) (xs : List A)
      → any_where (λ x. has_row (ref x) deleted && not (goes x)) xs ≡ false
      → any_where (is_dangling backends) xs ≡ false
      → any_where
          (is_dangling (delete_where (λ (row : BackendRow). has_row row.id deleted) backends))
          (delete_where goes xs)
        ≡ false
  unfolding any_where delete_where filterb
  any-dangling goes deleted backends [] h g = refl
  any-dangling goes deleted backends (x ∷ xs) h g =
      let rest = any-dangling goes deleted backends xs (ground (arith, h)) (ground (arith, g)) in
      elim (Bool-cases (has_row (ref x) deleted)) [
        | inl gone ↦ ground (arith, h, gone, rest)
        | inr stays ↦ ground (arith, g, rest, has_row-delete (ref x) deleted backends stays)
      ]

-- No row refers to a backend that is not there.
unfoldable pub IsReferential : Database → Type 0
IsReferential db =
    (any_where (is_dangling (λ (t : TokenRow). t.backend_id) db.backend) db.token ≡ false)
    × (any_where (is_dangling (λ (a : ActionRow). a.backend_id) db.backend) db.backend_action
        ≡ false)
    × (any_where (is_dangling (λ (k : KeyRow). k.id) db.backend) db.backend_key ≡ false)
    × (any_where (is_dangling (λ (e : ℕ × BackendState). e.0) db.backend) db.backend_state ≡ false)

-- A key whose backend is in `deleted` and that has not expired.
abbrev is_held_key : ℕ → List BackendRow → KeyRow → Bool
is_held_key now deleted k = has_row k.id deleted && not (ltb k.expires_at now)

any_contradiction :
    {A : Type 0} (p : A → Bool) (xs : List A) → any_where (λ x. p x && not (p x)) xs ≡ false
unfolding any_where
any_contradiction p [] = refl
any_contradiction p (x ∷ xs) = ground (arith, any_contradiction p xs)

any_held :
    (now : ℕ) (deleted : List BackendRow) (keys : List KeyRow)
    → any_where (is_held_key now deleted) keys ≡ false
    → any_where
        (λ (k : KeyRow). has_row k.id deleted && not (has_row k.id deleted && ltb k.expires_at now))
        keys
      ≡ false
unfolding any_where
any_held now deleted [] h = refl
any_held now deleted (k ∷ keys) h =
    let rest = any_held now deleted keys (ground (arith, h)) in
    elim (Bool-cases (has_row k.id deleted)) [
      | inl gone ↦ ground (arith, h, gone, rest)
      | inr stays ↦ ground (arith, stays, rest)
    ]

-- Deleting backends with what refers to them leaves no dangling reference, if no key of a deleted
-- backend is still held.
delete_backends-IsReferential :
    (now : ℕ) (deleted : List BackendRow) (db : Database)
    → any_where (is_held_key now deleted) db.backend_key ≡ false
    → IsReferential db
    → IsReferential (delete_backends now deleted db)
unfolding IsReferential delete_backends
delete_backends-IsReferential now deleted db h (t, a, k, s) = (
  any-dangling _ _ deleted db.backend db.token (any_contradiction _ db.token) t,
  any-dangling _ _ deleted db.backend db.backend_action (any_contradiction _ db.backend_action) a,
  any-dangling _ _ deleted db.backend db.backend_key (any_held now deleted db.backend_key h) k,
  any-dangling _ _ deleted db.backend db.backend_state (any_contradiction _ db.backend_state) s,
)

any-filterb-false :
    {A : Type 0} (p q : A → Bool) (xs : List A)
    → any_where p xs ≡ false
    → any_where p (filterb q xs) ≡ false
unfolding any_where filterb
any-filterb-false p q [] h = refl
any-filterb-false p q (x ∷ xs) h =
    let rest = any-filterb-false p q xs (ground (arith, h)) in
    elim (Bool-cases (q x)) [
      | inl stays ↦ ground (arith, h, stays, rest)
      | inr goes ↦ ground (arith, goes, rest)
    ]

clean_up_tokens-IsReferential :
    (now : ℕ) (db : Database) → IsReferential db → IsReferential (clean_up_tokens now db)
unfolding IsReferential clean_up_tokens delete_where
clean_up_tokens-IsReferential now db (t, a, k, s) = (any-filterb-false _ _ db.token t, a, k, s)

any-imply :
    {A : Type 0} (p q : A → Bool) (xs : List A)
    → ((x : A) → p x ≡ true → q x ≡ true)
    → any_where q xs ≡ false
    → any_where p xs ≡ false
unfolding any_where
any-imply p q [] sub h = refl
any-imply p q (x ∷ xs) sub h =
    let rest = any-imply p q xs sub (ground (arith, h)) in
    elim (Bool-cases (p x)) [
      | inl holds ↦ ground (arith, h, sub x holds)
      | inr fails ↦ ground (arith, fails, rest)
    ]

-- The backend `b` is terminated.
abbrev has_terminated : ℕ → List BackendRow → Bool
has_terminated b rows =
    any_where (λ (row : BackendRow). row.id == b && is_terminated_status row.last_status) rows

-- A key that has not expired and that belongs to a terminated backend.
abbrev is_leaked_key : ℕ → List BackendRow → KeyRow → Bool
is_leaked_key now backends k = has_terminated k.id backends && not (ltb k.expires_at now)

module _ (choose : List BackendRow → List BackendRow)
    (same_rows : (p : BackendRow → Bool) (rows : List BackendRow)
      → any_where p (choose rows) ≡ any_where p rows) where
  -- A backend of `deleted_backend` is old.
  has_row-deleted :
      (now min_age_days batch_size b : ℕ) (db : Database)
      → any_where
          (λ (row : BackendRow). is_old_backend now min_age_days row && row.id == b)
          db.backend
        ≡ false
      → has_row b (deleted_backend choose now min_age_days batch_size db) ≡ false
  unfolding deleted_backend
  has_row-deleted now min_age_days batch_size b db h =
      any-take (λ (row : BackendRow). row.id == b) batch_size _
        (same_rows _ (filterb (is_old_backend now min_age_days) db.backend)
          ∙ any-filterb _ (is_old_backend now min_age_days) db.backend
          ∙ h)

  old_leaked :
      (now min_age_days batch_size : ℕ) (db : Database) (k : KeyRow)
      → is_held_key now (deleted_backend choose now min_age_days batch_size db) k ≡ true
      → is_leaked_key now db.backend k ≡ true
  old_leaked now min_age_days batch_size db k h =
      elim (Bool-cases (has_terminated k.id db.backend)) [
        | inl holds ↦ ground (arith, h, holds)
        | inr fails ↦
            let kept =
              has_row-deleted now min_age_days batch_size k.id db
                (any-imply _ _ db.backend (λ row r. ground (arith, r)) fails) in
            ground (arith, h, kept)
      ]

  cleanup-IsReferential :
      (now min_age_days batch_size : ℕ) (db : Database)
      → any_where (is_leaked_key now db.backend) db.backend_key ≡ false
      → IsReferential db
      → IsReferential (cleanup choose now min_age_days batch_size db)
  unfolding cleanup
  cleanup-IsReferential now min_age_days batch_size db h =
      delete_backends-IsReferential now _ db
        (any-imply _ _ db.backend_key (old_leaked now min_age_days batch_size db) h)

  -- If no row refers to a backend that is not there, and no terminated backend holds a key that has
  -- not expired, then after a clean-up no row refers to a backend that is not there. The database
  -- may choose the old backends of a round in any order.
  pub run_cleanup-IsReferential :
      (now : ℕ) (min_age_days batch_size : Option ℕ) (db : Database) (events : List Event)
      → any_where (is_leaked_key now db.backend) db.backend_key ≡ false
      → IsReferential db
      → IsReferential (run_cleanup choose now min_age_days batch_size (db, events)).0
  unfolding run_cleanup
  run_cleanup-IsReferential now none batch_size db events h r =
      clean_up_tokens-IsReferential now db r
  run_cleanup-IsReferential now (some min_age_days) batch_size db events h r =
      clean_up_tokens-IsReferential now _ (cleanup-IsReferential now min_age_days _ db h r)

  -- A backend that is not terminated, or not for long enough, is there after the clean-up if it
  -- was there before.
  has_row-cleanup :
      (now min_age_days batch_size b : ℕ) (db : Database)
      → any_where
          (λ (row : BackendRow). is_old_backend now min_age_days row && row.id == b)
          db.backend
        ≡ false
      → has_row b (cleanup choose now min_age_days batch_size db).backend ≡ has_row b db.backend
  unfolding cleanup delete_backends
  has_row-cleanup now min_age_days batch_size b db h =
      has_row-delete b _ db.backend (has_row-deleted now min_age_days batch_size b db h)
