-- ===== src/Database/Keys/Unique.antt =====
-- No two backends hold one key, and no backend holds two: the primary key and the unique index of
-- the table `backend_key` in plane/schema/derived_schema.sql.
use plane.Prelude.{
  Bool, Bool-cases, List, [], arith, false, inl, inr, refl, ◌&&◌, ◌==◌, ◌||◌, ◌∙◌, ◌∷◌, ◌≡◌,
  if◌then◌else◌, true, ℕ,
}
use plane.Prelude.Rows.{any_where, delete_where, update_where}
use plane.BackendState.{BackendState, status, as_int, is_terminated}
use plane.Database.Keys.{prevent_renew, renew_key, remove_key}
use plane.Database.{KeyRow, Database}
use plane.Database.Backend.{accepts, with_state, update_state, emit_state_change}

-- The rows have the same key, or the same backend.
abbrev pub clash : KeyRow → KeyRow → Bool
clash k j = k.id == j.id || (k.key_name == j.key_name && k.namespace == j.namespace)

-- What the constraints demand of the table.
abbrev AreUnique : List KeyRow → Type 0
AreUnique [] = Unit
AreUnique (k ∷ ks) = (any_where (clash k) ks ≡ false) × AreUnique ks

any_where-delete :
    (p q : KeyRow → Bool) (ks : List KeyRow)
    → any_where p ks ≡ false
    → any_where p (delete_where q ks) ≡ false
unfolding any_where delete_where
any_where-delete p q [] h = refl
any_where-delete p q (k ∷ ks) h = ground (arith, any_where-delete p q ks)

delete_where-AreUnique :
    (q : KeyRow → Bool) (ks : List KeyRow) → AreUnique ks → AreUnique (delete_where q ks)
unfolding delete_where
delete_where-AreUnique q [] u = u
delete_where-AreUnique q (k ∷ ks) u = elim (Bool-cases (q k)) [
  | inl gone ↦ rw gone (delete_where-AreUnique q ks u.1)
  | inr kept ↦ rw kept (any_where-delete (clash k) q ks u.0, delete_where-AreUnique q ks u.1)
]

-- An update that leaves the backend and the key of every row.
abbrev KeepsKey : (KeyRow → KeyRow) → Type 0
KeepsKey f =
    (k : KeyRow)
    → ((f k).id ≡ k.id) × ((f k).key_name ≡ k.key_name) × ((f k).namespace ≡ k.namespace)

any_where-update :
    (k : KeyRow) (q : KeyRow → Bool) (f : KeyRow → KeyRow) (ks : List KeyRow)
    → KeepsKey f
    → any_where (clash k) (update_where q f ks) ≡ any_where (clash k) ks
unfolding any_where update_where
any_where-update k q f [] h = refl
any_where-update k q f (j ∷ ks) h = ground (arith, any_where-update k q f ks, h j)

any_where-clash :
    (k : KeyRow) (f : KeyRow → KeyRow) (ks : List KeyRow)
    → KeepsKey f
    → any_where (clash (f k)) ks ≡ any_where (clash k) ks
unfolding any_where
any_where-clash k f [] h = refl
any_where-clash k f (j ∷ ks) h = ground (arith, any_where-clash k f ks h, h k)

update_where-AreUnique :
    (q : KeyRow → Bool) (f : KeyRow → KeyRow) (ks : List KeyRow)
    → KeepsKey f
    → AreUnique ks
    → AreUnique (update_where q f ks)
unfolding update_where
update_where-AreUnique q f [] h u = u
update_where-AreUnique q f (k ∷ ks) h u = elim (Bool-cases (q k)) [
  | inl taken ↦ rw taken (
    any_where-clash k f (update_where q f ks) h ∙ any_where-update k q f ks h ∙ u.0,
    update_where-AreUnique q f ks h u.1,
  )
  | inr left ↦ rw left (any_where-update k q f ks h ∙ u.0, update_where-AreUnique q f ks h u.1)
]

remove_key-AreUnique :
    (now b : ℕ) (db : Database)
    → AreUnique db.backend_key
    → AreUnique (remove_key now b db).1.backend_key
unfolding remove_key
remove_key-AreUnique now b db u = delete_where-AreUnique _ db.backend_key u

-- Preventing a renewal, renewing, removing an expired key and the updates of a backend's state
-- keep each key with one backend at most, and each backend with one key.
keys-AreUnique :
    (now b : ℕ) (s : BackendState) (db : Database)
    → AreUnique db.backend_key
    → AreUnique (prevent_renew b db).1.backend_key
      × AreUnique (renew_key now b db).1.backend_key
      × AreUnique (remove_key now b db).1.backend_key
      × AreUnique (update_state now b s db).1.backend_key
unfolding prevent_renew renew_key remove_key update_state emit_state_change
keys-AreUnique now b s db u = (
  update_where-AreUnique _ _ db.backend_key (λ k. (refl, refl, refl)) u,
  update_where-AreUnique _ _ db.backend_key (λ k. (refl, refl, refl)) u,
  remove_key-AreUnique now b db u,
  after_update (any_where (accepts b (as_int (status s))) db.backend) (is_terminated s),
)
  where
    held : KeyRow → Bool
    held k = k.id == b

    result : Bool → Bool → Bool × Database
    result taken ended =
        if taken
        then (
          true,
          emit_state_change b s (record db {
            backend = update_where (accepts b (as_int (status s))) (with_state now s) db.backend;
            backend_key = if ended then delete_where held db.backend_key else db.backend_key;
          }),
        )
        else (false, db)

    after_update : (taken ended : Bool) → AreUnique (result taken ended).1.backend_key
    after_update true true = delete_where-AreUnique held db.backend_key u
    after_update true false = u
    after_update false ended = u
