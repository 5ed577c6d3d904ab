-- ===== src/Database/Connect/Outcomes/Steps.antt =====
-- What the creation of a backend and the removal of a key in plane/src/database/connect.rs leave of a
-- key with a live lease.
use plane.Prelude.{
  List, [], ◌∷◌, ◌&&◌, ◌≤◌, ◌∙◌, ap, sym, filterb, if◌then◌else◌, refl, Bool-cases, Option, arith,
  false, inl, inr, ℕ, ◌≡◌, Bool, ◌==◌, ◌||◌, true,
}
use plane.Prelude.Rows.{any-filterb, any_where, delete_where}
use plane.Protocol.{KeyConfig}
use plane.Database.{Database, KeyRow}
use plane.Database.Backend.{emit_state_change}
use plane.Database.Keys.{expired, remove_key}
use plane.Database.Keys.Unique.{clash}
use plane.Database.Connect.{
  Chance, SpawnConfig, DroneForSpawn, create_backend_with_key, violates_uniqueness, or_random,
  new_key_row,
}

-- The rows of the key of `k` are just `k`: its backend holds the key, and no other does.
abbrev is_same_key : KeyRow → KeyRow → Bool
is_same_key k j = j.key_name == k.key_name && j.namespace == k.namespace

abbrev pub HoldsAlone : KeyRow → Database → Type 0
HoldsAlone k db = filterb (is_same_key k) db.backend_key ≡ k ∷ []

any_subset :
    (p c : KeyRow → Bool) (rows : List KeyRow)
    → any_where (λ x. p x && c x) rows ≡ true
    → any_where c rows ≡ true
unfolding any_where
any_subset p c (row ∷ rows) h = ground (arith, any_subset p c rows, h)
any_subset p c [] h = h

-- A row with the key of `k` violates a constraint.
held-clash :
    (k j : KeyRow) (db : Database)
    → HoldsAlone k db
    → is_same_key k j ≡ true
    → any_where (clash j) db.backend_key ≡ true
unfolding any_where
held-clash k j db h same = any_subset (is_same_key k) (clash j) db.backend_key (
    sym (any-filterb (clash j) (is_same_key k) db.backend_key)
    ∙ ap (any_where (clash j)) h
    ∙ ground (arith, same))

or_false : (a b : Bool) → (a || b) ≡ false → (a ≡ false) × (b ≡ false)
or_false a b h = ground arith

-- A creation leaves a key that is held: it is for another key, or it violates a constraint and
-- changes nothing.
pub create_held :
    (k : KeyRow) (c : Chance) (key : KeyConfig) (config : SpawnConfig) (cluster : ℕ)
    (drone : DroneForSpawn) (static_token : Option ℕ) (db : Database)
    → HoldsAlone k db
    → HoldsAlone k (create_backend_with_key c key config cluster drone static_token db).1
unfolding create_backend_with_key emit_state_change violates_uniqueness filterb
create_held k c key config cluster drone static_token db h =
    elim (Bool-cases (violates_uniqueness b j db)) [
      | inl violated ↦ rw violated h
      | inr free ↦ rw free (other (is_same_key k j) refl (or_false _ _ free).1)
    ]
  where
    b : ℕ
    b = or_random config.id c.random_backend

    j : KeyRow
    j = new_key_row c.create_at b key

    other :
        (t : Bool)
        → is_same_key k j ≡ t
        → any_where (clash j) db.backend_key ≡ false
        → (if t
            then j ∷ filterb (is_same_key k) db.backend_key
            else filterb (is_same_key k) db.backend_key)
          ≡ k ∷ []
    other true same free = let taken = held-clash k j db h same in cc
    other false same free = h

filterb-delete :
    (p q : KeyRow → Bool) (rows : List KeyRow)
    → filterb p (delete_where q rows) ≡ delete_where q (filterb p rows)
unfolding filterb delete_where
filterb-delete p q [] = refl
filterb-delete p q (row ∷ rows) = ground (arith, filterb-delete p q rows)

-- A key that has not expired is not removed.
pub remove_held :
    (k : KeyRow) (now b : ℕ) (db : Database)
    → now ≤ k.expires_at
    → HoldsAlone k db
    → HoldsAlone k (remove_key now b db).1
unfolding remove_key delete_where filterb
remove_held k now b db live h =
    filterb-delete (is_same_key k) (expired now b) db.backend_key
    ∙ ap (delete_where (expired now b)) h
    ∙ ground (arith, live)
