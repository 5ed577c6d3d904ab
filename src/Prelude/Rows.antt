-- ===== src/Prelude/Rows.antt =====
-- SQL statements on a table as a list of rows: `update … where`, `delete … where`, and whether a
-- statement has affected a row.
use mathlib.Core.Path.{◌≡◌, refl}
use mathlib.Core.Bool.{Bool, false, not, ◌||◌, ◌&&◌}
use mathlib.Core.List.{List, [], ◌∷◌, ◌++◌}
use native.Mathlib.Omega.{arith}
use plane.Prelude.Tests.{if◌then◌else◌}
use plane.Prelude.Lists.{filterb}
use plane.Prelude.{ℕ, zero, suc, take}

module _ {ℓ} {A : Type ℓ} where
  unfoldable pub update_where : (A → Bool) → (A → A) → List A → List A
  update_where p f [] = []
  update_where p f (x ∷ xs) = (if p x then f x else x) ∷ update_where p f xs

  unfoldable pub delete_where : (A → Bool) → List A → List A
  unfolding filterb
  delete_where p xs = filterb (λ x. not (p x)) xs

  -- Some row passes the test: `rows_affected() > 0`.
  unfoldable pub any_where : (A → Bool) → List A → Bool
  any_where p [] = false
  any_where p (x ∷ xs) = p x || any_where p xs

  pub any_where-append :
      (p : A → Bool) (xs ys : List A) → any_where p (xs ++ ys) ≡ (any_where p xs || any_where p ys)
  unfolding any_where
  any_where-append p [] ys = refl
  any_where-append p (x ∷ xs) ys = ground (arith, any_where-append p xs ys)

  -- Where no row is affected an update changes nothing.
  pub update_where-none :
      (p : A → Bool) (f : A → A) (xs : List A) → any_where p xs ≡ false → update_where p f xs ≡ xs
  unfolding any_where update_where
  update_where-none p f [] h = refl
  update_where-none p f (x ∷ xs) h = ground (arith, update_where-none p f xs)

  pub any-filterb :
      (p q : A → Bool) (xs : List A) → any_where p (filterb q xs) ≡ any_where (λ x. q x && p x) xs
  unfolding any_where filterb
  any-filterb p q [] = refl
  any-filterb p q (x ∷ xs) = ground (arith, any-filterb p q xs)

  pub any-take :
      (p : A → Bool) (n : ℕ) (xs : List A)
      → any_where p xs ≡ false
      → any_where p (take n xs) ≡ false
  unfolding any_where
  any-take p zero xs h = refl
  any-take p (suc n) [] h = refl
  any-take p (suc n) (x ∷ xs) h = ground (arith, h, any-take p n xs)
