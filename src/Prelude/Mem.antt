-- ===== src/Prelude/Mem.antt =====
-- Membership in filtered lists, and a membership test by id.
use mathlib.Core.Path.{◌≡◌}
use mathlib.Core.Logic.{∥∥₁_map, ∥∥₁_elim, ◌⊎◌, inl, inr}
use mathlib.Core.Bool.{Bool, true}
use mathlib.Core.List.{List, [], ◌∷◌, Mem, Memᴰ}
use mathlib.Core.List.Memᴰ
use plane.Prelude.Tests.{Bool-cases}
use plane.Prelude.Lists.{filterb}

module _ {ℓ} {A : Type ℓ} (p : A → Bool) where
  Memᴰ-filterb : {a : A} {xs : List A} → p a ≡ true → Memᴰ a xs → Memᴰ a (filterb p xs)
  unfolding filterb
  Memᴰ-filterb h (Memᴰ.head {xs = ys} e) = rw (rw e at h) (Memᴰ.head e)
  Memᴰ-filterb h (Memᴰ.tail {x = y} m) = elim (Bool-cases (p y)) [
    | inl passes ↦ rw passes (Memᴰ.tail (Memᴰ-filterb h m))
    | inr fails ↦ rw fails (Memᴰ-filterb h m)
  ]

  pub mem-filterb : {a : A} {xs : List A} → p a ≡ true → Mem a xs → Mem a (filterb p xs)
  mem-filterb {a} {xs} h m = ∥∥₁_map {B = Memᴰ a (filterb p xs)} m (Memᴰ-filterb h)

  Memᴰ_of_Memᴰ-filterb : (a : A) (xs : List A) → Memᴰ a (filterb p xs) → Memᴰ a xs
  unfolding filterb
  Memᴰ_of_Memᴰ-filterb a [] m = m
  Memᴰ_of_Memᴰ-filterb a (x ∷ xs) m = elim (Bool-cases (p x)) [
    | inl passes ↦ kept (Memᴰ_of_Memᴰ-filterb a xs) (Memᴰ.cases_cons (rw passes at m))
    | inr fails ↦ Memᴰ.tail (Memᴰ_of_Memᴰ-filterb a xs (rw fails at m))
  ]
    where
      kept : (Memᴰ a (filterb p xs) → Memᴰ a xs) → (a ≡ x) ⊎ Memᴰ a (filterb p xs) → Memᴰ a (x ∷ xs)
      kept ih (inl e) = Memᴰ.head e
      kept ih (inr r) = Memᴰ.tail (ih r)

  pub mem_of_mem-filterb : {a : A} {xs : List A} → Mem a (filterb p xs) → Mem a xs
  mem_of_mem-filterb {a} {xs} m = ∥∥₁_map {B = Memᴰ a xs} m (Memᴰ_of_Memᴰ-filterb a xs)

  pass_of_Memᴰ : (a : A) (xs : List A) → Memᴰ a (filterb p xs) → p a ≡ true
  unfolding filterb
  pass_of_Memᴰ a [] m = absurd (Memᴰ.not-nil m)
  pass_of_Memᴰ a (x ∷ xs) m = elim (Bool-cases (p x)) [
    | inl passes ↦ kept passes (pass_of_Memᴰ a xs) (Memᴰ.cases_cons (rw passes at m))
    | inr fails ↦ pass_of_Memᴰ a xs (rw fails at m)
  ]
    where
      kept :
          p x ≡ true
          → (Memᴰ a (filterb p xs) → p a ≡ true)
          → (a ≡ x) ⊎ Memᴰ a (filterb p xs)
          → p a ≡ true
      kept h ih (inl e) = rw e h
      kept h ih (inr r) = ih r

  pub pass_of_mem-filterb : {a : A} (xs : List A) → Mem a (filterb p xs) → p a ≡ true
  pass_of_mem-filterb {a} xs m = ∥∥₁_elim m (hlevel) (pass_of_Memᴰ a xs)
