-- ===== src/Database/Drones/Picking/Least.antt =====
-- The last step of `pick_drone_for_spawn` (plane/src/database/drone.rs): of the drawn rows, the first
-- of those with the fewest backends.
use mathlib.Core.List.{Memᴰ}
use mathlib.Core.List.Memᴰ
use plane.Prelude.{
  All, Bool, Bool-cases, List, [], arith, false, inl, inr, ltb, none, refl, some, subst, take, ℕ,
  ◌∷◌, ◌≡◌, ◌≤◌, ◌⊎◌, ap, if◌then◌else◌, lt→ltb, suc, sym, zero, ◌<◌,
}
use plane.Database.Drones.{Candidate, least, min_by_count}

order : (a b : ℕ) → (a < b) ⊎ (b ≤ a)
order a b = ground arith

le→not_ltb : (a b : ℕ) → a ≤ b → ltb b a ≡ false
le→not_ltb a b h = ground arith

least_fewer :
    (best c : Candidate) (cs : List Candidate)
    → c.backend_count < best.backend_count
    → least best (c ∷ cs) ≡ least c cs
unfolding least
least_fewer best c cs lt = rw (lt→ltb c.backend_count best.backend_count lt) refl

least_more :
    (best c : Candidate) (cs : List Candidate)
    → best.backend_count ≤ c.backend_count
    → least best (c ∷ cs) ≡ least best cs
unfolding least
least_more best c cs le =
    ap (λ (b : Bool). least (if b then c else best) cs)
      (le→not_ltb best.backend_count c.backend_count le)

least_lem :
    (best : Candidate) (cs : List Candidate)
    → ((least best cs).backend_count ≤ best.backend_count)
      × All (λ (c : Candidate). (least best cs).backend_count ≤ c.backend_count) cs
unfolding least
least_lem best [] = (omega arith, tt)
least_lem best (c ∷ cs) = elim (order c.backend_count best.backend_count) [
  | inl fewer ↦
      let (le, all) = least_lem c cs in
      subst
        (λ (x : Candidate).
          (x.backend_count ≤ best.backend_count)
          × All (λ (d : Candidate). x.backend_count ≤ d.backend_count) (c ∷ cs))
        (sym (least_fewer best c cs fewer)) (omega arith, (le, all))
  | inr more ↦
      let (le, all) = least_lem best cs in
      subst
        (λ (x : Candidate).
          (x.backend_count ≤ best.backend_count)
          × All (λ (d : Candidate). x.backend_count ≤ d.backend_count) (c ∷ cs))
        (sym (least_more best c cs more)) (le, (omega arith, all))
]

least-mem : (best : Candidate) (cs : List Candidate) → Memᴰ (least best cs) (best ∷ cs)
unfolding least
least-mem best [] = Memᴰ.head refl
least-mem best (c ∷ cs) = elim (Bool-cases (ltb c.backend_count best.backend_count)) [
  | inl fewer ↦ rw fewer (Memᴰ.tail (least-mem c cs))
  | inr more ↦ rw more (skip (Memᴰ.cases_cons (least-mem best cs)))
]
  where
    skip : (least best cs ≡ best) ⊎ Memᴰ (least best cs) cs → Memᴰ (least best cs) (best ∷ c ∷ cs)
    skip (inl e) = Memᴰ.head e
    skip (inr m) = Memᴰ.tail (Memᴰ.tail m)

pub min_by_count_lem :
    (cs : List Candidate) (c : Candidate)
    → min_by_count cs ≡ some c
    → Memᴰ c cs × All (λ (d : Candidate). c.backend_count ≤ d.backend_count) cs
unfolding min_by_count
min_by_count_lem [] c h = cc
min_by_count_lem (x ∷ xs) c h =
    subst
      (λ (y : Candidate).
        Memᴰ y (x ∷ xs) × All (λ (d : Candidate). y.backend_count ≤ d.backend_count) (x ∷ xs))
      same (least-mem x xs, least_lem x xs)
  where
    same : least x xs ≡ c
    same = cc

pub mem-take : (n : ℕ) (cs : List Candidate) (c : Candidate) → Memᴰ c (take n cs) → Memᴰ c cs
mem-take zero cs c m = absurd (Memᴰ.not-nil m)
mem-take (suc n) [] c m = m
mem-take (suc n) (x ∷ xs) c m = elim (Memᴰ.cases_cons m) [
  | inl e ↦ Memᴰ.head e
  | inr k ↦ Memᴰ.tail (mem-take n xs c k)
]

pub drawn_nil : (n : ℕ) (cs : List Candidate) → 0 < n → min_by_count (take n cs) ≡ none → cs ≡ []
unfolding min_by_count
drawn_nil zero cs l e = absurd (omega arith)
drawn_nil (suc n) [] l e = refl
drawn_nil (suc n) (c ∷ cs) l e = cc
