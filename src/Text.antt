-- ===== src/Text.antt =====
-- Strings as lists of Unicode code points, with the methods of Rust's `str` that the parsers use.
use plane.Prelude.{
  Bool, List, Option, [], arith, false, if◌then◌else◌, is_some, length, length-append, none, refl,
  some, true, ℕ, ◌&&◌, ◌++◌, ◌<◌, ◌==◌, ◌∷◌, ◌≡◌, ==_refl, Option-cases, inl, inr, ◌||◌, ap,
}

abbrev pub Text : Type 0
Text = List ℕ

-- Equality of two strings.
unfoldable pub same : Text → Text → Bool
same [] [] = true
same [] (c ∷ t) = false
same (c ∷ s) [] = false
same (c ∷ s) (d ∷ t) = (c == d) && same s t

-- `strip_prefix`: the rest of `s` behind the prefix `p`.
unfoldable pub strip_prefix : Text → Text → Option Text
strip_prefix [] s = some s
strip_prefix (c ∷ p) [] = none
strip_prefix (c ∷ p) (d ∷ s) = if c == d then strip_prefix p s else none

-- `starts_with`.
unfoldable pub starts_with : Text → Text → Bool
starts_with p s = is_some (strip_prefix p s)

abbrev onto : ℕ → Option Text → Option Text
onto c none = none
onto c (some s) = some (c ∷ s)

-- `strip_suffix`: what stands before the suffix `q` of `s`.
unfoldable pub strip_suffix : Text → Text → Option Text
strip_suffix q [] = if same [] q then some [] else none
strip_suffix q (c ∷ s) =
    let rest = strip_suffix q s in if same (c ∷ s) q then some [] else onto c rest

abbrev prepend : ℕ → Option (Text × Text) → Option (Text × Text)
prepend d none = none
prepend d (some (a, b)) = some (d ∷ a, b)

-- `split_once` at the first occurrence of the character `c`.
unfoldable pub split_once : ℕ → Text → Option (Text × Text)
split_once c [] = none
split_once c (d ∷ s) = let rest = split_once c s in if d == c then some ([], s) else prepend d rest

pub same→eq : (s t : Text) → same s t ≡ true → s ≡ t
unfolding same
same→eq [] [] h = refl
same→eq [] (c ∷ t) h = ground arith
same→eq (c ∷ s) [] h = ground arith
same→eq (c ∷ s) (d ∷ t) h = ground (arith, same→eq s t)

pub same_refl : (s : Text) → same s s ≡ true
unfolding same
same_refl [] = refl
same_refl (c ∷ s) = ground (arith, same_refl s)

pub strip_prefix-append : (p s : Text) → strip_prefix p (p ++ s) ≡ some s
unfolding strip_prefix
strip_prefix-append [] s = refl
strip_prefix-append (c ∷ p) s = ground (arith, strip_prefix-append p s)

-- A string loses only the prefix.
pub strip_prefix_sound : (p s t : Text) → strip_prefix p s ≡ some t → s ≡ p ++ t
unfolding strip_prefix
strip_prefix_sound [] s t h = ground arith
strip_prefix_sound (c ∷ p) [] t h = ground arith
strip_prefix_sound (c ∷ p) (d ∷ s) t h = ground (arith, strip_prefix_sound p s t)

-- A string loses only the suffix.
pub strip_suffix_sound : (q s t : Text) → strip_suffix q s ≡ some t → s ≡ t ++ q
unfolding strip_suffix
strip_suffix_sound q [] t h = ground (arith, same→eq [] q)
strip_suffix_sound q (c ∷ s) t h = elim (Option-cases (strip_suffix q s)) [
  | inl none_left ↦ ground (arith, same→eq (c ∷ s) q)
  | inr (a, found) ↦ ground (arith, same→eq (c ∷ s) q, strip_suffix_sound q s a found)
]

pub same_longer : (q s : Text) → length q < length s → same s q ≡ false
unfolding same
same_longer [] [] h = ground arith
same_longer [] (c ∷ s) h = refl
same_longer (d ∷ q) [] h = ground arith
same_longer (d ∷ q) (c ∷ s) h = ground (arith, same_longer q s)

pub strip_suffix-append : (q s : Text) → strip_suffix q (s ++ q) ≡ some s
unfolding strip_suffix same
strip_suffix-append [] [] = refl
strip_suffix-append (c ∷ q) [] = rw ==_refl (rw same_refl refl)
strip_suffix-append q (c ∷ s) =
    ground (arith, same_longer q (c ∷ (s ++ q)), length-append s q, strip_suffix-append q s)

-- Whether a character occurs in a string.
unfoldable pub contains : ℕ → Text → Bool
contains c [] = false
contains c (d ∷ s) = (d == c) || contains c s

pub split_once-append :
    (c : ℕ) (a b : Text) → contains c a ≡ false → split_once c (a ++ c ∷ b) ≡ some (a, b)
unfolding split_once contains
split_once-append c [] b h = ground arith
split_once-append c (d ∷ a) b h = ground (arith, split_once-append c a b)

pub split_once-absent : (c : ℕ) (a : Text) → contains c a ≡ false → split_once c a ≡ none
unfolding split_once contains
split_once-absent c [] h = refl
split_once-absent c (d ∷ a) h = ground (arith, split_once-absent c a)

pub starts_with-append : (p s : Text) → starts_with p (p ++ s) ≡ true
unfolding starts_with
starts_with-append p s = ap is_some (strip_prefix-append p s)

pub starts_with_sound : (p s : Text) → starts_with p s ≡ true → (rest : Text) × (s ≡ p ++ rest)
unfolding starts_with
starts_with_sound p s h = go (strip_prefix p s) refl h
  where
    go :
        (o : Option Text)
        → strip_prefix p s ≡ o
        → is_some o ≡ true
        → (rest : Text) × (s ≡ p ++ rest)
    go none e h' = ground arith
    go (some rest) e h' = (rest, strip_prefix_sound p s rest e)
