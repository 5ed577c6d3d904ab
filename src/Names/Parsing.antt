-- ===== src/Names/Parsing.antt =====
-- Which strings are names, and the round trips of names (common/src/names.rs).
use plane.Prelude.{
  All, Option, [], arith, none, refl, some, true, ℕ, ◌++◌, ◌+◌, ◌↔◌, ◌∷◌, ◌≡◌, ◌≤◌, Bool,
  Option-cases, ap, false, if◌then◌else◌, inl, inr, sym, ◌∙◌,
}
use plane.Text.{
  Text, starts_with, starts_with-append, starts_with_sound, strip_prefix, strip_prefix-append,
  strip_prefix_sound,
}
use plane.Names.{
  NodeKind, any_try_from, checked_length, first_invalid, from_container_id, is_allowed, len,
  max_name_length, ok, prefix_of, to_container_id, try_from, of_kind, container_prefix, err,
  invalid_prefix, parsed_container,
}

-- A name of the kind with this prefix: the prefix in front, at most 45 bytes, and lower-case
-- letters, digits and hyphens only.
unfoldable pub IsName : Option Text → Text → Type 0
IsName none s = (len s ≤ max_name_length) × All (λ c. is_allowed c ≡ true) s
IsName (some prefix) s =
    ((rest : Text) × (s ≡ prefix ++ rest))
    × (len s ≤ max_name_length)
    × All (λ c. is_allowed c ≡ true) s

first_invalid-none :
    (i : ℕ) (s : Text) → All (λ c. is_allowed c ≡ true) s → first_invalid i s ≡ none
unfolding first_invalid
first_invalid-none i [] h = refl
first_invalid-none i (c ∷ s) (hc, hs) = rw hc (first_invalid-none (i + 1) s hs)

first_invalid_allowed :
    (i : ℕ) (s : Text) → first_invalid i s ≡ none → All (λ c. is_allowed c ≡ true) s
unfolding first_invalid
first_invalid_allowed i [] h = tt
first_invalid_allowed i (c ∷ s) h = (ground arith, first_invalid_allowed (i + 1) s (ground arith))

checked_length_ok :
    (s : Text)
    → len s ≤ max_name_length
    → All (λ c. is_allowed c ≡ true) s
    → checked_length s ≡ ok s
checked_length_ok s short allowed = ground (arith, first_invalid-none 0 s allowed)

checked_length_sound :
    (s t : Text)
    → checked_length s ≡ ok t
    → (t ≡ s) × (len s ≤ max_name_length) × All (λ c. is_allowed c ≡ true) s
checked_length_sound s t h = elim (Option-cases (first_invalid 0 s)) [
  | inl absent ↦ (ground arith, ground arith, first_invalid_allowed 0 s absent)
  | inr ((c, i), found) ↦ ground arith
]

-- A string is parsed as a name exactly where it is one, and the name is the string itself.
pub try_from_iff :
    (prefix : Option Text) (s t : Text) → (try_from prefix s ≡ ok t) ↔ ((t ≡ s) × IsName prefix s)
unfolding try_from IsName
try_from_iff none s t = (
  (λ h.
      let (same_text, short, allowed) = checked_length_sound s t h in
      (same_text, (short, allowed))),
  λ h. checked_length_ok s h.1.0 h.1.1 ∙ ap ok (sym h.0),
)
try_from_iff (some prefix) s t = (parsed (starts_with prefix s) refl, accepted)
  where
    parsed :
        (b : Bool)
        → starts_with prefix s ≡ b
        → (if b then checked_length s else err (invalid_prefix s prefix)) ≡ ok t
        → (t ≡ s) × IsName (some prefix) s
    parsed true e h =
        let (same_text, short, allowed) = checked_length_sound s t h in
        (same_text, (starts_with_sound prefix s e, short, allowed))
    parsed false e h = ground arith

    accepted :
        (t ≡ s) × IsName (some prefix) s
        → (if starts_with prefix s then checked_length s else err (invalid_prefix s prefix)) ≡ ok t
    accepted (same_text, ((rest, e), short, allowed)) =
        rw (ap (starts_with prefix) e ∙ starts_with-append prefix rest)
          (checked_length_ok s short allowed ∙ ap ok (sym same_text))

-- The identifier of a container is parsed back to the backend's name, and a name that is parsed is
-- printed as the identifier it came from.
pub container_id_round_trip :
    (id name : Text)
    → (from_container_id id ≡ ok name) ↔ ((id ≡ to_container_id name) × IsName none name)
unfolding from_container_id to_container_id
container_id_round_trip id name = (parsed (strip_prefix container_prefix id) refl, printed)
  where
    parsed :
        (o : Option Text)
        → strip_prefix container_prefix id ≡ o
        → parsed_container id o ≡ ok name
        → (id ≡ container_prefix ++ name) × IsName none name
    parsed none e h = ground arith
    parsed (some s) e h =
        let (same_text, valid) = (try_from_iff none s name).0 h in
        (
          strip_prefix_sound container_prefix id s e
              ∙ ap (λ u. container_prefix ++ u) (sym same_text),
          ((try_from_iff none name name).0 (ap (try_from none) same_text ∙ h)).1,
        )

    printed :
        (id ≡ container_prefix ++ name) × IsName none name
        → parsed_container id (strip_prefix container_prefix id) ≡ ok name
    printed (e, valid) =
        ap (λ u. parsed_container u (strip_prefix container_prefix u)) e
        ∙ ap (parsed_container (container_prefix ++ name))
            (strip_prefix-append container_prefix name)
        ∙ (try_from_iff none name name).1 (refl, valid)

any_try_from-append :
    (k : NodeKind) (rest : Text)
    → any_try_from (prefix_of k ++ rest)
      ≡ of_kind k (try_from (some (prefix_of k)) (prefix_of k ++ rest))
unfolding any_try_from prefix_of starts_with strip_prefix
any_try_from-append NodeKind.proxy rest = refl
any_try_from-append NodeKind.drone rest = refl
any_try_from-append NodeKind.acme_dns_server rest = refl

-- The name of a node is parsed to its kind: the three prefixes do not overlap.
pub any_try_from_lem :
    (k : NodeKind) (s : Text)
    → IsName (some (prefix_of k)) s
    → any_try_from s ≡ ok (record { kind = k; name = s })
unfolding IsName
any_try_from_lem k s h =
    ap any_try_from h.0.1
    ∙ any_try_from-append k h.0.0
    ∙ ap (λ u. of_kind k (try_from (some (prefix_of k)) u)) (sym h.0.1)
    ∙ ap (of_kind k) ((try_from_iff (some (prefix_of k)) s s).1 (refl, h))
