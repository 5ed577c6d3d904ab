-- ===== src/Database/Events/Listeners.antt =====
-- Who gets a notification (`send_message` of plane/src/database/subscribe.rs).
use plane.Prelude.{
  Bool, List, none, some, ◌&&◌, ◌==◌, ◌≡◌, Bool-cases, Option, [], ap, arith, false, if◌then◌else◌,
  inl, inr, is_some, refl, sym, true, ℕ, ◌||◌, ◌∙◌, ◌∷◌,
}
use plane.Prelude.Rows.{any_where, any_where-append}
use plane.Database.Events.{
  Listener, Notification, listeners_for, same_key, same_listener, sent_to, keyed_listener,
}

-- The listener is for this kind, and for this key or for all.
abbrev hears : Notification → Listener → Bool
hears n (kind, none) = n.kind == kind
hears n (kind, some key) = n.kind == kind && same_key n.key (some key)

both : (a b : Bool) → (a && b) ≡ true → (a ≡ true) × (b ≡ true)
both a b h = ground (arith, h)

num_eq : (a b : ℕ) → (a == b) ≡ true → a ≡ b
num_eq a b h = ground (arith, h)

key_eq : (j k : Option ℕ) → same_key j k ≡ true → j ≡ k
key_eq none none h = refl
key_eq none (some k) h = cc
key_eq (some j) none h = cc
key_eq (some j) (some k) h = ap some (num_eq j k h)

same_eq : (m l : Listener) → same_listener m l ≡ true → m ≡ l
same_eq (a, j) (b, k) h =
    let (p, q) = both (a == b) (same_key j k) h in made (num_eq a b p) (key_eq j k q)
  where
    made : a ≡ b → j ≡ k → ◌≡◌ {A = Listener} (a, j) (b, k)
    made p q = rw p (rw q refl)

sent_to_lem :
    (l m : Listener) (listeners : List Listener)
    → any_where (same_listener m) (sent_to l listeners)
      ≡ (same_listener m l && any_where (same_listener m) listeners)
unfolding any_where
sent_to_lem l m listeners = elim (Bool-cases (same_listener m l)) [
  | inl same ↦ rw same (there (same_eq m l same) same)
  | inr other ↦ rw other (nowhere other)
]
  where
    only :
        (b : Bool)
        → same_listener m l ≡ true
        → any_where (same_listener m) (if b then l ∷ [] else []) ≡ b
    only true same = rw same refl
    only false same = refl

    there :
        m ≡ l
        → same_listener m l ≡ true
        → any_where (same_listener m) (sent_to l listeners) ≡ any_where (same_listener m) listeners
    there e same =
        only (any_where (same_listener l) listeners) same
        ∙ ap (λ (x : Listener). any_where (same_listener x) listeners) (sym e)

    none_of :
        (b : Bool)
        → same_listener m l ≡ false
        → any_where (same_listener m) (if b then l ∷ [] else []) ≡ false
    none_of true other = rw other refl
    none_of false other = refl

    nowhere : same_listener m l ≡ false → any_where (same_listener m) (sent_to l listeners) ≡ false
    nowhere other = none_of (any_where (same_listener l) listeners) other

keyed_lem :
    (kind : ℕ) (key : Option ℕ) (l : Listener) (listeners : List Listener)
    → any_where (same_listener l) (keyed_listener kind key listeners)
      ≡ ((is_some key && same_listener l (kind, key)) && any_where (same_listener l) listeners)
unfolding any_where
keyed_lem kind none l listeners = refl
keyed_lem kind (some k) l listeners = sent_to_lem (kind, some k) l listeners

hears_lem :
    (n : Notification) (l : Listener)
    → ((is_some n.key && same_listener l (n.kind, n.key)) || same_listener l (n.kind, none))
      ≡ hears n l
hears_lem n (kind, key) = go n.key key
  where
    go :
        (k : Option ℕ) (key : Option ℕ)
        → ((is_some k && ((kind == n.kind) && same_key key k))
            || ((kind == n.kind) && same_key key none))
          ≡ hears (record n { key = k }) (kind, key)
    go none none = ground arith
    go none (some j) = ground arith
    go (some k) none = ground arith
    go (some k) (some j) = ground arith

-- A notification is given just to the listeners of its kind that are there and that are for its
-- key or for all keys.
listeners_for_lem :
    (n : Notification) (l : Listener) (listeners : List Listener)
    → any_where (same_listener l) (listeners_for n listeners)
      ≡ (hears n l && any_where (same_listener l) listeners)
unfolding listeners_for
listeners_for_lem n l listeners =
    any_where-append (same_listener l) (keyed_listener n.kind n.key listeners) _
    ∙ ap (λ b. b || any_where (same_listener l) (sent_to (n.kind, none) listeners))
        (keyed_lem n.kind n.key l listeners)
    ∙ ap
        (λ b.
          (is_some n.key && same_listener l (n.kind, n.key))
            && any_where (same_listener l) listeners
          || b)
        (sent_to_lem (n.kind, none) l listeners)
    ∙ distribute (is_some n.key && same_listener l (n.kind, n.key)) (same_listener l (n.kind, none))
        (any_where (same_listener l) listeners)
    ∙ ap (λ b. b && any_where (same_listener l) listeners) (hears_lem n l)
  where
    distribute : (a b c : Bool) → ((a && c) || (b && c)) ≡ ((a || b) && c)
    distribute a b c = ground arith
