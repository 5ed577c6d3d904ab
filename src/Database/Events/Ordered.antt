-- ===== src/Database/Events/Ordered.antt =====
-- Lists of events whose ids grow, and what `get_events_since` of plane/src/database/subscribe.rs
-- reads of them.
use plane.Prelude.{
  All, All-append, All-map, List, [], ap, append_assoc, arith, filterb, filterb-append, le→leb, ltb,
  lt→ltb, refl, suc, sym, take, zero, ℕ, ◌++◌, ◌<◌, ◌∙◌, ◌∷◌, ◌≡◌, ◌≤◌,
}
use plane.Database.Events.{Event, get_events_since, insert_by_id, sort_by_id}

-- The ids grow strictly.
abbrev pub Increasing : List Event → Type 0
Increasing [] = Unit
Increasing (e ∷ es) = All (λ f. e.id < f.id) es × Increasing es

-- All the events have an id below `hi`.
abbrev pub Below : ℕ → List Event → Type 0
Below hi = All (λ e. e.id < hi)

insert_by_id_least :
    (e : Event) (es : List Event) → All (λ f. e.id < f.id) es → insert_by_id e es ≡ e ∷ es
unfolding insert_by_id
insert_by_id_least e [] h = refl
insert_by_id_least e (f ∷ fs) (h, hs) = rw (le→leb e.id f.id (omega arith)) refl

sort_by_id-Increasing : (es : List Event) → Increasing es → sort_by_id es ≡ es
unfolding sort_by_id
sort_by_id-Increasing [] h = refl
sort_by_id-Increasing (e ∷ es) (h, hs) =
    ap (insert_by_id e) (sort_by_id-Increasing es hs) ∙ insert_by_id_least e es h

since_none :
    (last : ℕ) (es : List Event) → All (λ e. e.id ≤ last) es → filterb (λ e. ltb last e.id) es ≡ []
unfolding filterb
since_none last [] h = refl
since_none last (e ∷ es) (h, hs) = ground (arith, since_none last es hs)

since_all :
    (last : ℕ) (es : List Event) → All (λ e. last < e.id) es → filterb (λ e. ltb last e.id) es ≡ es
unfolding filterb
since_all last [] h = refl
since_all last (e ∷ es) (h, hs) = rw (lt→ltb last e.id h) (ap (λ t. e ∷ t) (since_all last es hs))

-- What stands before and after an event of an increasing list.
pub Increasing-before :
    (xs : List Event) (e : Event) (ys : List Event) → Increasing (xs ++ e ∷ ys) → Below e.id xs
Increasing-before [] e ys h = tt
Increasing-before (x ∷ xs) e ys (h, hs) = (middle xs h, Increasing-before xs e ys hs)
  where
    middle : (zs : List Event) → All (λ f. x.id < f.id) (zs ++ e ∷ ys) → x.id < e.id
    middle [] k = k.0
    middle (z ∷ zs) k = middle zs k.1

pub Increasing-init : (xs : List Event) (e : Event) → Increasing (xs ++ e ∷ []) → Increasing xs
Increasing-init [] e h = tt
Increasing-init (x ∷ xs) e (h, hs) = (init xs h, Increasing-init xs e hs)
  where
    init : (zs : List Event) → All (λ f. x.id < f.id) (zs ++ e ∷ []) → All (λ f. x.id < f.id) zs
    init [] k = tt
    init (z ∷ zs) (k, ks) = (k, init zs ks)

pub Increasing-after :
    (xs : List Event) (e : Event) (ys : List Event)
    → Increasing (xs ++ e ∷ ys)
    → All (λ f. e.id < f.id) ys × Increasing ys
Increasing-after [] e ys h = h
Increasing-after (x ∷ xs) e ys (h, hs) = Increasing-after xs e ys hs

pub Increasing-snoc :
    (xs : List Event) (e : Event) → Increasing xs → Below e.id xs → Increasing (xs ++ e ∷ [])
Increasing-snoc [] e i b = (tt, tt)
Increasing-snoc (x ∷ xs) e (h, i) (b, bs) =
    (All-append (λ f. x.id < f.id) xs (e ∷ []) h (b, tt), Increasing-snoc xs e i bs)

filterb_prefix :
    (last : ℕ) (xs ys : List Event)
    → All (λ e. e.id ≤ last) xs
    → All (λ e. last < e.id) ys
    → filterb (λ e. ltb last e.id) (xs ++ ys) ≡ ys
filterb_prefix last xs ys h k =
    filterb-append _ xs ys
    ∙ ap (λ t. t ++ filterb (λ e. ltb last e.id) ys) (since_none last xs h)
    ∙ since_all last ys k

-- After the event `f`, at most a hundred of the events that follow it are read, in their order.
pub get_events_since_lem :
    (xs : List Event) (f : Event) (ys : List Event)
    → Increasing (xs ++ f ∷ ys)
    → get_events_since f.id (xs ++ f ∷ ys) ≡ take 100 ys
unfolding get_events_since
get_events_since_lem xs f ys i =
    ap (λ l. take 100 (sort_by_id l))
      (ap (filterb (λ e. ltb f.id e.id)) (sym (append_assoc xs (f ∷ []) ys))
        ∙ filterb_prefix f.id (xs ++ f ∷ []) ys
            (All-append (λ e. e.id ≤ f.id) xs (f ∷ [])
              (All-map (λ e. e.id < f.id) (λ e. e.id ≤ f.id) (λ e h. omega arith) xs
                (Increasing-before xs f ys i))
              (omega arith, tt))
            after.0)
    ∙ ap (take 100) (sort_by_id-Increasing ys after.1)
  where
    after : All (λ g. f.id < g.id) ys × Increasing ys
    after = Increasing-after xs f ys i

pub take_split : (n : ℕ) (xs ys : List Event) → take n xs ≡ ys → (zs : List Event) × (xs ≡ ys ++ zs)
take_split n xs ys h = (rest n xs, sym (take_rest n xs) ∙ ap (λ t. t ++ rest n xs) h)
  where
    rest : ℕ → List Event → List Event
    rest zero xs = xs
    rest (suc n) [] = []
    rest (suc n) (x ∷ xs) = rest n xs

    take_rest : (n : ℕ) (xs : List Event) → take n xs ++ rest n xs ≡ xs
    take_rest zero xs = refl
    take_rest (suc n) [] = refl
    take_rest (suc n) (x ∷ xs) = ap (λ t. x ∷ t) (take_rest n xs)
