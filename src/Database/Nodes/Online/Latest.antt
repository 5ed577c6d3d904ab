-- ===== src/Database/Nodes/Online/Latest.antt =====
-- What a row shows of its latest connection after one connects or is dropped
-- (plane/src/database/node.rs).
use plane.Prelude.{
  All, Bool, Bool-cases, List, Option, [], arith, false, if◌then◌else◌, inl, inr, none, refl, some,
  sym, true, ℕ, ◌++◌, ◌<◌, ◌==◌, ◌∙◌, ◌∷◌, ◌≡◌, ◌≤◌,
}
use plane.Prelude.Rows.{any_where}
use plane.Database.Nodes.{NodeRow, is_connection}
use plane.Database.Nodes.Online.{==_sym_false, NodeHandle, Shows, World, is_latest}

All-at :
    (P : NodeHandle → Type 0) (xs ys : List NodeHandle) (h : NodeHandle)
    → All P (xs ++ h ∷ ys)
    → P h
All-at P [] ys h a = a.0
All-at P (x ∷ xs) ys h a = All-at P xs ys h a.1

pub All-drop :
    (P : NodeHandle → Type 0) (xs ys : List NodeHandle) (h : NodeHandle)
    → All P (xs ++ h ∷ ys)
    → All P (xs ++ ys)
All-drop P [] ys h a = a.1
All-drop P (x ∷ xs) ys h a = (a.0, All-drop P xs ys h a.1)

abbrev pub Past : ℕ → Option ℕ → Type 0
Past clock none = Unit
Past clock (some t) = t ≤ clock

abbrev Distinct : List NodeHandle → Type 0
Distinct [] = Unit
Distinct (h ∷ hs) =
    All (λ (g : NodeHandle). (g.connection_start_time == h.connection_start_time) ≡ false) hs
    × Distinct hs

pub record IsOnline (w : World) : Type 0 where
  pub shown : All (Shows w.handles) w.nodes.rows
  pub distinct : Distinct w.handles
  pub past : All (λ (h : NodeHandle). h.connection_start_time ≤ w.clock) w.handles
  pub past_rows : All (λ (row : NodeRow). Past w.clock row.last_connection_start_time) w.nodes.rows

none_latest :
    (clock now : ℕ) (row : NodeRow) (hs : List NodeHandle)
    → clock < now
    → row.last_connection_start_time ≡ some now
    → All (λ (h : NodeHandle). h.connection_start_time ≤ clock) hs
    → All (λ h. is_latest row h ≡ false) hs
none_latest clock now row [] lt e p = tt
none_latest clock now row (h ∷ hs) lt e (p, ps) =
    (rw e (ground arith), none_latest clock now row hs lt e ps)

any_none :
    (p : NodeHandle → Bool) (hs : List NodeHandle)
    → All (λ h. p h ≡ false) hs
    → any_where p hs ≡ false
unfolding any_where
any_none p [] h = refl
any_none p (x ∷ xs) (h, hs) = rw h (any_none p xs hs)

not_started :
    (clock : ℕ) (row : NodeRow) (h : NodeHandle)
    → clock < h.connection_start_time
    → Past clock row.last_connection_start_time
    → is_latest row h ≡ false
not_started clock row h lt p = go row.last_connection_start_time refl p
  where
    go :
        (o : Option ℕ) → row.last_connection_start_time ≡ o → Past clock o → is_latest row h ≡ false
    go none e q = rw e (ground arith)
    go (some t) e q = rw e (ground arith)

All-none :
    (row : NodeRow) (hs : List NodeHandle)
    → All (λ h. is_latest row h ≡ false) hs
    → All (λ h. is_latest row h ≡ true → row.controller ≡ some h.controller) hs
All-none row [] n = tt
All-none row (h ∷ hs) (n, ns) = ((λ e. cc), All-none row hs ns)

-- A row that a connection has just written shows it.
pub Shows-new :
    (clock now : ℕ) (row : NodeRow) (h : NodeHandle) (hs : List NodeHandle)
    → clock < now
    → row.id ≡ h.id
    → row.controller ≡ some h.controller
    → row.last_connection_start_time ≡ some now
    → h.connection_start_time ≡ now
    → All (λ (g : NodeHandle). g.connection_start_time ≤ clock) hs
    → Shows (h ∷ hs) row
unfolding any_where
Shows-new clock now row h hs lt i c e s p =
    (rw c (rw seen refl), ((λ x. c), All-none row hs (none_latest clock now row hs lt e p)))
  where
    seen : is_latest row h ≡ true
    seen = rw e (ground (arith, i, s))

-- One that it has not written does not see it.
pub Shows-old :
    (clock : ℕ) (row : NodeRow) (h : NodeHandle) (hs : List NodeHandle)
    → clock < h.connection_start_time
    → Past clock row.last_connection_start_time
    → Shows hs row
    → Shows (h ∷ hs) row
unfolding any_where
Shows-old clock row h hs lt p (e, all) = (rw unseen e, ((λ x. absurd_test unseen x), all))
  where
    unseen : is_latest row h ≡ false
    unseen = not_started clock row h lt p

    absurd_test :
        is_latest row h ≡ false → is_latest row h ≡ true → row.controller ≡ some h.controller
    absurd_test f t = cc

pub Distinct-drop :
    (before after : List NodeHandle) (h : NodeHandle)
    → Distinct (before ++ h ∷ after)
    → All
        (λ (g : NodeHandle). (g.connection_start_time == h.connection_start_time) ≡ false)
        (before ++ after)
      × Distinct (before ++ after)
Distinct-drop [] after h (d, ds) = (d, ds)
Distinct-drop (g ∷ gs) after h (d, ds) =
    let (differ, rest) = Distinct-drop gs after h ds in
    ((==_sym_false _ _ (All-at _ gs after h d), differ), (All-drop _ gs after h d, rest))

-- A row after the drop of a handle.
abbrev pub after_drop : NodeHandle → NodeRow → NodeRow
after_drop h row =
    if is_connection h.id h.controller h.connection_start_time row
    then record row { controller = none }
    else row

any-drop :
    (p : NodeHandle → Bool) (before after : List NodeHandle) (h : NodeHandle)
    → p h ≡ false
    → any_where p (before ++ h ∷ after) ≡ any_where p (before ++ after)
unfolding any_where
any-drop p [] after h f = rw f refl
any-drop p (g ∷ gs) after h f = rw (any-drop p gs after h f) refl

others_not_latest :
    (row : NodeRow) (h : NodeHandle) (hs : List NodeHandle)
    → is_latest row h ≡ true
    → All (λ (g : NodeHandle). (g.connection_start_time == h.connection_start_time) ≡ false) hs
    → All (λ g. is_latest row g ≡ false) hs
others_not_latest row h [] t d = tt
others_not_latest row h (g ∷ gs) t (d, ds) =
    (go row.last_connection_start_time refl, others_not_latest row h gs t ds)
  where
    go : (o : Option ℕ) → row.last_connection_start_time ≡ o → is_latest row g ≡ false
    go none e = rw e (ground arith)
    go (some n) e = rw e (ground (arith, rw e at t))

pub Shows-drop :
    (row : NodeRow) (before after : List NodeHandle) (h : NodeHandle)
    → All
        (λ (g : NodeHandle). (g.connection_start_time == h.connection_start_time) ≡ false)
        (before ++ after)
    → Shows (before ++ h ∷ after) row
    → Shows (before ++ after) (after_drop h row)
Shows-drop row before after h d (e, all) = elim (Bool-cases (is_latest row h)) [
  | inl latest ↦ rw (hit latest) (
    sym (any_none _ (before ++ after) (others_not_latest row h (before ++ after) latest d)),
    All-none (record row { controller = none }) (before ++ after)
        (others_not_latest row h (before ++ after) latest d),
  )
  | inr other ↦ rw (miss other) (
    e ∙ any-drop (is_latest row) before after h other,
    All-drop (λ g. is_latest row g ≡ true → row.controller ≡ some g.controller) before after h all,
  )
]
  where
    hit :
        is_latest row h ≡ true → is_connection h.id h.controller h.connection_start_time row ≡ true
    hit latest =
        rw
          (All-at (λ g. is_latest row g ≡ true → row.controller ≡ some g.controller) before after h
            all latest)
          (ground (arith, latest))

    miss :
        is_latest row h ≡ false
        → is_connection h.id h.controller h.connection_start_time row ≡ false
    miss other = ground (arith, other)
