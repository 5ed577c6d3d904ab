-- ===== src/Proxy/RouteMap/Woken.antt =====
-- A lookup that waits is woken by the answer for its token (plane/src/proxy/route_map.rs).
use plane.Prelude.{
  All, Bool, List, Option, [], false, true, ℕ, ◌∷◌, ◌≡◌, ==_refl, All-map, Bool-cases, arith, inl,
  inr, none, refl, some, ◌==◌,
}
use plane.Prelude.Rows.{any_where, delete_where}
use plane.Database.Routes.{RouteInfo}
use plane.Proxy.RouteMap.{
  Looked, LruCache, RouteMap, add_listener, cached, finish, found, has_token, lookup, new_map,
  receive, remove_backend, requests, set_sender,
}

==_eq : (a b : ℕ) → (a == b) ≡ true → a ≡ b
==_eq a b h = ground arith

delete-none : (p : ℕ → Bool) (xs : List ℕ) → any_where p xs ≡ false → delete_where p xs ≡ xs
unfolding any_where delete_where
delete-none p [] h = refl
delete-none p (x ∷ xs) h = ground (arith, delete-none p xs, h)

module _ (lru : LruCache (Option RouteInfo)) where
  -- `waiting` has the tokens of the lookups that sent a request and wait for their channels.
  pub record World : Type 0 where
    pub map : RouteMap lru
    pub waiting : List ℕ

  abbrev pub waits : Looked → List ℕ → List ℕ
  waits (found route) waiting = waiting
  waits (requests token) waiting = token ∷ waiting

  -- A channel wakes all who wait for it.
  abbrev pub woken : ℕ → Bool → List ℕ → List ℕ
  woken token true waiting = delete_where (has_token token) waiting
  woken token false waiting = waiting

  pub data Step (w u : World) : Type 0 where
    looks :
        (token : ℕ)
        → u ≡ record {
          map = (lookup lru token w.map).1;
          waiting = waits (lookup lru token w.map).0 w.waiting;
        }
        → Step w u
    finishes : (token : ℕ) → u ≡ record w { map = (finish lru token w.map).1 } → Step w u
    receives :
        (token : ℕ) (route : Option RouteInfo)
        → u ≡ record {
          map = (receive lru token route w.map).1;
          waiting = woken token (receive lru token route w.map).0 w.waiting;
        }
        → Step w u
    removes : (b : ℕ) → u ≡ record w { map = remove_backend lru b w.map } → Step w u
    sets_sender : u ≡ record w { map = set_sender lru w.map } → Step w u

  pub data Reach (w : World) : World → Type 0 where
    here : Reach w w
    next : {u v : World} → Reach w u → Step u v → Reach w v

  abbrev pub start : World
  start = record { map = new_map lru; waiting = [] }

  -- Every lookup that waits has its channel in the map.
  abbrev Heard : World → Type 0
  Heard w = All (λ t. any_where (has_token t) w.map.listeners ≡ true) w.waiting

  add_listener-keeps :
      (token t : ℕ) (listeners : List ℕ)
      → any_where (has_token t) listeners ≡ true
      → any_where (has_token t) (add_listener token listeners) ≡ true
  unfolding any_where
  add_listener-keeps token t listeners h =
      elim (Bool-cases (any_where (has_token token) listeners)) [
        | inl known ↦ rw known h
        | inr unknown ↦ rw unknown (rw h (ground arith))
      ]

  add_listener-adds :
      (token : ℕ) (listeners : List ℕ)
      → any_where (has_token token) (add_listener token listeners) ≡ true
  unfolding any_where
  add_listener-adds token listeners = elim (Bool-cases (any_where (has_token token) listeners)) [
    | inl known ↦ rw known known
    | inr unknown ↦ rw unknown (rw (==_refl token) refl)
  ]

  cached-keeps :
      (token t : ℕ) (o : Option (Option RouteInfo)) (m : RouteMap lru)
      → any_where (has_token t) m.listeners ≡ true
      → any_where (has_token t) (cached lru token o m).1.listeners ≡ true
  cached-keeps token t none m h = add_listener-keeps token t m.listeners h
  cached-keeps token t (some r) m h = h

  -- Who waits after a lookup has a channel.
  cached-Heard :
      (token : ℕ) (o : Option (Option RouteInfo)) (m : RouteMap lru) (waiting : List ℕ)
      → All (λ t. any_where (has_token t) m.listeners ≡ true) waiting
      → All
          (λ t. any_where (has_token t) (cached lru token o m).1.listeners ≡ true)
          (waits (cached lru token o m).0 waiting)
  cached-Heard token (some r) m waiting h = h
  cached-Heard token none m waiting h = elim (Bool-cases m.has_sender) [
    | inl sender ↦ rw sender (add_listener-adds token m.listeners, kept)
    | inr silent ↦ rw silent kept
  ]
    where
      kept : All (λ t. any_where (has_token t) (add_listener token m.listeners) ≡ true) waiting
      kept =
          All-map (λ t. any_where (has_token t) m.listeners ≡ true)
            (λ t. any_where (has_token t) (add_listener token m.listeners) ≡ true)
            (λ t k. add_listener-keeps token t m.listeners k) waiting h

  lookup-Heard :
      (token : ℕ) (w : World)
      → Heard w
      → Heard (record {
        map = (lookup lru token w.map).1;
        waiting = waits (lookup lru token w.map).0 w.waiting;
      })
  unfolding lookup
  lookup-Heard token w h = cached-Heard token (lru.get token w.map.routes).0 _ w.waiting h

  any-delete_other :
      (token t : ℕ) (xs : List ℕ)
      → (t == token) ≡ false
      → any_where (has_token t) xs ≡ true
      → any_where (has_token t) (delete_where (has_token token) xs) ≡ true
  unfolding any_where delete_where
  any-delete_other token t [] ne h = cc
  any-delete_other token t (x ∷ xs) ne h = ground (arith, any-delete_other token t xs ne)

  any-delete_same :
      (token : ℕ) (xs : List ℕ)
      → any_where (has_token token) (delete_where (has_token token) xs) ≡ false
  unfolding any_where delete_where
  any-delete_same token [] = refl
  any-delete_same token (x ∷ xs) = ground (arith, any-delete_same token xs)

  -- Those who still wait wait for another token, whose channel is left.
  woken-Heard :
      (token : ℕ) (listeners waiting : List ℕ)
      → All (λ t. any_where (has_token t) listeners ≡ true) waiting
      → All
          (λ t. any_where (has_token t) (delete_where (has_token token) listeners) ≡ true)
          (delete_where (has_token token) waiting)
  unfolding delete_where
  woken-Heard token listeners [] h = tt
  woken-Heard token listeners (t ∷ ts) (h, hs) = elim (Bool-cases (t == token)) [
    | inl same ↦ rw same (woken-Heard token listeners ts hs)
    | inr other ↦
        rw other (any-delete_other token t listeners other h, woken-Heard token listeners ts hs)
  ]

  unheard-none :
      (token : ℕ) (listeners waiting : List ℕ)
      → any_where (has_token token) listeners ≡ false
      → All (λ t. any_where (has_token t) listeners ≡ true) waiting
      → any_where (has_token token) waiting ≡ false
  unfolding any_where
  unheard-none token listeners [] u h = refl
  unheard-none token listeners (t ∷ ts) u (h, hs) = elim (Bool-cases (t == token)) [
    | inl same ↦ absurd (clash t (==_eq t token same) h)
    | inr other ↦ rw other (unheard-none token listeners ts u hs)
  ]
    where
      clash : (n : ℕ) → n ≡ token → any_where (has_token n) listeners ≡ true → ⊥
      clash n e k = cc

  -- An answer wakes every lookup that waits for its token.
  woken-none :
      (token : ℕ) (route : Option RouteInfo) (w : World)
      → Heard w
      → any_where (has_token token) (woken token (receive lru token route w.map).0 w.waiting)
        ≡ false
  unfolding receive
  woken-none token route w h = elim (Bool-cases (any_where (has_token token) w.map.listeners)) [
    | inl heard ↦ rw heard (any-delete_same token w.waiting)
    | inr unheard ↦ rw unheard (unheard-none token w.map.listeners w.waiting unheard h)
  ]

  receive-Heard :
      (token : ℕ) (route : Option RouteInfo) (w : World)
      → Heard w
      → Heard (record {
        map = (receive lru token route w.map).1;
        waiting = woken token (receive lru token route w.map).0 w.waiting;
      })
  unfolding receive
  receive-Heard token route w h = elim (Bool-cases (any_where (has_token token) w.map.listeners)) [
    | inl heard ↦ rw heard (woken-Heard token w.map.listeners w.waiting h)
    | inr unheard ↦ rw unheard (rw (delete-none (has_token token) w.map.listeners unheard) h)
  ]

  step-Heard : (w u : World) → Step w u → Heard w → Heard u
  unfolding finish remove_backend
  step-Heard w u (looks token e) h = rw e (lookup-Heard token w h)
  step-Heard w u (finishes token e) h = rw e h
  step-Heard w u (receives token route e) h = rw e (receive-Heard token route w h)
  step-Heard w u (removes b e) h = rw e h
  step-Heard w u (sets_sender e) h = rw e h

  reach-Heard : (w : World) → Reach start w → Heard w
  reach-Heard w here = tt
  reach-Heard w (next {u} r s) = step-Heard u w s (reach-Heard u r)

  -- However lookups, answers and removals interleave, every lookup that waits has a channel, and
  -- once an answer for its token has come no lookup waits for that token any more.
  pub reach-woken :
      (w : World) (token : ℕ) (route : Option RouteInfo)
      → Reach start w
      → All (λ t. any_where (has_token t) w.map.listeners ≡ true) w.waiting
        × (any_where (has_token token) (woken token (receive lru token route w.map).0 w.waiting)
            ≡ false)
  reach-woken w token route r = (reach-Heard w r, woken-none token route w (reach-Heard w r))
