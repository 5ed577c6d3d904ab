-- ===== src/Proxy/RouteMap/Current.antt =====
-- The routes that a proxy uses are the controller's latest answers, less the backends that were
-- removed since (plane/src/proxy/route_map.rs). The cache forgets; it does not go stale.
use mathlib.Core.Option
use plane.Prelude.{
  Bool-cases, List, Option, [], ap, inl, inr, none, refl, some, ℕ, ◌==◌, ◌∙◌, ◌∷◌, ◌≡◌, ◌⊎◌, arith,
  false, subst, sym, true, ◌≢◌,
}
use plane.Database.Routes.{RouteInfo}
use plane.Proxy.RouteMap.Latest.{
  Event, IsLatest, answer_after, answers, finishes, IsLatest-new, looks, receives, removes,
}
use plane.Proxy.RouteMap.{
  LruCache, RouteMap, ask, cached, finish, flat, found, lookup, new_map, receive, remove_backend,
  requests, without,
}

module _ (lru : LruCache (Option RouteInfo)) where
  abbrev happens : Event → RouteMap lru → RouteMap lru
  happens (looks token) m = (lookup lru token m).1
  happens (finishes token) m = (finish lru token m).1
  happens (receives token route) m = (receive lru token route m).1
  happens (removes b) m = remove_backend lru b m

  abbrev pub run : List Event → RouteMap lru → RouteMap lru
  run [] m = m
  run (e ∷ es) m = run es (happens e m)

  -- The cache has forgotten the token, or agrees with the specification.
  abbrev Agrees : ℕ → RouteMap lru → Option (Option RouteInfo) → Type 0
  Agrees token m answer = (lru.peek token m.routes ≡ none) ⊎ (lru.peek token m.routes ≡ answer)

  lookup-peek :
      (j token : ℕ) (m : RouteMap lru)
      → lru.peek j (lookup lru token m).1.routes ≡ lru.peek j m.routes
  unfolding lookup
  lookup-peek j token m = go (lru.get token m.routes).0 refl
    where
      go :
          (o : Option (Option RouteInfo))
          → (lru.get token m.routes).0 ≡ o
          → lru.peek j (lookup lru token m).1.routes ≡ lru.peek j m.routes
      go none e = rw e (lru.peek-get j token m.routes)
      go (some r) e = rw e (lru.peek-get j token m.routes)

  pushed :
      (token t : ℕ) (route : Option RouteInfo) (m : RouteMap lru)
      → (t == token) ≡ true
      → lru.peek token (lru.push t route m.routes) ≡ some route
  pushed token t route m same =
      subst (λ k. lru.peek k (lru.push t route m.routes) ≡ some route) (ground (arith, same))
        (lru.peek-push_same t route m.routes)

  kept :
      (token t : ℕ) (route : Option RouteInfo) (m : RouteMap lru)
      (answer : Option (Option RouteInfo))
      → (t == token) ≡ false
      → Agrees token m answer
      → (lru.peek token (lru.push t route m.routes) ≡ none)
        ⊎ (lru.peek token (lru.push t route m.routes) ≡ answer)
  kept token t route m answer other h =
      elim (lru.peek-push_other token t route m.routes (ground (arith, other))) [
        | inl same ↦ either same h
        | inr evicted ↦ inl evicted
      ]
    where
      either :
          lru.peek token (lru.push t route m.routes) ≡ lru.peek token m.routes
          → Agrees token m answer
          → (lru.peek token (lru.push t route m.routes) ≡ none)
            ⊎ (lru.peek token (lru.push t route m.routes) ≡ answer)
      either e (inl gone) = inl (e ∙ gone)
      either e (inr agrees) = inr (e ∙ agrees)

  happens-Agrees :
      (token : ℕ) (e : Event) (m : RouteMap lru) (answer : Option (Option RouteInfo))
      → Agrees token m answer
      → Agrees token (happens e m) (answer_after token e answer)
  unfolding finish receive remove_backend
  happens-Agrees token (looks t) m answer h = rw (lookup-peek token t m) h
  happens-Agrees token (finishes t) m answer h = rw (lru.peek-get token t m.routes) h
  happens-Agrees token (receives t route) m answer h = elim (Bool-cases (t == token)) [
    | inl same ↦ inr (pushed token t route m same ∙ (rw same refl))
    | inr other ↦ rw other (kept token t route m answer other h)
  ]
  happens-Agrees token (removes b) m answer (inl gone) =
      inl (lru.peek-update_all token (without b) m.routes ∙ ap (Option.map (without b)) gone)
  happens-Agrees token (removes b) m answer (inr same) =
      inr (lru.peek-update_all token (without b) m.routes ∙ ap (Option.map (without b)) same)

  run-Agrees :
      (token : ℕ) (es : List Event) (m : RouteMap lru) (answer : Option (Option RouteInfo))
      → Agrees token m answer
      → Agrees token (run es m) (answers token es answer)
  run-Agrees token [] m answer h = h
  run-Agrees token (e ∷ es) m answer h =
      run-Agrees token es (happens e m) (answer_after token e answer)
        (happens-Agrees token e m answer h)

  ask-found :
      (token : ℕ) (m : RouteMap lru) (route : RouteInfo) → (ask lru token m).0 ≢ found (some route)
  ask-found token m route h = elim (Bool-cases m.has_sender) [
    | inl sender ↦ apart_request (rw sender at h)
    | inr silent ↦ apart_none (rw silent at h)
  ]
    where
      apart_request : requests token ≢ found (some route)
      apart_request e = cc

      apart_none : found none ≢ found (some route)
      apart_none e = cc

  cached-found :
      (token : ℕ) (o : Option (Option RouteInfo)) (m : RouteMap lru) (route : RouteInfo)
      → (cached lru token o m).0 ≡ found (some route)
      → o ≡ some (some route)
  cached-found token none m route h = absurd (ask-found token m route h)
  cached-found token (some r) m route h = ap some (same r h)
    where
      same : (r : Option RouteInfo) → found r ≡ found (some route) → r ≡ some route
      same r e = cc

  lookup-found :
      (token : ℕ) (m : RouteMap lru) (route : RouteInfo)
      → (lookup lru token m).0 ≡ found (some route)
      → lru.peek token m.routes ≡ some (some route)
  unfolding lookup
  lookup-found token m route h =
      sym (lru.get-value token m.routes) ∙ cached-found token (lru.get token m.routes).0 _ route h

  finish-some :
      (token : ℕ) (m : RouteMap lru) (route : RouteInfo)
      → (finish lru token m).0 ≡ some route
      → lru.peek token m.routes ≡ some (some route)
  unfolding finish
  finish-some token m route h = sym (lru.get-value token m.routes) ∙ go (lru.get token m.routes).0 h
    where
      go : (o : Option (Option RouteInfo)) → flat o ≡ some route → o ≡ some (some route)
      go none e = cc
      go (some r) e = ap some e

  agreed :
      (token : ℕ) (m : RouteMap lru) (answer : Option (Option RouteInfo)) (route : RouteInfo)
      → Agrees token m answer
      → lru.peek token m.routes ≡ some (some route)
      → answer ≡ some (some route)
  agreed token m answer route (inl gone) e = cc
  agreed token m answer route (inr same) e = sym same ∙ e

  -- After any sequence of lookups, answers and removals on a new map, a route that a lookup gives,
  -- at once or when it is woken, was an answer of the controller for the token, after which there
  -- was no other answer for the token and no removal of the route's backend.
  pub run-current :
      (es : List Event) (token : ℕ) (route : RouteInfo)
      → ((lookup lru token (run es (new_map lru))).0 ≡ found (some route))
        ⊎ ((finish lru token (run es (new_map lru))).0 ≡ some route)
      → IsLatest token route es
  run-current es token route h = IsLatest-new token route es (
      agreed token (run es (new_map lru)) (answers token es none) route
        (run-Agrees token es (new_map lru) none (inl (lru.peek-new token))) (cached_route h))
    where
      cached_route :
          ((lookup lru token (run es (new_map lru))).0 ≡ found (some route))
            ⊎ ((finish lru token (run es (new_map lru))).0 ≡ some route)
          → lru.peek token (run es (new_map lru)).routes ≡ some (some route)
      cached_route (inl e) = lookup-found token (run es (new_map lru)) route e
      cached_route (inr e) = finish-some token (run es (new_map lru)) route e
