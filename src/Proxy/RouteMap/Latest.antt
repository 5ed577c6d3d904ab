-- ===== src/Proxy/RouteMap/Latest.antt =====
-- What the routes of plane/src/proxy/route_map.rs should be, without a cache: the controller's latest
-- answers, less the backends that were removed since.
use mathlib.Core.Option
use plane.Prelude.{
  ==_iff, All, ◌++◌, Bool-cases, List, Option, [], ap, if◌then◌else◌, inl, inr, none, some, ℕ, ◌==◌,
  ◌∷◌, ◌≡◌, ◌⊎◌, arith, false, ◌≢◌,
}
use plane.Database.Routes.{RouteInfo}
use plane.Proxy.RouteMap.{without}

-- What happens to the map, in order.
pub data Event : Type 0 where
  looks : (token : ℕ) → Event
  finishes : (token : ℕ) → Event
  receives : (token : ℕ) (route : Option RouteInfo) → Event
  removes : (backend : ℕ) → Event

-- The latest answer for the token, without the cache.
abbrev pub answer_after : ℕ → Event → Option (Option RouteInfo) → Option (Option RouteInfo)
answer_after token (looks t) answer = answer
answer_after token (finishes t) answer = answer
answer_after token (receives t route) answer = if t == token then some route else answer
answer_after token (removes b) answer = Option.map (without b) answer

abbrev pub answers : ℕ → List Event → Option (Option RouteInfo) → Option (Option RouteInfo)
answers token [] answer = answer
answers token (e ∷ es) answer = answers token es (answer_after token e answer)

-- The specification, which knows no cache. The event leaves the route as it is: it is no answer for
-- the token and no removal of the backend.
abbrev Leaves : ℕ → RouteInfo → Event → Type 0
Leaves token route (looks t) = Unit
Leaves token route (finishes t) = Unit
Leaves token route (receives t r) = t ≢ token
Leaves token route (removes b) = b ≢ route.backend_id

-- The controller answered with the route, and nothing has changed it since.
pub record IsLatest (token : ℕ) (route : RouteInfo) (es : List Event) : Type 0 where
  pub before : List Event
  pub after : List Event
  pub answered : es ≡ before ++ receives token (some route) ∷ after
  pub left : All (Leaves token route) after

IsLatest-cons :
    (token : ℕ) (route : RouteInfo) (e : Event) (es : List Event)
    → IsLatest token route es
    → IsLatest token route (e ∷ es)
IsLatest-cons token route e es l = record {
  before = e ∷ l.before;
  after = l.after;
  answered = ap (λ t. e ∷ t) l.answered;
  left = l.left;
}

-- The event is the answer, or the route was there before and the event leaves it.
answer_after_cases :
    (token : ℕ) (route : RouteInfo) (e : Event) (answer : Option (Option RouteInfo))
    → answer_after token e answer ≡ some (some route)
    → ((answer ≡ some (some route)) × Leaves token route e) ⊎ (e ≡ receives token (some route))
answer_after_cases token route (looks t) answer h = inl (h, tt)
answer_after_cases token route (finishes t) answer h = inl (h, tt)
answer_after_cases token route (receives t r) answer h = elim (Bool-cases (t == token)) [
  | inl same ↦
      let is_route : some r ≡ some (some route) = rw same at h in
      let is_token = (==_iff t token).0 same in inr cc
  | inr other ↦ inl (rw other at h, ground (arith, other))
]
answer_after_cases token route (removes b) none h = cc
answer_after_cases token route (removes b) (some none) h = cc
answer_after_cases token route (removes b) (some (some r)) h =
    elim (Bool-cases (r.backend_id == b)) [
      | inl gone ↦ was_removed (rw gone at h)
      | inr stays ↦ kept (rw stays at h) stays
    ]
  where
    was_removed : {X : Type 0} → some none ≡ some (some route) → X
    was_removed e = cc

    backend_of : Option (Option RouteInfo) → ℕ
    backend_of (some (some x)) = x.backend_id
    backend_of _ = 0

    kept :
        some (some r) ≡ some (some route)
        → (r.backend_id == b) ≡ false
        → ((some (some r) ≡ some (some route)) × (b ≢ route.backend_id))
          ⊎ (removes b ≡ receives token (some route))
    kept e stays =
        let same_backend = ap backend_of e in inl (e, ground (arith, same_backend, stays))

latest :
    (token : ℕ) (route : RouteInfo) (es : List Event) (answer : Option (Option RouteInfo))
    → answers token es answer ≡ some (some route)
    → ((answer ≡ some (some route)) × All (Leaves token route) es) ⊎ IsLatest token route es
latest token route [] answer h = inl (h, tt)
latest token route (e ∷ es) answer h = after (latest token route es (answer_after token e answer) h)
  where
    first :
        All (Leaves token route) es
        → ((answer ≡ some (some route)) × Leaves token route e) ⊎ (e ≡ receives token (some route))
        → ((answer ≡ some (some route)) × All (Leaves token route) (e ∷ es))
          ⊎ IsLatest token route (e ∷ es)
    first left (inl (same, leaves)) = inl (same, (leaves, left))
    first left (inr answered) =
        inr (record { before = []; after = es; answered = ap (λ x. x ∷ es) answered; left = left })

    after :
        ((answer_after token e answer ≡ some (some route)) × All (Leaves token route) es)
          ⊎ IsLatest token route es
        → ((answer ≡ some (some route)) × All (Leaves token route) (e ∷ es))
          ⊎ IsLatest token route (e ∷ es)
    after (inl (same, left)) = first left (answer_after_cases token route e answer same)
    after (inr l) = inr (IsLatest-cons token route e es l)

pub IsLatest-new :
    (token : ℕ) (route : RouteInfo) (es : List Event)
    → answers token es none ≡ some (some route)
    → IsLatest token route es
IsLatest-new token route es h = go (latest token route es none h)
  where
    go :
        ((none ≡ some (some route)) × All (Leaves token route) es) ⊎ IsLatest token route es
        → IsLatest token route es
    go (inl (e, left)) = cc
    go (inr l) = l
