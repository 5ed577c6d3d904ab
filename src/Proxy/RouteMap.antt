-- ===== src/Proxy/RouteMap.antt =====
-- plane/src/proxy/route_map.rs: the routes that a proxy has asked the controller for. The cache of
-- the crate `lru` is an interface: its operations with their documented behaviour. Tokens and
-- backend names are numbers.
pub mod Latest
pub mod Current
pub mod Woken
use plane.Prelude.{
  Bool, List, Option, [], false, if◌then◌else◌, map, none, some, true, ℕ, ◌==◌, ◌∷◌, ◌≡◌, ◌≢◌, ◌⊎◌,
}
use mathlib.Core.Option
use plane.Prelude.Rows.{any_where, delete_where}
use plane.Database.Routes.{RouteInfo}

-- `LruCache<BearerToken, V>`. `peek` reads an entry without marking it as used; a push may evict
-- another entry.
pub record LruCache (V : Type 0) : Type 1 where
  pub Cache : Type 0
  pub new : Cache
  pub peek : ℕ → Cache → Option V
  pub get : ℕ → Cache → Option V × Cache
  pub push : ℕ → V → Cache → Cache
  -- `iter_mut`, with what is written to each value.
  pub update_all : (V → V) → Cache → Cache
  pub peek-new : (k : ℕ) → peek k new ≡ none
  pub get-value : (k : ℕ) (c : Cache) → (get k c).0 ≡ peek k c
  pub peek-get : (j k : ℕ) (c : Cache) → peek j (get k c).1 ≡ peek j c
  pub peek-push_same : (k : ℕ) (v : V) (c : Cache) → peek k (push k v c) ≡ some v
  pub peek-push_other :
      (j k : ℕ) (v : V) (c : Cache)
      → j ≢ k
      → (peek j (push k v c) ≡ peek j c) ⊎ (peek j (push k v c) ≡ none)
  pub peek-update_all :
      (k : ℕ) (f : V → V) (c : Cache) → peek k (update_all f c) ≡ Option.map f (peek k c)

abbrev pub has_token : ℕ → ℕ → Bool
has_token token t = t == token

abbrev pub add_listener : ℕ → List ℕ → List ℕ
add_listener token listeners =
    if any_where (has_token token) listeners then listeners else token ∷ listeners

abbrev pub flat : Option (Option RouteInfo) → Option RouteInfo
flat none = none
flat (some route) = route

abbrev pub without : ℕ → Option RouteInfo → Option RouteInfo
without b none = none
without b (some route) = if route.backend_id == b then none else some route

-- What the first part of `lookup` comes to: an answer, or a request that is sent.
pub data Looked : Type 0 where
  found : Option RouteInfo → Looked
  requests : (token : ℕ) → Looked

module _ (lru : LruCache (Option RouteInfo)) where
  -- `listeners` has the tokens that have a channel; `has_sender` is whether a sender is set.
  pub record RouteMap : Type 0 where
    pub routes : lru.Cache
    pub has_sender : Bool
    pub listeners : List ℕ

  abbrev pub new_map : RouteMap
  new_map = record { routes = lru.new; has_sender = false; listeners = [] }

  abbrev pub set_sender : RouteMap → RouteMap
  set_sender m = record m { has_sender = true }

  abbrev pub ask : ℕ → RouteMap → Looked × RouteMap
  ask token m = (
    if m.has_sender then requests token else found none,
    record m { listeners = add_listener token m.listeners },
  )

  abbrev pub cached : ℕ → Option (Option RouteInfo) → RouteMap → Looked × RouteMap
  cached token (some route) m = (found route, m)
  cached token none m = ask token m

  -- The cache, then the channel, then the request.
  unfoldable pub lookup : ℕ → RouteMap → Looked × RouteMap
  unfolding any_where
  lookup token m =
      let (entry, routes) = lru.get token m.routes in
      cached token entry (record m { routes = routes })

  -- The end of `lookup`, when its channel has changed.
  unfoldable pub finish : ℕ → RouteMap → Option RouteInfo × RouteMap
  finish token m =
      let (entry, routes) = lru.get token m.routes in (flat entry, record m { routes = routes })

  -- `receive` and `insert`: whether a channel was signalled.
  unfoldable pub receive : ℕ → Option RouteInfo → RouteMap → Bool × RouteMap
  unfolding any_where delete_where
  receive token route m = (
    any_where (has_token token) m.listeners,
    record m {
      routes = lru.push token route m.routes;
      listeners = delete_where (has_token token) m.listeners;
    },
  )

  unfoldable pub remove_backend : ℕ → RouteMap → RouteMap
  remove_backend b m = record m { routes = lru.update_all (without b) m.routes }
