-- ===== src/Tests/Routes.antt =====
-- A proxy asks for the route of a backend that becomes ready between the first query and the
-- subscription (plane/src/controller/proxy.rs), and the routes that a proxy keeps
-- (plane/src/proxy/route_map.rs).
use mathlib.Core.Option
use plane.Prelude.{
  Bool, Option, [], false, find, none, refl, some, ℕ, ◌∷◌, ◌≡◌, ◌⊎◌, ==_refl, All, Bool-cases, List,
  arith, if◌then◌else◌, inl, inr, true, ◌==◌, ◌≢◌,
}
use plane.Prelude.Rows.{any_where, delete_where, update_where}
use plane.BackendState.{BackendState, as_int, status}
use plane.Database.{Database, TokenRow}
use plane.Database.Backend.{backend, update_state}
use plane.Database.Routes.{
  RouteInfo, PartialRouteInfo, route_info_for_token, route_of, joined, token_route, set_address,
}
use plane.Controller.ProxySocket.{
  after_first_query, after_second_query, after_notification, subscribed, waiting_for, to_subscribe,
  finished,
}
use plane.Controller.ProxySocket.Waiting.{
  World, Reach, here, next, first_query, subscribe, second_query, update, notification, start,
}
use plane.Controller.ProxySocket.Waiting.Target.{target}
use plane.Controller.ProxySocket.Waiting.Final.{IsStarting}
use plane.Controller.ProxySocket.Waiting.Answered.{reach-answered_once, reach-no_lost_wakeup}
use plane.Proxy.RouteMap.{LruCache, RouteMap, has_token, lookup, finish, receive, remove_backend}
use plane.Proxy.RouteMap.Current.{run-current}
use plane.Proxy.RouteMap.Latest.{Event, IsLatest}
use plane.Proxy.RouteMap.Woken
use plane.Proxy.RouteMap.Woken.{reach-woken}
use plane.Tests.Streams.{database}

abbrev token_row : TokenRow
token_row = record {
  token = 900;
  backend_id = 50;
  username = none;
  auth = 0;
  secret_token = 77;
  expiration_time = 1000;
}

abbrev tables : Database
tables = record database { token = token_row ∷ [] }

abbrev partial : PartialRouteInfo
partial = record {
  backend_id = 50;
  secret_token = 77;
  cluster = 1;
  user = none;
  user_data = some 0;
  subdomain = none;
}

-- No token is static, and every address is parsed.
abbrev dynamic : ℕ → Bool
dynamic token = false

abbrev parse : ℕ → Option ℕ
parse a = some a

abbrev w1 : World
w1 = record (start tables) { progress = to_subscribe partial }

abbrev w2 : World
w2 = record w1 { progress = subscribed partial }

abbrev w3 : World
w3 = record w2 { progress = waiting_for partial }

abbrev tables4 : Database
tables4 = (update_state 104 50 (BackendState.ready 11) tables).1

abbrev w4 : World
w4 = record w3 { db = tables4; queue = BackendState.ready 11 ∷ [] }

abbrev w5 : World
w5 = record w4 { progress = finished; queue = []; sent = some (set_address partial 11) ∷ [] }

waits : Reach dynamic parse 900 (start tables) w3
unfolding find backend route_info_for_token route_of joined token_route after_first_query
    after_second_query
waits =
    next {u = w2}
      (next {u = w1} (next {u = start tables} here (first_query refl refl))
        (subscribe partial refl refl))
      (second_query partial refl refl)

served : Reach dynamic parse 900 (start tables) w5
unfolding any_where update_where update_state as_int status after_notification
served =
    next {u = w4} (next {u = w3} waits (update 104 50 (BackendState.ready 11) refl))
      (notification partial (BackendState.ready 11) [] refl refl refl)

reach-answered_once_example :
    (w5.sent ≡ [])
    ⊎ (w5.sent ≡ none ∷ [])
    ⊎ ((r : RouteInfo) × (w5.sent ≡ some r ∷ [])
        × (target dynamic parse 900 tables ≡ some r.backend_id))
reach-answered_once_example = reach-answered_once dynamic parse 900 tables w5 (tt, tt) served

reach-no_lost_wakeup_example : (target dynamic parse 900 tables ≡ some 50) × IsStarting 50 tables
reach-no_lost_wakeup_example =
    reach-no_lost_wakeup dynamic parse 900 tables w3 partial (tt, tt) waits refl refl

-- A cache of one entry, which evicts it for another.
abbrev value_for : ℕ → Option (ℕ × Option RouteInfo) → Option (Option RouteInfo)
value_for k none = none
value_for k (some (j, v)) = if j == k then some v else none

abbrev all_values :
    (Option RouteInfo → Option RouteInfo)
    → Option (ℕ × Option RouteInfo)
    → Option (ℕ × Option RouteInfo)
all_values f none = none
all_values f (some (j, v)) = some (j, f v)

value_for-all_values :
    (k : ℕ) (f : Option RouteInfo → Option RouteInfo) (c : Option (ℕ × Option RouteInfo))
    → value_for k (all_values f c) ≡ Option.map f (value_for k c)
value_for-all_values k f none = refl
value_for-all_values k f (some (j, v)) = elim (Bool-cases (j == k)) [
  | inl same ↦ rw same refl
  | inr other ↦ rw other refl
]

other_key : (j k : ℕ) → j ≢ k → (k == j) ≡ false
other_key j k h = ground arith

abbrev one_entry : LruCache (Option RouteInfo)
one_entry = record {
  Cache = Option (ℕ × Option RouteInfo);
  new = none;
  peek = value_for;
  get = λ k c. (value_for k c, c);
  push = λ k v c. some (k, v);
  update_all = all_values;
  peek-new = λ k. refl;
  get-value = λ k c. refl;
  peek-get = λ j k c. refl;
  peek-push_same = λ k v c. rw (==_refl k) refl;
  peek-push_other = λ j k v c h. inr (rw (other_key j k h) refl);
  peek-update_all = value_for-all_values;
}

abbrev route : RouteInfo
route = set_address partial 11

abbrev events : List Event
events =
    Event.looks 900 ∷ Event.receives 900 (some route) ∷ Event.finishes 900 ∷ Event.removes 51 ∷ []

run-current_example : IsLatest 900 route events
unfolding lookup finish receive remove_backend any_where delete_where
run-current_example = run-current one_entry events 900 route (inl refl)

abbrev asking : RouteMap one_entry
asking = record { routes = none; has_sender = true; listeners = 900 ∷ [] }

abbrev asked_world : Woken.World one_entry
asked_world = record { map = asking; waiting = 900 ∷ [] }

asks : Woken.Reach one_entry (Woken.start one_entry) asked_world
unfolding lookup any_where
asks = Woken.next (Woken.next Woken.here (Woken.sets_sender refl)) (Woken.looks 900 refl)

reach-woken_example :
    All (λ t. any_where (has_token t) asking.listeners ≡ true) (900 ∷ [])
    × (any_where
          (has_token 900)
          (Woken.woken one_entry 900 (receive one_entry 900 (some route) asking).0 (900 ∷ []))
        ≡ false)
reach-woken_example = reach-woken one_entry asked_world 900 (some route) asks
