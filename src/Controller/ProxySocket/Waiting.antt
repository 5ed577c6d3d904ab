-- ===== src/Controller/ProxySocket/Waiting.antt =====
-- A request for a route (`handle_route_info_request` of plane/src/controller/proxy.rs) among the
-- updates of the backends' states: the steps in which they happen.
pub mod Target
pub mod Final
pub mod Served
pub mod Preserved
pub mod Answered
use plane.Prelude.{
  Bool, List, Option, [], if◌then◌else◌, none, some, ℕ, ◌&&◌, ◌++◌, ◌==◌, ◌∷◌, ◌≡◌, ◌⊎◌, find,
}
use plane.BackendState.{BackendAddr, BackendState}
use plane.Database.{Database, TokenRow}
use plane.Database.Backend.{update_state}
use plane.Database.Routes.{PartialRouteInfo, RouteInfo, route_info_for_token}
use plane.Controller.ProxySocket.{
  Progress, after_first_query, after_notification, after_second_query, asked, finished, subscribed,
  to_subscribe, waiting_for,
}

-- `queue` has the notifications of the subscription that the task has not yet received; `sent`
-- what the proxy was answered.
pub record World : Type 0 where
  pub db : Database
  pub progress : Progress
  pub queue : List BackendState
  pub sent : List (Option RouteInfo)

abbrev pub start : Database → World
start db = record { db = db; progress = asked; queue = []; sent = [] }

-- The backend that the subscription is for.
abbrev pub listens_to : Progress → Option ℕ
listens_to (subscribed p) = some p.backend_id
listens_to (waiting_for p) = some p.backend_id
listens_to _ = none

abbrev pub delivered : Option ℕ → ℕ → BackendState → Bool → List BackendState → List BackendState
delivered none b s accepted queue = queue
delivered (some j) b s accepted queue = if accepted && (j == b) then queue ++ s ∷ [] else queue

abbrev pub proceed : List (Option RouteInfo) × Progress → World → World
proceed (replies, progress) w = record w { progress = progress; sent = w.sent ++ replies }

abbrev pub at_token : ℕ → TokenRow → Bool
at_token token t = t.token == token

module _ (is_static : ℕ → Bool) (parse_address : ℕ → Option BackendAddr) (token : ℕ) where
  pub data Step (w u : World) : Type 0 where
    first_query :
        w.progress ≡ asked
        → u
          ≡ proceed (after_first_query (route_info_for_token is_static parse_address token w.db)) w
        → Step w u
    subscribe :
        (p : PartialRouteInfo)
        → w.progress ≡ to_subscribe p
        → u ≡ record w { progress = subscribed p; queue = [] }
        → Step w u
    second_query :
        (p : PartialRouteInfo)
        → w.progress ≡ subscribed p
        → u
          ≡ proceed
              (after_second_query p (route_info_for_token is_static parse_address token w.db))
              w
        → Step w u
    notification :
        (p : PartialRouteInfo) (s : BackendState) (queue : List BackendState)
        → w.progress ≡ waiting_for p
        → w.queue ≡ s ∷ queue
        → u ≡ proceed (after_notification p s) (record w { queue = queue })
        → Step w u
    -- A query fails, which is logged or closes the socket.
    query_fails :
        w.progress ≡ asked ⊎ ((p : PartialRouteInfo) × (w.progress ≡ subscribed p))
        → u ≡ record w { progress = finished }
        → Step w u
    -- Nothing comes for thirty minutes, or the subscription is closed.
    timeout :
        (p : PartialRouteInfo)
        → w.progress ≡ waiting_for p
        → w.queue ≡ []
        → u ≡ record w { progress = finished }
        → Step w u
    update :
        (now b : ℕ) (s : BackendState)
        → u ≡ record w {
          db = (update_state now b s w.db).1;
          queue = delivered (listens_to w.progress) b s (update_state now b s w.db).0 w.queue;
        }
        → Step w u
    -- Tokens are given out, revoked and cleaned up; one that is in use is not given out again.
    tokens_change :
        (rows : List TokenRow)
        → (find (at_token token) rows ≡ none)
          ⊎ (find (at_token token) rows ≡ find (at_token token) w.db.token)
        → u ≡ record w { db = record w.db { token = rows } }
        → Step w u

  pub data Reach (w : World) : World → Type 0 where
    here : Reach w w
    next : {u v : World} → Reach w u → Step u v → Reach w v
