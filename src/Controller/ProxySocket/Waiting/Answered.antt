-- ===== src/Controller/ProxySocket/Waiting/Answered.antt =====
-- What a proxy that asks for a route is answered, and that it is not left waiting for a backend that
-- was ready all along (plane/src/controller/proxy.rs).
use plane.Prelude.{Bool, List, Option, [], inl, inr, none, refl, some, ℕ, ◌∷◌, ◌≡◌, ◌⊎◌}
use plane.BackendState.{BackendAddr}
use plane.Database.{Database}
use plane.Database.Routes.{RouteInfo, PartialRouteInfo}
use plane.Controller.ProxySocket.{Progress, finished, waiting_for}
use plane.Controller.ProxySocket.Waiting.{Reach, World, start}
use plane.Controller.ProxySocket.Waiting.Target.{Keyed, target}
use plane.Controller.ProxySocket.Waiting.Final.{Answers, HasFinal, IsStarting}
use plane.Controller.ProxySocket.Waiting.Preserved.{reach-IsServed}

module _ (is_static : ℕ → Bool) (parse_address : ℕ → Option BackendAddr) (token : ℕ) where
  -- However the request is interleaved with the updates of the backends and with the tokens that
  -- come and go, the proxy is answered at most once, and any route that it is given leads to the
  -- backend that the token named when the request came.
  pub reach-answered_once :
      (db : Database) (w : World)
      → Keyed db.backend
      → Reach is_static parse_address token (start db) w
      → (w.sent ≡ [])
        ⊎ (w.sent ≡ none ∷ [])
        ⊎ ((r : RouteInfo) × (w.sent ≡ some r ∷ [])
            × (target is_static parse_address token db ≡ some r.backend_id))
  reach-answered_once db w k r =
      let i = reach-IsServed is_static parse_address token db w k r in
      go w.progress w.sent i.answers
    where
      go :
          (q : Progress) (sent : List (Option RouteInfo))
          → Answers (target is_static parse_address token db) q sent
          → (sent ≡ [])
            ⊎ (sent ≡ none ∷ [])
            ⊎ ((r : RouteInfo) × (sent ≡ some r ∷ [])
                × (target is_static parse_address token db ≡ some r.backend_id))
      go finished [] a = inl refl
      go finished (none ∷ []) a = inr (inl refl)
      go finished (some r ∷ []) a = inr (inr (r, refl, a))
      go finished (x ∷ y ∷ ys) a = absurd a
      go _ sent a = inl a

  -- There is no lost wakeup: a task that waits and has received every notification waits for a
  -- backend whose row is neither ready nor ending, although the backend may have changed between
  -- the first query and the subscription.
  pub reach-no_lost_wakeup :
      (db : Database) (w : World) (p : PartialRouteInfo)
      → Keyed db.backend
      → Reach is_static parse_address token (start db) w
      → w.progress ≡ waiting_for p
      → w.queue ≡ []
      → (target is_static parse_address token db ≡ some p.backend_id) × IsStarting p.backend_id w.db
  reach-no_lost_wakeup db w p k r e f =
      let i = reach-IsServed is_static parse_address token db w k r in
      (rw e at i.names, from_fits (rw f at (rw e at i.fits)))
    where
      from_fits : IsStarting p.backend_id w.db ⊎ HasFinal [] → IsStarting p.backend_id w.db
      from_fits (inl h) = h
      from_fits (inr h) = absurd h
