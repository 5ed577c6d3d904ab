-- ===== src/Controller/ProxySocket/Waiting/Served.antt =====
-- The invariant of a request for a route, and the steps of the request itself
-- (plane/src/controller/proxy.rs).
use plane.Prelude.{
  Bool, List, Option, [], arith, inl, inr, none, refl, some, subst, sym, ℕ, ◌<◌, ◌∙◌, ◌∷◌, ◌≡◌, ◌⊎◌,
}
use plane.BackendState.{BackendAddr, BackendState, ordinal, status}
use plane.Database.{Database}
use plane.Database.Routes.{
  PartialRouteInfo, RouteInfo, RouteInfoResult, available, not_found, pending, route_info_for_token,
}
use plane.Controller.ProxySocket.{
  Progress, after_first_query, after_notification, after_second_query, subscribed, to_subscribe,
  waiting_for,
}
use plane.Controller.ProxySocket.Waiting.{World, proceed}
use plane.Controller.ProxySocket.Waiting.Target.{Keyed, available_lem, pending_lem, target}
use plane.Controller.ProxySocket.Waiting.Final.{Answers, HasFinal, IsStarting}

module _ (is_static : ℕ → Bool) (parse_address : ℕ → Option BackendAddr) (token : ℕ) where
  abbrev pub goal : Database → Option ℕ
  goal db = target is_static parse_address token db

  -- What keeps a request from waiting in vain.
  abbrev pub Fits : Progress → Database → List BackendState → Type 0
  Fits (waiting_for p) db queue = IsStarting p.backend_id db ⊎ HasFinal queue
  Fits _ db queue = Unit

  abbrev pub Names : Option ℕ → Progress → Type 0
  Names b (to_subscribe p) = b ≡ some p.backend_id
  Names b (subscribed p) = b ≡ some p.backend_id
  Names b (waiting_for p) = b ≡ some p.backend_id
  Names b _ = Unit

  -- `b` is the backend of the token when the request came.
  pub record IsServed (b : Option ℕ) (w : World) : Type 0 where
    pub keyed : Keyed w.db.backend
    pub same_target : (goal w.db ≡ none) ⊎ (goal w.db ≡ b)
    pub fits : Fits w.progress w.db w.queue
    pub names : Names b w.progress
    pub answers : Answers b w.progress w.sent

  abbrev Good :
      Option ℕ → Database → List BackendState → List (Option RouteInfo) × Progress → Type 0
  Good b db queue (replies, progress) =
      Fits progress db queue × Names b progress × Answers b progress replies

  pub proceed-IsServed :
      (b : Option ℕ) (w : World) (out : List (Option RouteInfo) × Progress)
      → Keyed w.db.backend
      → (goal w.db ≡ none) ⊎ (goal w.db ≡ b)
      → w.sent ≡ []
      → Good b w.db w.queue out
      → IsServed b (proceed out w)
  proceed-IsServed b w (replies, progress) k t e (fits, names, answers) = record {
    keyed = k;
    same_target = t;
    fits = fits;
    names = names;
    answers = rw e answers;
  }

  found_target :
      (b : Option ℕ) (db : Database) (n : ℕ)
      → (goal db ≡ none) ⊎ (goal db ≡ b)
      → goal db ≡ some n
      → b ≡ some n
  found_target b db n (inl h) e = cc
  found_target b db n (inr h) e = sym h ∙ e

  abbrev pub query : Database → RouteInfoResult
  query db = route_info_for_token is_static parse_address token db

  pub first_query-Good :
      (b : Option ℕ) (db : Database) (queue : List BackendState) (r : RouteInfoResult)
      → Keyed db.backend
      → (goal db ≡ none) ⊎ (goal db ≡ b)
      → query db ≡ r
      → Good b db queue (after_first_query r)
  unfolding after_first_query
  first_query-Good b db queue not_found k t h = (tt, tt, tt)
  first_query-Good b db queue (available r) k t h = (
    tt,
    tt,
    found_target b db r.backend_id t (available_lem is_static parse_address token db r h),
  )
  first_query-Good b db queue (pending p) k t h =
      let (e, row, found, lt) = pending_lem is_static parse_address token db p k h in
      (tt, found_target b db p.backend_id t e, refl)

  pub second_query-Good :
      (b : Option ℕ) (db : Database) (queue : List BackendState) (p : PartialRouteInfo)
      (r : RouteInfoResult)
      → Keyed db.backend
      → (goal db ≡ none) ⊎ (goal db ≡ b)
      → b ≡ some p.backend_id
      → query db ≡ r
      → Good b db queue (after_second_query p r)
  unfolding after_second_query
  second_query-Good b db queue p not_found k t n h = (tt, tt, tt)
  second_query-Good b db queue p (available r) k t n h = (
    tt,
    tt,
    found_target b db r.backend_id t (available_lem is_static parse_address token db r h),
  )
  second_query-Good b db queue p (pending q) k t n h =
      let (e, row, found, lt) = pending_lem is_static parse_address token db q k h in
      (
        inl (
            subst (λ i. IsStarting i db) (same_id (found_target b db q.backend_id t e))
              (row, found, lt)),
        n,
        refl,
      )
    where
      same_id : b ≡ some q.backend_id → q.backend_id ≡ p.backend_id
      same_id e = cc

  still_open :
      (X : Type 0) (s : BackendState) (queue : List BackendState)
      → ordinal (status s) < 4
      → X ⊎ HasFinal (s ∷ queue)
      → X ⊎ HasFinal queue
  still_open X s queue lt (inl x) = inl x
  still_open X s queue lt (inr (inl final)) = absurd (omega arith)
  still_open X s queue lt (inr (inr h)) = inr h

  pub notification-Good :
      (b : Option ℕ) (db : Database) (queue : List BackendState) (p : PartialRouteInfo)
      (s : BackendState)
      → b ≡ some p.backend_id
      → IsStarting p.backend_id db ⊎ HasFinal (s ∷ queue)
      → Good b db queue (after_notification p s)
  unfolding after_notification ordinal status
  notification-Good b db queue p (BackendState.ready a) n f = (tt, tt, n)
  notification-Good b db queue p (BackendState.terminated l k r e) n f = (tt, tt, tt)
  notification-Good b db queue p (BackendState.terminating l k r) n f = (tt, tt, tt)
  notification-Good b db queue p (BackendState.hard_terminating l r) n f = (tt, tt, tt)
  notification-Good b db queue p s n f =
      (still_open (IsStarting p.backend_id db) s queue (omega arith) f, n, refl)
