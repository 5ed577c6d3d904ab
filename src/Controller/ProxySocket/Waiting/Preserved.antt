-- ===== src/Controller/ProxySocket/Waiting/Preserved.antt =====
-- Every step keeps the invariant of a request for a route (plane/src/controller/proxy.rs).
use plane.Prelude.{
  Bool, Bool-cases, List, Option, [], find, inl, inr, none, refl, ℕ, ◌&&◌, ◌==◌, ◌∙◌, ◌≡◌, ◌⊎◌,
}
use plane.BackendState.{BackendAddr, BackendState}
use plane.Database.{Database, TokenRow}
use plane.Database.Backend.{backend, update_state}
use plane.Controller.ProxySocket.{
  Progress, after_first_query, after_notification, after_second_query, asked, finished, subscribed,
  to_subscribe, waiting_for,
}
use plane.Controller.ProxySocket.Waiting.{
  Reach, Step, World, at_token, delivered, first_query, here, listens_to, next, notification,
  query_fails, second_query, start, subscribe, timeout, tokens_change, update,
}
use plane.Controller.ProxySocket.Waiting.Target.{Keyed, Keyed-update_state, target-update_state}
use plane.Controller.ProxySocket.Waiting.Final.{
  HasFinal-last, HasFinal-snoc, IsStarting-update_state,
}
use plane.Controller.ProxySocket.Waiting.Served.{
  Fits, IsServed, first_query-Good, goal, notification-Good, proceed-IsServed, query,
  second_query-Good,
}

module _ (is_static : ℕ → Bool) (parse_address : ℕ → Option BackendAddr) (token : ℕ) where
  goal_tokens :
      (db : Database) (rows : List TokenRow)
      → (find (at_token token) rows ≡ none)
        ⊎ (find (at_token token) rows ≡ find (at_token token) db.token)
      → (goal is_static parse_address token (record db { token = rows }) ≡ none)
        ⊎ (goal is_static parse_address token (record db { token = rows })
            ≡ goal is_static parse_address token db)
  goal_tokens db rows h = elim (Bool-cases (is_static token)) [
    | inl static ↦ inr (rw static refl)
    | inr dynamic ↦ elim h [
      | inl gone ↦ inl (rw dynamic (rw gone refl))
      | inr same ↦ inr (rw dynamic (rw same refl))
    ]
  ]

  weaken_target :
      (b g g' : Option ℕ) → (g' ≡ none) ⊎ (g' ≡ g) → (g ≡ none) ⊎ (g ≡ b) → (g' ≡ none) ⊎ (g' ≡ b)
  weaken_target b g g' (inl h) t = inl h
  weaken_target b g g' (inr h) (inl t) = inl (h ∙ t)
  weaken_target b g g' (inr h) (inr t) = inr (h ∙ t)

  tokens-Fits :
      (q : Progress) (db : Database) (rows : List TokenRow) (queue : List BackendState)
      → Fits is_static parse_address token q db queue
      → Fits is_static parse_address token q (record db { token = rows }) queue
  unfolding backend
  tokens-Fits (waiting_for p) db rows queue f = f
  tokens-Fits asked db rows queue f = tt
  tokens-Fits (to_subscribe p) db rows queue f = tt
  tokens-Fits (subscribed p) db rows queue f = tt
  tokens-Fits finished db rows queue f = tt

  update-Fits :
      (q : Progress) (now b : ℕ) (s : BackendState) (db : Database) (queue : List BackendState)
      → Fits is_static parse_address token q db queue
      → Fits is_static parse_address token q
          (update_state now b s db).1
          (delivered (listens_to q) b s (update_state now b s db).0 queue)
  update-Fits (waiting_for p) now b s db queue (inr final) =
      elim (Bool-cases ((update_state now b s db).0 && (p.backend_id == b))) [
        | inl taken ↦ inr (rw taken (HasFinal-snoc queue s final))
        | inr left ↦ inr (rw left final)
      ]
  update-Fits (waiting_for p) now b s db queue (inl begins) =
      elim (IsStarting-update_state now b p.backend_id s db begins) [
        | inl still ↦ inl still
        | inr (taken, same, final) ↦ inr (rw taken (rw same (HasFinal-last queue s final)))
      ]
  update-Fits asked now b s db queue f = tt
  update-Fits (to_subscribe p) now b s db queue f = tt
  update-Fits (subscribed p) now b s db queue f = tt
  update-Fits finished now b s db queue f = tt

  -- A request that ends without an answer: nothing was sent while it was open.
  closed-IsServed :
      (b : Option ℕ) (w : World)
      → w.sent ≡ []
      → IsServed is_static parse_address token b w
      → IsServed is_static parse_address token b (record w { progress = finished })
  closed-IsServed b w e i = record {
    keyed = i.keyed;
    same_target = i.same_target;
    fits = tt;
    names = tt;
    answers = rw e tt;
  }

  update-IsServed :
      (b : Option ℕ) (w : World) (now j : ℕ) (s : BackendState)
      → IsServed is_static parse_address token b w
      → IsServed is_static parse_address token b (record w {
        db = (update_state now j s w.db).1;
        queue = delivered (listens_to w.progress) j s (update_state now j s w.db).0 w.queue;
      })
  update-IsServed b w now j s i = record {
    keyed = Keyed-update_state now j s w.db i.keyed;
    same_target = rw (target-update_state is_static parse_address token now j s w.db) i.same_target;
    fits = update-Fits w.progress now j s w.db w.queue i.fits;
    names = i.names;
    answers = i.answers;
  }

  step-IsServed :
      (b : Option ℕ) (w u : World)
      → Step is_static parse_address token w u
      → IsServed is_static parse_address token b w
      → IsServed is_static parse_address token b u
  step-IsServed b w u (first_query e q) i = rw q (
      proceed-IsServed is_static parse_address token b w
        (after_first_query (query is_static parse_address token w.db)) i.keyed i.same_target
        (rw e at i.answers)
        (first_query-Good is_static parse_address token b w.db w.queue
          (query is_static parse_address token w.db) i.keyed i.same_target refl))
  step-IsServed b w u (subscribe p e q) i = rw q (record {
    keyed = i.keyed;
    same_target = i.same_target;
    fits = tt;
    names = rw e at i.names;
    answers = rw e at i.answers;
  })
  step-IsServed b w u (second_query p e q) i = rw q (
      proceed-IsServed is_static parse_address token b w
        (after_second_query p (query is_static parse_address token w.db)) i.keyed i.same_target
        (rw e at i.answers)
        (second_query-Good is_static parse_address token b w.db w.queue p
          (query is_static parse_address token w.db) i.keyed i.same_target (rw e at i.names) refl))
  step-IsServed b w u (notification p s queue e f q) i = rw q (
      proceed-IsServed is_static parse_address token b (record w { queue = queue })
        (after_notification p s) i.keyed i.same_target (rw e at i.answers)
        (notification-Good is_static parse_address token b w.db queue p s (rw e at i.names)
          (rw f at (rw e at i.fits))))
  step-IsServed b w u (query_fails (inl e) q) i = rw q (closed-IsServed b w (rw e at i.answers) i)
  step-IsServed b w u (query_fails (inr (p, e)) q) i =
      rw q (closed-IsServed b w (rw e at i.answers) i)
  step-IsServed b w u (timeout p e f q) i = rw q (closed-IsServed b w (rw e at i.answers) i)
  step-IsServed b w u (update now j s q) i = rw q (update-IsServed b w now j s i)
  step-IsServed b w u (tokens_change rows h q) i = rw q (record {
    keyed = i.keyed;
    same_target =
        weaken_target b (goal is_static parse_address token w.db)
          (goal is_static parse_address token (record w.db { token = rows }))
          (goal_tokens w.db rows h) i.same_target;
    fits = tokens-Fits w.progress w.db rows w.queue i.fits;
    names = i.names;
    answers = i.answers;
  })

  pub reach-IsServed :
      (db : Database) (w : World)
      → Keyed db.backend
      → Reach is_static parse_address token (start db) w
      → IsServed is_static parse_address token (goal is_static parse_address token db) w
  reach-IsServed db w k here = record {
    keyed = k;
    same_target = inr refl;
    fits = tt;
    names = tt;
    answers = refl;
  }
  reach-IsServed db w k (next {u} r s) =
      step-IsServed (goal is_static parse_address token db) u w s (reach-IsServed db u k r)
