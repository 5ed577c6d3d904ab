-- ===== src/Controller/ProxySocket/Waiting/Target.antt =====
-- The backend that a token names, in the tables that `route_info_for_token` of
-- plane/src/database/backend.rs reads.
use plane.Prelude.{
  All, Bool, Bool-cases, List, [], arith, false, find, if◌then◌else◌, inl, inr, some, subst, ℕ,
  ◌==◌, ◌∷◌, ◌≡◌, Option, none, refl, sym, ◌<◌, ap,
}
use plane.Prelude.Rows.{any_where, update_where, update_where-none}
use plane.BackendState.{BackendAddr, BackendState, BackendStatus, as_int, ordinal, status}
use plane.Database.Backend.{
  emit_state_change, accepts, backend, emit_state_change, update_state, with_state,
}
use plane.Database.{BackendRow, Database, TokenRow}
use plane.Database.Routes.{
  PartialRouteInfo, RouteInfo, available, has_static_token, joined, pending,
  route_info_for_static_token, route_info_for_token, route_of, static_partial, static_route,
  token_partial, token_route,
}
use plane.Controller.ProxySocket.Waiting.{at_token}

-- The ids of the rows differ: they are the primary key.
abbrev pub Keyed : List BackendRow → Type 0
Keyed [] = Unit
Keyed (row ∷ rows) = All (λ (r : BackendRow). (row.id == r.id) ≡ false) rows × Keyed rows

abbrev at_id : ℕ → BackendRow → Bool
at_id b row = row.id == b

find-All :
    (P : BackendRow → Type 0) (p : BackendRow → Bool) (rows : List BackendRow) (r : BackendRow)
    → All P rows
    → find p rows ≡ some r
    → P r
unfolding find
find-All P p [] r h f = cc
find-All P p (row ∷ rows) r (h, hs) f = elim (Bool-cases (p row)) [
  | inl hit ↦ subst P (ground (arith, f, hit)) h
  | inr miss ↦ find-All P p rows r hs (rw miss at f)
]

find-Keyed :
    (p : BackendRow → Bool) (rows : List BackendRow) (r : BackendRow)
    → Keyed rows
    → find p rows ≡ some r
    → find (at_id r.id) rows ≡ some r
unfolding find
find-Keyed p [] r k f = cc
find-Keyed p (row ∷ rows) r (k, ks) f = elim (Bool-cases (p row)) [
  | inl hit ↦ ground (arith, f, hit)
  | inr miss ↦
      rw (find-All (λ s. (row.id == s.id) ≡ false) p rows r k (rw miss at f))
        (find-Keyed p rows r ks (rw miss at f))
]

All-update_where :
    (P : BackendRow → Type 0) (now b : ℕ) (s : BackendState) (rows : List BackendRow)
    → ((row : BackendRow) → P row → P (with_state now s row))
    → All P rows
    → All P (update_where (accepts b (as_int (status s))) (with_state now s) rows)
unfolding update_where
All-update_where P now b s [] f h = tt
All-update_where P now b s (row ∷ rows) f (h, hs) = (
  elim (Bool-cases (accepts b (as_int (status s)) row)) [
    | inl hit ↦ rw hit (f row h)
    | inr miss ↦ rw miss h
  ],
  All-update_where P now b s rows f hs,
)

update_where-id :
    (now b : ℕ) (s : BackendState) (row : BackendRow)
    → (if accepts b (as_int (status s)) row then with_state now s row else row).id ≡ row.id
update_where-id now b s row = ground arith

Keyed-update_where :
    (now b : ℕ) (s : BackendState) (rows : List BackendRow)
    → Keyed rows
    → Keyed (update_where (accepts b (as_int (status s))) (with_state now s) rows)
unfolding update_where
Keyed-update_where now b s [] k = tt
Keyed-update_where now b s (row ∷ rows) (k, ks) = (
  rw (update_where-id now b s row)
      (All-update_where (λ r. (row.id == r.id) ≡ false) now b s rows (λ r h. h) k),
  Keyed-update_where now b s rows ks,
)

-- Whether it is accepted or not, an update is this statement on the table of backends.
backend_table-update_state :
    (now b : ℕ) (s : BackendState) (db : Database)
    → (update_state now b s db).1.backend
      ≡ update_where (accepts b (as_int (status s))) (with_state now s) db.backend
unfolding update_state emit_state_change
backend_table-update_state now b s db =
    elim (Bool-cases (any_where (accepts b (as_int (status s))) db.backend)) [
      | inl some_row ↦ rw some_row refl
      | inr no_row ↦ rw no_row (sym (update_where-none _ (with_state now s) db.backend no_row))
    ]

token-update_state :
    (now b : ℕ) (s : BackendState) (db : Database) → (update_state now b s db).1.token ≡ db.token
unfolding update_state emit_state_change
token-update_state now b s db = ground arith

pub Keyed-update_state :
    (now b : ℕ) (s : BackendState) (db : Database)
    → Keyed db.backend
    → Keyed (update_state now b s db).1.backend
Keyed-update_state now b s db k =
    rw (backend_table-update_state now b s db) (Keyed-update_where now b s db.backend k)

abbrev id_of : Option BackendRow → Option ℕ
id_of none = none
id_of (some row) = some row.id

abbrev backend_id_of : Option TokenRow → Option ℕ
backend_id_of none = none
backend_id_of (some t) = some t.backend_id

find-static :
    (now b token : ℕ) (s : BackendState) (rows : List BackendRow)
    → id_of (
        find
          (λ (row : BackendRow). has_static_token token row.static_token)
          (update_where (accepts b (as_int (status s))) (with_state now s) rows))
      ≡ id_of (find (λ (row : BackendRow). has_static_token token row.static_token) rows)
unfolding find update_where
find-static now b token s [] = refl
find-static now b token s (row ∷ rows) = ground (arith, find-static now b token s rows)

module _ (is_static : ℕ → Bool) (parse_address : ℕ → Option BackendAddr) (token : ℕ) where
  -- The backend that the token is for.
  abbrev pub target : Database → Option ℕ
  target db =
      if is_static token
      then id_of (find (λ (row : BackendRow). has_static_token token row.static_token) db.backend)
      else backend_id_of (find (at_token token) db.token)

  pub target-update_state :
      (now b : ℕ) (s : BackendState) (db : Database)
      → target (update_state now b s db).1 ≡ target db
  target-update_state now b s db =
      rw (backend_table-update_state now b s db)
        (rw (token-update_state now b s db) (rw (find-static now b token s db.backend) refl))

  route_of_pending :
      (p q : PartialRouteInfo) (row : BackendRow) (st : BackendStatus)
      → route_of is_static parse_address p row st ≡ pending q
      → (p ≡ q) × (ordinal st < 4)
  unfolding route_of ordinal
  route_of_pending p q row st h = ground arith

  route_of_available :
      (p : PartialRouteInfo) (r : RouteInfo) (row : BackendRow) (st : BackendStatus)
      → route_of is_static parse_address p row st ≡ available r
      → p.backend_id ≡ r.backend_id
  unfolding route_of
  route_of_available p r row st h = ground arith

  static_pending :
      (db : Database) (q : PartialRouteInfo) (o : Option BackendRow)
      → Keyed db.backend
      → find (λ (row : BackendRow). has_static_token token row.static_token) db.backend ≡ o
      → static_route is_static parse_address o ≡ pending q
      → (id_of o ≡ some q.backend_id)
        × (row : BackendRow) × (backend q.backend_id db ≡ some row)
        × (ordinal row.last_status < 4)
  unfolding static_route backend
  static_pending db q none k f h = cc
  static_pending db q (some row) k f h =
      let (p_eq, lt) = route_of_pending (static_partial row) q row row.last_status h in
      (
        ap (λ (x : PartialRouteInfo). some x.backend_id) p_eq,
        row,
        subst (λ (x : PartialRouteInfo). find (at_id x.backend_id) db.backend ≡ some row) p_eq
            (find-Keyed _ db.backend row k f),
        lt,
      )

  joined_pending :
      (db : Database) (q : PartialRouteInfo) (t : TokenRow) (o : Option BackendRow)
      → backend t.backend_id db ≡ o
      → joined is_static parse_address t o ≡ pending q
      → (some t.backend_id ≡ some q.backend_id)
        × (row : BackendRow) × (backend q.backend_id db ≡ some row)
        × (ordinal row.last_status < 4)
  unfolding joined
  joined_pending db q t none f h = cc
  joined_pending db q t (some row) f h =
      let (p_eq, lt) = route_of_pending (token_partial t row) q row row.last_status h in
      (
        ap (λ (x : PartialRouteInfo). some x.backend_id) p_eq,
        row,
        subst (λ (x : PartialRouteInfo). backend x.backend_id db ≡ some row) p_eq f,
        lt,
      )

  token_pending :
      (db : Database) (q : PartialRouteInfo) (o : Option TokenRow)
      → token_route is_static parse_address o db ≡ pending q
      → (backend_id_of o ≡ some q.backend_id)
        × (row : BackendRow) × (backend q.backend_id db ≡ some row)
        × (ordinal row.last_status < 4)
  unfolding token_route
  token_pending db q none h = cc
  token_pending db q (some t) h = joined_pending db q t (backend t.backend_id db) refl h

  -- A route that is not ready is that of the token's backend, whose status is before `ready`.
  pub pending_lem :
      (db : Database) (q : PartialRouteInfo)
      → Keyed db.backend
      → route_info_for_token is_static parse_address token db ≡ pending q
      → (target db ≡ some q.backend_id)
        × (row : BackendRow) × (backend q.backend_id db ≡ some row)
        × (ordinal row.last_status < 4)
  unfolding route_info_for_token route_info_for_static_token
  pending_lem db q k h = elim (Bool-cases (is_static token)) [
    | inl static ↦ rw static (static_pending db q _ k refl (rw static at h))
    | inr dynamic ↦ rw dynamic (token_pending db q _ (rw dynamic at h))
  ]

  static_available :
      (r : RouteInfo) (o : Option BackendRow)
      → static_route is_static parse_address o ≡ available r
      → id_of o ≡ some r.backend_id
  unfolding static_route
  static_available r none h = cc
  static_available r (some row) h =
      ap some (route_of_available (static_partial row) r row row.last_status h)

  joined_available :
      (r : RouteInfo) (t : TokenRow) (o : Option BackendRow)
      → joined is_static parse_address t o ≡ available r
      → some t.backend_id ≡ some r.backend_id
  unfolding joined
  joined_available r t none h = cc
  joined_available r t (some row) h =
      ap some (route_of_available (token_partial t row) r row row.last_status h)

  token_available :
      (db : Database) (r : RouteInfo) (o : Option TokenRow)
      → token_route is_static parse_address o db ≡ available r
      → backend_id_of o ≡ some r.backend_id
  unfolding token_route
  token_available db r none h = cc
  token_available db r (some t) h = joined_available r t (backend t.backend_id db) h

  pub available_lem :
      (db : Database) (r : RouteInfo)
      → route_info_for_token is_static parse_address token db ≡ available r
      → target db ≡ some r.backend_id
  unfolding route_info_for_token route_info_for_static_token
  available_lem db r h = elim (Bool-cases (is_static token)) [
    | inl static ↦ rw static (static_available r _ (rw static at h))
    | inr dynamic ↦ rw dynamic (token_available db r _ (rw dynamic at h))
  ]
