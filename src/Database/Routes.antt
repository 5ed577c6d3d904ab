-- ===== src/Database/Routes.antt =====
-- `route_info_for_token` of plane/src/database/backend.rs: what the controller tells a proxy about
-- the backend of a token. The names that the tables hold were parsed before they were stored, and
-- are numbers; so are the texts of tokens and addresses. `is_static` reads the prefix of a token
-- and `parse_address` the text of an address.
use plane.Prelude.{Bool, Option, false, find, if◌then◌else◌, none, some, ℕ, ◌==◌}
use plane.BackendState.{BackendAddr, BackendStatus}
use plane.Database.{BackendRow, Database, TokenRow}
use plane.Database.Backend.{backend}

pub record PartialRouteInfo : Type 0 where
  pub backend_id : ℕ
  pub secret_token : ℕ
  pub cluster : ℕ
  pub user : Option ℕ
  pub user_data : Option ℕ
  pub subdomain : Option ℕ

-- `RouteInfo` of common/src/protocol.rs
pub record RouteInfo : Type 0 where
  pub backend_id : ℕ
  pub address : BackendAddr
  pub secret_token : ℕ
  pub cluster : ℕ
  pub user : Option ℕ
  pub user_data : Option ℕ
  pub subdomain : Option ℕ

abbrev pub set_address : PartialRouteInfo → BackendAddr → RouteInfo
set_address p a = record {
  backend_id = p.backend_id;
  address = a;
  secret_token = p.secret_token;
  cluster = p.cluster;
  user = p.user;
  user_data = p.user_data;
  subdomain = p.subdomain;
}

pub data RouteInfoResult : Type 0 where
  not_found : RouteInfoResult
  pending : PartialRouteInfo → RouteInfoResult
  available : RouteInfo → RouteInfoResult

-- The secret token of a static token is the empty text.
abbrev empty_secret : ℕ
empty_secret = 0

abbrev pub static_partial : BackendRow → PartialRouteInfo
static_partial row = record {
  backend_id = row.id;
  secret_token = empty_secret;
  cluster = row.cluster;
  user = none;
  user_data = none;
  subdomain = row.subdomain;
}

abbrev pub token_partial : TokenRow → BackendRow → PartialRouteInfo
token_partial t row = record {
  backend_id = t.backend_id;
  secret_token = t.secret_token;
  cluster = row.cluster;
  user = t.username;
  user_data = some t.auth;
  subdomain = row.subdomain;
}

abbrev pub has_static_token : ℕ → Option ℕ → Bool
has_static_token token none = false
has_static_token token (some t) = t == token

module _ (is_static : ℕ → Bool) (parse_address : ℕ → Option BackendAddr) where
  abbrev with_address : PartialRouteInfo → Option BackendAddr → RouteInfoResult
  with_address p none = not_found
  with_address p (some a) = available (set_address p a)

  abbrev pub parsed : Option ℕ → Option BackendAddr
  parsed none = none
  parsed (some text) = parse_address text

  -- The tests on `last_status`, which both queries make of the row that they find.
  unfoldable pub route_of : PartialRouteInfo → BackendRow → BackendStatus → RouteInfoResult
  route_of p row BackendStatus.ready = with_address p (parsed row.cluster_address)
  route_of p row BackendStatus.terminated = not_found
  route_of p row BackendStatus.terminating = not_found
  route_of p row BackendStatus.hard_terminating = not_found
  route_of p row _ = pending p

  unfoldable pub static_route : Option BackendRow → RouteInfoResult
  static_route none = not_found
  static_route (some row) = route_of (static_partial row) row row.last_status

  unfoldable pub route_info_for_static_token : ℕ → Database → RouteInfoResult
  unfolding find static_route
  route_info_for_static_token token db =
      static_route (find (λ (row : BackendRow). has_static_token token row.static_token) db.backend)

  unfoldable pub joined : TokenRow → Option BackendRow → RouteInfoResult
  joined t none = not_found
  joined t (some row) = route_of (token_partial t row) row row.last_status

  unfoldable pub token_route : Option TokenRow → Database → RouteInfoResult
  unfolding joined
  token_route none db = not_found
  token_route (some t) db = joined t (backend t.backend_id db)

  unfoldable pub route_info_for_token : ℕ → Database → RouteInfoResult
  unfolding find token_route
  route_info_for_token token db =
      if is_static token
      then route_info_for_static_token token db
      else token_route (find (λ (t : TokenRow). t.token == token) db.token) db
