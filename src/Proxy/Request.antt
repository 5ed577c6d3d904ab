-- ===== src/Proxy/Request.antt =====
-- The host and the path of a request (plane/src/proxy/request.rs) and bearer tokens
-- (`BearerToken` of common/src/types/mod.rs).
pub mod Tokens
use plane.Prelude.{Bool, Option, [], if◌then◌else◌, none, some, ℕ, ◌++◌, ◌∷◌}
use plane.Text.{Text, split_once, starts_with, strip_prefix, strip_suffix}

-- `":443"`
abbrev pub https_port_suffix : Text
https_port_suffix = 58 ∷ 52 ∷ 52 ∷ 51 ∷ []

-- `'.'`, `'/'` and `'?'`
abbrev pub dot : ℕ
dot = 46

abbrev pub slash : ℕ
slash = 47

abbrev pub question_mark : ℕ
question_mark = 63

-- What the host header says: a subdomain, the cluster itself, or another host.
pub data Host : Type 0 where
  subdomain : Text → Host
  cluster_itself : Host
  mismatch : Host

abbrev pub unwrap_or : Text → Option Text → Text
unwrap_or s none = s
unwrap_or s (some t) = t

abbrev pub under_dot : Option Text → Host
under_dot none = mismatch
under_dot (some s) = Host.subdomain s

abbrev pub before_cluster : Option Text → Host
before_cluster none = mismatch
before_cluster (some []) = cluster_itself
before_cluster (some (c ∷ s)) = under_dot (strip_suffix (dot ∷ []) (c ∷ s))

unfoldable pub subdomain_from_host : Text → Text → Host
subdomain_from_host host cluster =
    let host' = unwrap_or host (strip_suffix https_port_suffix host) in
    before_cluster (strip_suffix cluster host')

-- `"s."`
abbrev pub static_token_prefix : Text
static_token_prefix = 115 ∷ dot ∷ []

unfoldable pub is_static : Text → Bool
is_static token = starts_with static_token_prefix token

-- The path and the query of a URI, as the crate `http` holds them.
pub record PathAndQuery : Type 0 where
  pub path : Text
  pub query : Option Text

pub record Parts : Type 0 where
  pub path_and_query : Option PathAndQuery

-- `?query`, or nothing.
abbrev pub rendered : Option Text → Text
rendered none = []
rendered (some q) = question_mark ∷ q

abbrev token_and_path : Text → Option (Text × Text) → Text × Text
token_and_path full none = (full, [])
token_and_path full (some (token, path)) = (token, path)

-- `from_str` is `PathAndQuery::from_str` of `http`. The outer `none` is the panic of its `expect`.
module _ (from_str : Text → Option PathAndQuery) where
  abbrev pub rewritten : Text → Option PathAndQuery → Option (Option Text × Parts)
  rewritten token none = none
  rewritten token (some p) = some (some token, record { path_and_query = some p })

  abbrev pub take_token : Text → Text → Option Text → Parts → Option (Option Text × Parts)
  take_token [] path query parts = some (none, parts)
  take_token (c ∷ s) path query parts =
      if is_static (c ∷ s)
      then some (some (c ∷ s), parts)
      else rewritten (c ∷ s) (from_str (slash ∷ (path ++ rendered query)))

  abbrev pub take_from : Option Text → Option Text → Parts → Option (Option Text × Parts)
  take_from none query parts = some (none, parts)
  take_from (some full) query parts =
      let (token, path) = token_and_path full (split_once slash full) in
      take_token token path query parts

  abbrev pub take_from_path : Option PathAndQuery → Parts → Option (Option Text × Parts)
  take_from_path none parts = some (none, parts)
  take_from_path (some p) parts = take_from (strip_prefix (slash ∷ []) p.path) p.query parts

  unfoldable pub get_and_maybe_remove_bearer_token : Parts → Option (Option Text × Parts)
  get_and_maybe_remove_bearer_token parts = take_from_path parts.path_and_query parts
