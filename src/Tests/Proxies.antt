-- ===== src/Tests/Proxies.antt =====
-- Requests to the proxy (plane/src/proxy) and names (common/src/names.rs).
use plane.Prelude.{
  Bool, List, Option, [], ap, arith, false, none, refl, some, true, ◌++◌, ◌↔◌, ◌∷◌, ◌≡◌, ◌⊎◌,
  append_nil, ◌∙◌,
}
use plane.Prelude.Table
use plane.Text.{
  Text, contains, same, split_once, strip_suffix, split_once-absent, split_once-append,
}
use plane.Names.{
  container_prefix, drone_prefix, from_container_id, is_allowed, len, ok, to_container_id,
}
use plane.Names.Parsing.{IsName, container_id_round_trip}
use plane.Proxy.Request.{
  PathAndQuery, dot, https_port_suffix, question_mark, rendered, slash, subdomain_from_host,
}
use plane.Proxy.Request.Tokens.{subdomain_from_host_sound}
use plane.Proxy.Headers
use plane.Proxy.Headers.{
  Request, RouteInfo, get, host_header, marked, plane_headers, prepare_request, ready, serves,
  verified_username,
}
use plane.Proxy.Headers.Removal.{unverified, verified}
use plane.Proxy.Headers.Verified.{prepare_request-verified}
use plane.Proxy.ConnectionMonitor
use plane.Proxy.ConnectionMonitor.{ConnectionMonitor, empty}
use plane.Proxy.ConnectionMonitor.Counts.{
  Op, active, active-perform_all, connect, disconnect, make_visit, perform_all, take_visit,
  open_after,
}
use plane.Proxy.ConnectionMonitor.Watched.{IsWatched, perform_all-IsWatched}

-- "a", "b.c" and "a.b.c"
abbrev name : Text
name = 97 ∷ []

abbrev cluster : Text
cluster = 98 ∷ 46 ∷ 99 ∷ []

abbrev host : Text
host = 97 ∷ 46 ∷ 98 ∷ 46 ∷ 99 ∷ []

subdomain_from_host_sound_example :
    (host ≡ name ++ dot ∷ cluster) ⊎ (host ≡ (name ++ dot ∷ cluster) ++ https_port_suffix)
unfolding subdomain_from_host strip_suffix same
subdomain_from_host_sound_example = subdomain_from_host_sound host cluster name refl

-- A parser of paths: what stands before the first question mark is the path.
abbrev from_split : Text → Option (Text × Text) → Option PathAndQuery
from_split s none = some (record { path = s; query = none })
from_split s (some (p, q)) = some (record { path = p; query = some q })

abbrev from_str : Text → Option PathAndQuery
from_str s = from_split s (split_once question_mark s)

reads :
    (path : Text) (query : Option Text)
    → contains question_mark path ≡ false
    → from_str (slash ∷ (path ++ rendered query))
      ≡ some (record { path = slash ∷ path; query = query })
unfolding contains
reads path none h =
    ap (λ t. from_str (slash ∷ t)) (append_nil path)
    ∙ ap (from_split (slash ∷ path)) (split_once-absent question_mark (slash ∷ path) h)
reads path (some q) h =
    ap (from_split (slash ∷ (path ++ question_mark ∷ q)))
      (split_once-append question_mark (slash ∷ path) q h)

abbrev any_value : Text → Bool
any_value s = true

abbrev route : RouteInfo
route = record {
  backend_id = name;
  address = 49 ∷ [];
  secret_token = 115 ∷ [];
  cluster = cluster;
  user = none;
  user_data = none;
  subdomain = some name;
}

-- A client that claims to be a user.
abbrev forged : Request
forged = record { headers = (verified_username, name) ∷ (host_header, host) ∷ []; authority = none }

forged_ready :
    prepare_request any_value any_value forged route []
    ≡ ready (marked any_value any_value forged route [])
unfolding prepare_request Headers.get serves subdomain_from_host strip_suffix same
forged_ready = refl

prepare_request-verified_example :
    let r = marked any_value any_value forged route [] in
    (verified r.headers ≡ plane_headers any_value any_value route [] [])
    × (unverified r.headers ≡ unverified forged.headers)
    × (r.authority ≡ some route.address)
prepare_request-verified_example =
    prepare_request-verified any_value any_value forged (marked any_value any_value forged route [])
      route [] forged_ready

abbrev visits : List Op
visits =
    connect 0 3
    ∷ take_visit
    ∷ make_visit 7
    ∷ take_visit
    ∷ make_visit 14
    ∷ connect 15 3
    ∷ disconnect 3
    ∷ []

active-perform_all_example : active 3 (perform_all visits ConnectionMonitor.empty) ≡ 1
unfolding active open_after ConnectionMonitor.empty Table.get
active-perform_all_example =
    active-perform_all 3 visits ConnectionMonitor.empty 1 (omega arith) refl

perform_all-IsWatched_example : IsWatched (perform_all visits ConnectionMonitor.empty)
perform_all-IsWatched_example = perform_all-IsWatched visits

-- "dr-a"
abbrev drone_name : Text
drone_name = 100 ∷ 114 ∷ 45 ∷ 97 ∷ []

drone_name-IsName : IsName (some drone_prefix) drone_name
unfolding IsName len is_allowed
drone_name-IsName = ((45 ∷ 97 ∷ [], refl), omega arith, (refl, (refl, (refl, (refl, tt)))))

container_id_round_trip_example :
    (from_container_id (container_prefix ++ name) ≡ ok name)
    ↔ ((container_prefix ++ name ≡ to_container_id name) × IsName none name)
container_id_round_trip_example = container_id_round_trip (container_prefix ++ name) name
