-- ===== src/Proxy/Headers.antt =====
-- What the proxy does with the headers of a request (`prepare_request` of
-- plane/src/proxy/proxy_server.rs, `add_header` and `set_upstream_address` of
-- dynamic-proxy/src/request.rs).
pub mod Removal
pub mod Verified
use plane.Prelude.{
  Bool, List, Option, [], false, filterb, if◌then◌else◌, none, not, some, true, ◌++◌, ◌∷◌,
}
use plane.Text.{Text, same, starts_with}
use plane.Proxy.Request.{Host, cluster_itself, mismatch, subdomain_from_host}

-- A header map: the pairs of a name, in lower case, and a value, in the order they were added.
abbrev pub HeaderMap : Type 0
HeaderMap = List (Text × Text)

-- `HeaderMap::get`: the first value of the name.
unfoldable pub get : Text → HeaderMap → Option Text
get name [] = none
get name ((k, v) ∷ m) = if same k name then some v else get name m

-- `HeaderMap::remove`: every value of the name goes.
unfoldable pub remove : Text → HeaderMap → HeaderMap
remove name m = filterb (λ h. not (same h.0 name)) m

-- `"x-verified-"`
abbrev pub verified_prefix : Text
verified_prefix = 120 ∷ 45 ∷ 118 ∷ 101 ∷ 114 ∷ 105 ∷ 102 ∷ 105 ∷ 101 ∷ 100 ∷ 45 ∷ []

-- `"username"`, `"user-data"`, `"path"`, `"backend"`, `"secret"`
abbrev pub verified_username : Text
verified_username = verified_prefix ++ 117 ∷ 115 ∷ 101 ∷ 114 ∷ 110 ∷ 97 ∷ 109 ∷ 101 ∷ []

abbrev pub verified_user_data : Text
verified_user_data = verified_prefix ++ 117 ∷ 115 ∷ 101 ∷ 114 ∷ 45 ∷ 100 ∷ 97 ∷ 116 ∷ 97 ∷ []

abbrev pub verified_path : Text
verified_path = verified_prefix ++ 112 ∷ 97 ∷ 116 ∷ 104 ∷ []

abbrev pub verified_backend : Text
verified_backend = verified_prefix ++ 98 ∷ 97 ∷ 99 ∷ 107 ∷ 101 ∷ 110 ∷ 100 ∷ []

abbrev pub verified_secret : Text
verified_secret = verified_prefix ++ 115 ∷ 101 ∷ 99 ∷ 114 ∷ 101 ∷ 116 ∷ []

-- `"host"`
abbrev pub host_header : Text
host_header = 104 ∷ 111 ∷ 115 ∷ 116 ∷ []

-- `RouteInfo` of common/src/protocol.rs. The user data is the text of its JSON.
pub record RouteInfo : Type 0 where
  pub backend_id : Text
  pub address : Text
  pub secret_token : Text
  pub cluster : Text
  pub user : Option Text
  pub user_data : Option Text
  pub subdomain : Option Text

-- The parts of a request that change: its headers and the authority of its URI.
pub record Request : Type 0 where
  pub headers : HeaderMap
  pub authority : Option Text

pub data Prepared : Type 0 where
  ready : Request → Prepared
  bad_request : Prepared
  forbidden : Prepared

unfoldable pub set_upstream_address : Text → Request → Request
set_upstream_address address r = record r { authority = some address }

unfoldable pub remove_all : List Text → HeaderMap → HeaderMap
remove_all [] m = m
remove_all (name ∷ names) m = remove_all names (remove name m)

unfoldable pub is_verified : Text → Bool
is_verified name = starts_with verified_prefix name

unfoldable pub headers_to_remove : HeaderMap → List Text
headers_to_remove [] = []
headers_to_remove ((name, v) ∷ m) =
    let rest = headers_to_remove m in if is_verified name then name ∷ rest else rest

-- `valid_value` is `HeaderValue::from_str` and `to_str` is `HeaderValue::to_str`, which succeeds on
-- a value or not.
module _ (valid_value to_str : Text → Bool) where
  unfoldable pub add_header : Text → Text → HeaderMap → HeaderMap
  add_header key value m = if valid_value value then m ++ (key, value) ∷ [] else m

  abbrev add_optional : Text → Option Text → HeaderMap → HeaderMap
  add_optional key none m = m
  add_optional key (some value) m = add_header key value m

  unfoldable pub plane_headers : RouteInfo → Text → HeaderMap → HeaderMap
  plane_headers route original_path m =
      let m1 = add_optional verified_username route.user m in
      let m2 = add_optional verified_user_data route.user_data m1 in
      let m3 = add_header verified_path original_path m2 in
      let m4 = add_header verified_backend route.backend_id m3 in
      add_header verified_secret route.secret_token m4

  unfoldable pub marked : Request → RouteInfo → Text → Request
  marked r route original_path =
      let r' = set_upstream_address route.address r in
      record r' {
        headers =
            plane_headers route original_path
              (remove_all (headers_to_remove r'.headers) r'.headers);
      }

  -- Whether the subdomain of the request is the one that the route asks for.
  unfoldable pub serves : Option Text → Host → Bool
  serves asked mismatch = false
  serves none found = true
  serves (some s) cluster_itself = false
  serves (some s) (Host.subdomain t) = same t s

  abbrev for_host : Option Text → Request → RouteInfo → Text → Prepared
  for_host none r route original_path = bad_request
  for_host (some host) r route original_path =
      if to_str host
      then (if serves route.subdomain (subdomain_from_host host route.cluster)
          then ready (marked r route original_path)
          else forbidden)
      else bad_request

  unfoldable pub prepare_request : Request → RouteInfo → Text → Prepared
  prepare_request r route original_path = for_host (get host_header r.headers) r route original_path
