-- ===== src/Proxy/Headers/Verified.antt =====
-- The headers that a backend may trust (`prepare_request` of plane/src/proxy/proxy_server.rs).
use plane.Prelude.{
  All, Bool, [], arith, false, filterb, refl, true, ◌∙◌, ◌∷◌, ◌≡◌, All-append, Bool-cases, Option,
  ap, append_assoc, if◌then◌else◌, inl, inr, none, some, sym, ◌++◌, append_nil, Option-cases,
  filterb-append,
}
use plane.Text.{starts_with, Text, strip_prefix}
use plane.Proxy.Headers.{
  HeaderMap, headers_to_remove, is_verified, remove_all, add_optional, add_header, plane_headers,
  RouteInfo, Request, prepare_request, ready, marked, set_upstream_address, get, host_header,
  verified_secret, verified_backend, verified_path, verified_user_data, verified_username,
}
use plane.Proxy.Headers.Removal.{unverified, verified, rest_kept, none_forged}

-- The headers of Plane that a request carries, by name.
AllVerified : HeaderMap → Type 0
AllVerified m = All (λ h. is_verified h.0 ≡ true) m

verified-AllVerified : (m : HeaderMap) → AllVerified m → verified m ≡ m
unfolding verified filterb AllVerified
verified-AllVerified [] h = refl
verified-AllVerified ((k, v) ∷ m) (hk, hm) =
    rw hk (ap (λ t. (k, v) ∷ t) (verified-AllVerified m hm))

unverified-AllVerified : (m : HeaderMap) → AllVerified m → unverified m ≡ []
unfolding unverified filterb AllVerified
unverified-AllVerified [] h = refl
unverified-AllVerified ((k, v) ∷ m) (hk, hm) = rw hk (unverified-AllVerified m hm)

module _ (valid_value to_str : Text → Bool) where
  add_header-append :
      (k v : Text) (m n : HeaderMap)
      → add_header valid_value to_str k v (m ++ n) ≡ m ++ add_header valid_value to_str k v n
  unfolding add_header
  add_header-append k v m n = elim (Bool-cases (valid_value v)) [
    | inl ok ↦ rw ok (append_assoc m n ((k, v) ∷ []))
    | inr bad ↦ rw bad refl
  ]

  add_optional-append :
      (k : Text) (v : Option Text) (m n : HeaderMap)
      → add_optional valid_value to_str k v (m ++ n) ≡ m ++ add_optional valid_value to_str k v n
  add_optional-append k none m n = refl
  add_optional-append k (some v) m n = add_header-append k v m n

  add_header-AllVerified :
      (k v : Text) (m : HeaderMap)
      → is_verified k ≡ true
      → AllVerified m
      → AllVerified (add_header valid_value to_str k v m)
  unfolding add_header AllVerified
  add_header-AllVerified k v m hk h = keep (valid_value v)
    where
      keep : (b : Bool) → AllVerified (if b then m ++ (k, v) ∷ [] else m)
      keep true = All-append (λ h. is_verified h.0 ≡ true) m ((k, v) ∷ []) h (hk, tt)
      keep false = h

  add_optional-AllVerified :
      (k : Text) (v : Option Text) (m : HeaderMap)
      → is_verified k ≡ true
      → AllVerified m
      → AllVerified (add_optional valid_value to_str k v m)
  add_optional-AllVerified k none m hk h = h
  add_optional-AllVerified k (some v) m hk h = add_header-AllVerified k v m hk h

  plane_headers-append :
      (route : RouteInfo) (path : Text) (m : HeaderMap)
      → plane_headers valid_value to_str route path (m ++ [])
        ≡ m ++ plane_headers valid_value to_str route path []
  unfolding plane_headers
  plane_headers-append route path m = rw add_optional-append (
      rw add_optional-append
        (rw add_header-append (rw add_header-append (rw add_header-append refl))))

  plane_headers-AllVerified :
      (route : RouteInfo) (path : Text)
      → AllVerified (plane_headers valid_value to_str route path [])
  unfolding plane_headers is_verified starts_with strip_prefix AllVerified
  plane_headers-AllVerified route path =
      add_header-AllVerified verified_secret route.secret_token _ refl (
        add_header-AllVerified verified_backend route.backend_id _ refl (
          add_header-AllVerified verified_path path _ refl (
            add_optional-AllVerified verified_user_data route.user_data _ refl
              (add_optional-AllVerified verified_username route.user _ refl tt))))

  abbrev replaced : RouteInfo → Text → HeaderMap → HeaderMap
  replaced route path m =
      plane_headers valid_value to_str route path (remove_all (headers_to_remove m) m)

  plane_headers_lem :
      (route : RouteInfo) (path : Text) (m : HeaderMap)
      → plane_headers valid_value to_str route path m
        ≡ m ++ plane_headers valid_value to_str route path []
  plane_headers_lem route path m =
      ap (plane_headers valid_value to_str route path) (sym (append_nil m))
      ∙ plane_headers-append route path m

  accepted :
      (r : Request) (route : RouteInfo) (path : Text) (r' : Request)
      → prepare_request valid_value to_str r route path ≡ ready r'
      → marked valid_value to_str r route path ≡ r'
  unfolding prepare_request
  accepted r route path r' h = elim (Option-cases (get host_header r.headers)) [
    | inl absent ↦ ground arith
    | inr (host, found) ↦ ground arith
  ]

  marked_headers :
      (r : Request) (route : RouteInfo) (path : Text)
      → (marked valid_value to_str r route path).headers ≡ replaced route path r.headers
  unfolding marked set_upstream_address plane_headers
  marked_headers r route path = refl

  -- What the headers of a request become, apart.
  verified-replaced :
      (route : RouteInfo) (path : Text) (m : HeaderMap)
      → verified (replaced route path m) ≡ plane_headers valid_value to_str route path []
  unfolding verified
  verified-replaced route path m =
      ap verified (plane_headers_lem route path (remove_all (headers_to_remove m) m))
      ∙ filterb-append _ (remove_all (headers_to_remove m) m) _
      ∙ ap (λ t. t ++ verified (plane_headers valid_value to_str route path [])) (none_forged m)
      ∙ verified-AllVerified _ (plane_headers-AllVerified route path)

  unverified-replaced :
      (route : RouteInfo) (path : Text) (m : HeaderMap)
      → unverified (replaced route path m) ≡ unverified m
  unfolding unverified
  unverified-replaced route path m =
      ap unverified (plane_headers_lem route path (remove_all (headers_to_remove m) m))
      ∙ filterb-append _ (remove_all (headers_to_remove m) m) _
      ∙ ap (λ t. unverified (remove_all (headers_to_remove m) m) ++ t)
          (unverified-AllVerified _ (plane_headers-AllVerified route path))
      ∙ append_nil _
      ∙ rest_kept m

  -- A request that is let through carries, of the headers that a backend trusts, those of Plane and
  -- no other, whatever the client sent; the client's other headers are kept in their order, and the
  -- request goes to the address of the route.
  pub prepare_request-verified :
      (r r' : Request) (route : RouteInfo) (path : Text)
      → prepare_request valid_value to_str r route path ≡ ready r'
      → (verified r'.headers ≡ plane_headers valid_value to_str route path [])
        × (unverified r'.headers ≡ unverified r.headers)
        × (r'.authority ≡ some route.address)
  unfolding marked set_upstream_address
  prepare_request-verified r r' route path h =
      let e = accepted r route path r' h in
      let heads : r'.headers ≡ replaced route path r.headers =
        sym (ap (λ q. q.headers) e) ∙ marked_headers r route path in
      (
        ap verified heads ∙ verified-replaced route path r.headers,
        ap unverified heads ∙ unverified-replaced route path r.headers,
        sym (ap (λ q. q.authority) e),
      )
