-- ===== src/Proxy/Headers/Removal.antt =====
-- Which headers `prepare_request` of plane/src/proxy/proxy_server.rs removes from a request.
use plane.Prelude.{
  All, Bool, List, [], arith, false, filterb, not, refl, true, ◌||◌, ◌∙◌, ◌∷◌, ◌≡◌, All-map, ap,
  if◌then◌else◌, sym,
}
use plane.Text.{Text, same, same→eq, same_refl}
use plane.Proxy.Headers.{HeaderMap, headers_to_remove, is_verified, remove, remove_all}

-- The headers whose name has the prefix, and the others.
unfoldable pub verified : HeaderMap → HeaderMap
verified m = filterb (λ h. is_verified h.0) m

unfoldable pub unverified : HeaderMap → HeaderMap
unverified m = filterb (λ h. not (is_verified h.0)) m

unfoldable among : Text → List Text → Bool
among k [] = false
among k (name ∷ names) = same k name || among k names

filterb-remove :
    (name : Text) (names : List Text) (m : HeaderMap)
    → filterb (λ h. not (among h.0 names)) (remove name m)
      ≡ filterb (λ h. not (among h.0 (name ∷ names))) m
unfolding filterb remove among
filterb-remove name names [] = refl
filterb-remove name names ((k, v) ∷ m) = ground (arith, filterb-remove name names m)

filterb_all : (m : HeaderMap) → filterb (λ _. true) m ≡ m
unfolding filterb
filterb_all [] = refl
filterb_all (h ∷ m) = ap (λ t. h ∷ t) (filterb_all m)

remove_all_lem :
    (names : List Text) (m : HeaderMap)
    → remove_all names m ≡ filterb (λ h. not (among h.0 names)) m
unfolding remove_all among filterb
remove_all_lem [] m = sym (filterb_all m)
remove_all_lem (name ∷ names) m = remove_all_lem names (remove name m) ∙ filterb-remove name names m

Listed : List Text → Text × Text → Type 0
Listed names h = is_verified h.0 ≡ true → among h.0 names ≡ true

Listed-add :
    (b : Bool) (k : Text) (names : List Text) (m : HeaderMap)
    → All (Listed names) m
    → All (Listed (if b then k ∷ names else names)) m
unfolding Listed among
Listed-add true k names m h =
    All-map (Listed names) (Listed (k ∷ names)) (λ a ha is_v. ground (arith, ha is_v)) m h
Listed-add false k names m h = h

headers_to_remove_lem : (m : HeaderMap) → All (Listed (headers_to_remove m)) m
unfolding Listed headers_to_remove among
headers_to_remove_lem [] = tt
headers_to_remove_lem ((k, v) ∷ m) = (
  (λ is_v. rw is_v (ground (arith, same_refl k))),
  Listed-add (is_verified k) k (headers_to_remove m) m (headers_to_remove_lem m),
)

none_left :
    (names : List Text) (m : HeaderMap)
    → All (Listed names) m
    → verified (filterb (λ h. not (among h.0 names)) m) ≡ []
unfolding verified filterb Listed
none_left names [] h = refl
none_left names ((k, v) ∷ m) (hk, hm) = ground (arith, none_left names m hm)

headers_to_remove_verified :
    (m : HeaderMap) → All (λ name. is_verified name ≡ true) (headers_to_remove m)
unfolding headers_to_remove
headers_to_remove_verified [] = tt
headers_to_remove_verified ((k, v) ∷ m) = keep (is_verified k) refl (headers_to_remove_verified m)
  where
    keep :
        (b : Bool)
        → is_verified k ≡ b
        → All (λ name. is_verified name ≡ true) (headers_to_remove m)
        → All
            (λ name. is_verified name ≡ true)
            (if b then k ∷ headers_to_remove m else headers_to_remove m)
    keep true e rest = (e, rest)
    keep false e rest = rest

among_verified :
    (k : Text) (names : List Text)
    → All (λ name. is_verified name ≡ true) names
    → is_verified k ≡ false
    → among k names ≡ false
unfolding among
among_verified k [] h unverified_k = refl
among_verified k (name ∷ names) (h, hs) unverified_k =
    ground (arith, same→eq k name, among_verified k names hs)

others_kept :
    (names : List Text) (m : HeaderMap)
    → All (λ name. is_verified name ≡ true) names
    → unverified (filterb (λ h. not (among h.0 names)) m) ≡ unverified m
unfolding unverified filterb
others_kept names [] h = refl
others_kept names ((k, v) ∷ m) h = ground (arith, others_kept names m h, among_verified k names h)

-- No header with the prefix is left.
pub none_forged : (m : HeaderMap) → verified (remove_all (headers_to_remove m) m) ≡ []
none_forged m =
    ap verified (remove_all_lem (headers_to_remove m) m)
    ∙ none_left (headers_to_remove m) m (headers_to_remove_lem m)

-- The other headers are left in their order.
pub rest_kept : (m : HeaderMap) → unverified (remove_all (headers_to_remove m) m) ≡ unverified m
rest_kept m =
    ap unverified (remove_all_lem (headers_to_remove m) m)
    ∙ others_kept (headers_to_remove m) m (headers_to_remove_verified m)
