-- ===== src/Proxy/Request/Tokens.antt =====
-- What the host and the path of a request are read as (plane/src/proxy/request.rs).
use plane.Prelude.{
  Bool, false, if◌then◌else◌, none, true, ◌++◌, ◌∷◌, ◌≡◌, ◌⊎◌, Option, Option-cases, [], ap, arith,
  inl, inr, refl, some, sym, ℕ, ◌∙◌,
}
use plane.Text.{
  strip_prefix, Text, strip_suffix, strip_suffix-append, strip_suffix_sound, contains,
  split_once-append,
}
use plane.Proxy.Request.{
  Host, dot, https_port_suffix, subdomain_from_host, PathAndQuery, before_cluster, unwrap_or,
  under_dot, question_mark, slash, rendered, get_and_maybe_remove_bearer_token, is_static,
}

append-dot : (name cluster : Text) → name ++ dot ∷ cluster ≡ (name ++ dot ∷ []) ++ cluster
append-dot [] cluster = refl
append-dot (c ∷ name) cluster = ap (λ t. c ∷ t) (append-dot name cluster)

before_cluster-dot : (name : Text) → before_cluster (some (name ++ dot ∷ [])) ≡ Host.subdomain name
before_cluster-dot [] = ap under_dot (strip_suffix-append (dot ∷ []) [])
before_cluster-dot (c ∷ name) = ap under_dot (strip_suffix-append (dot ∷ []) (c ∷ name))

before_cluster_sound :
    (p name : Text) → before_cluster (some p) ≡ Host.subdomain name → p ≡ name ++ dot ∷ []
before_cluster_sound [] name h = ground arith
before_cluster_sound (c ∷ p) name h = elim (Option-cases (strip_suffix (dot ∷ []) (c ∷ p))) [
  | inl absent ↦ ground arith
  | inr (t, found) ↦ ground (arith, strip_suffix_sound (dot ∷ []) (c ∷ p) t found)
]

host_sound :
    (host cluster name : Text)
    → before_cluster (strip_suffix cluster host) ≡ Host.subdomain name
    → host ≡ name ++ dot ∷ cluster
host_sound host cluster name h = elim (Option-cases (strip_suffix cluster host)) [
  | inl absent ↦ ground arith
  | inr (p, found) ↦
      strip_suffix_sound cluster host p found
      ∙ ap (λ t. t ++ cluster) (before_cluster_sound p name (sym (ap before_cluster found) ∙ h))
      ∙ sym (append-dot name cluster)
]

read_host :
    (name cluster : Text)
    → before_cluster (strip_suffix cluster (name ++ dot ∷ cluster)) ≡ Host.subdomain name
read_host name cluster =
    ap (λ t. before_cluster (strip_suffix cluster t)) (append-dot name cluster)
    ∙ ap before_cluster (strip_suffix-append cluster (name ++ dot ∷ []))
    ∙ before_cluster-dot name

-- A host whose name is `subdomain.cluster`, with the port suffix of HTTPS or without it, is read as
-- the subdomain; the cluster name does not end in that suffix itself.
pub subdomain_from_host_lem :
    (name cluster : Text) (https : Bool)
    → strip_suffix https_port_suffix (name ++ dot ∷ cluster) ≡ none
    → let host = name ++ dot ∷ cluster in
      let with_port = if https then host ++ https_port_suffix else host in
      subdomain_from_host with_port cluster ≡ Host.subdomain name
unfolding subdomain_from_host
subdomain_from_host_lem name cluster true no_port =
    rw (strip_suffix-append https_port_suffix (name ++ dot ∷ cluster)) (read_host name cluster)
subdomain_from_host_lem name cluster false no_port = rw no_port (read_host name cluster)

-- Where a host is read as a subdomain, it is that subdomain, a dot and the cluster, and perhaps the
-- port suffix of HTTPS: a name that merely ends in the cluster's letters is refused.
pub subdomain_from_host_sound :
    (host cluster name : Text)
    → subdomain_from_host host cluster ≡ Host.subdomain name
    → (host ≡ name ++ dot ∷ cluster) ⊎ (host ≡ (name ++ dot ∷ cluster) ++ https_port_suffix)
unfolding subdomain_from_host
subdomain_from_host_sound host cluster name h =
    elim (Option-cases (strip_suffix https_port_suffix host)) [
      | inl absent ↦ inl (
          host_sound host cluster name
            (sym (ap (λ o. before_cluster (strip_suffix cluster (unwrap_or host o))) absent) ∙ h))
      | inr (t, found) ↦ inr (
          strip_suffix_sound https_port_suffix host t found
          ∙ ap (λ u. u ++ https_port_suffix)
              (host_sound t cluster name (
                sym (ap (λ o. before_cluster (strip_suffix cluster (unwrap_or host o))) found)
                ∙ h)))
    ]

-- `from_str` reads a path and a query back from their text.
module _ (from_str : Text → Option PathAndQuery)
    (reads : (path : Text) (query : Option Text)
      → contains question_mark path ≡ false
      → from_str (slash ∷ (path ++ rendered query))
        ≡ some (record { path = slash ∷ path; query = query })) where
  -- A path `/token/path` whose token is not static is rewritten to `/path`, with the query kept,
  -- and the token is returned; the rewriting does not panic.
  pub take_dynamic_token :
      (c : ℕ) (token path : Text) (query : Option Text)
      → contains slash (c ∷ token) ≡ false
      → is_static (c ∷ token) ≡ false
      → contains question_mark path ≡ false
      → let full = slash ∷ ((c ∷ token) ++ slash ∷ path) in
        get_and_maybe_remove_bearer_token from_str
          (record { path_and_query = some (record { path = full; query = query }) })
        ≡ some (
          some (c ∷ token),
          record { path_and_query = some (record { path = slash ∷ path; query = query }) },
        )
  unfolding get_and_maybe_remove_bearer_token strip_prefix
  take_dynamic_token c token path query whole dynamic no_query =
      rw (split_once-append slash (c ∷ token) path whole)
        (rw dynamic (rw (reads path query no_query) refl))
