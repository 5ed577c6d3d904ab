-- ===== src/Controller/ProxySocket.antt =====
-- plane/src/controller/proxy.rs: a proxy asks for routes, reports the backends that are in use and
-- negotiates certificates. A reply that cannot be sent is dropped, and a query that fails is logged
-- and answered as below.
pub mod Waiting
use plane.Prelude.{Bool, List, Option, [], if◌then◌else◌, none, some, ℕ, ◌∷◌}
use plane.Prelude.Table.{Table}
use plane.BackendState.{BackendState, hard_terminating, ready, terminated, terminating}
use plane.Database.{Database}
use plane.Database.Acme.{AcmeRow, lease_cluster_dns, release_cluster_lease, set_cluster_dns}
use plane.Database.Backend.{backend, update_keepalive}
use plane.Database.Routes.{
  PartialRouteInfo, RouteInfo, RouteInfoResult, available, not_found, pending, set_address,
}

record RouteInfoResponse : Type 0 where
  pub token : ℕ
  pub route_info : Option RouteInfo

data CertManagerRequest : Type 0 where
  cert_lease_request : CertManagerRequest
  set_txt_record : (txt_value : ℕ) → CertManagerRequest
  release_cert_lease : CertManagerRequest

data CertManagerResponse : Type 0 where
  cert_lease_response : (accepted : Bool) → CertManagerResponse
  set_txt_record_response : (accepted : Bool) → CertManagerResponse

data MessageToProxy : Type 0 where
  route_info_response : RouteInfoResponse → MessageToProxy
  cert_manager_response : CertManagerResponse → MessageToProxy
  backend_removed : (backend : ℕ) → MessageToProxy

-- The progress of one request for a route: what the handler has still to do.
pub data Progress : Type 0 where
  asked : Progress
  to_subscribe : PartialRouteInfo → Progress
  subscribed : PartialRouteInfo → Progress
  waiting_for : PartialRouteInfo → Progress
  finished : Progress

-- The first query: what is sent at once, and what remains to be done.
unfoldable pub after_first_query : RouteInfoResult → List (Option RouteInfo) × Progress
after_first_query (available route) = (some route ∷ [], finished)
after_first_query (pending p) = ([], to_subscribe p)
after_first_query not_found = (none ∷ [], finished)

-- The second query, when the subscription has begun. What it finds of the backend is not used
-- where the backend is still pending.
unfoldable pub after_second_query :
    PartialRouteInfo → RouteInfoResult → List (Option RouteInfo) × Progress
after_second_query p (available route) = (some route ∷ [], finished)
after_second_query p not_found = (none ∷ [], finished)
after_second_query p (pending q) = ([], waiting_for p)

-- A notification in the loop of the task that waits.
unfoldable pub after_notification :
    PartialRouteInfo → BackendState → List (Option RouteInfo) × Progress
after_notification p (BackendState.ready a) = (some (set_address p a) ∷ [], finished)
after_notification p (BackendState.terminated l k r e) = (none ∷ [], finished)
after_notification p (BackendState.terminating l k r) = (none ∷ [], finished)
after_notification p (BackendState.hard_terminating l r) = (none ∷ [], finished)
after_notification p _ = ([], waiting_for p)

-- `MessageFromProxy::KeepAlive`
unfoldable handle_keep_alive : ℕ → ℕ → Database → List MessageToProxy × Database
handle_keep_alive now b db =
    let (alive, db') = update_keepalive now b db in
    (if alive then [] else backend_removed b ∷ [], db')

-- `MessageFromProxy::CertManagerRequest`, from the proxy that is the node `node_id`.
unfoldable handle_cert_request :
    ℕ → ℕ → ℕ → CertManagerRequest → Table AcmeRow → List MessageToProxy × Table AcmeRow
handle_cert_request now cluster node_id cert_lease_request rows =
    let (accepted, rows') = lease_cluster_dns now cluster node_id rows in
    (cert_manager_response (cert_lease_response accepted) ∷ [], rows')
handle_cert_request now cluster node_id (set_txt_record txt_value) rows =
    let (accepted, rows') = set_cluster_dns cluster node_id txt_value rows in
    (cert_manager_response (set_txt_record_response accepted) ∷ [], rows')
handle_cert_request now cluster node_id release_cert_lease rows =
    ([], release_cluster_lease cluster node_id rows)

-- The subscription of the socket to every backend: the proxy is told of those that have ended. The
-- key of the notification is none where it is missing or is no backend name.
unfoldable handle_state_notification : Option ℕ → BackendState → List MessageToProxy
handle_state_notification (some b) (BackendState.terminated l k r e) = backend_removed b ∷ []
handle_state_notification _ _ = []
