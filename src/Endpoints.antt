-- ===== src/Endpoints.antt =====
-- gtc/endpoint.go: resolving load assignments from endpoint slices.
pub mod Ports
pub mod Groups
pub mod Assignments
pub mod Resolve
pub mod Slices
pub mod Members
use grpc_traffic_controller.Prelude.{
  Text, codes, List, [], ◌∷◌, ◌++◌, Option, some, none, if◌then◌else◌, text_eq, map,
}
use grpc_traffic_controller.Api.{GrpcListener, Backend, ServiceRef, Locality}
use grpc_traffic_controller.Errors.{◌>>=◌, Result, ok, err, panic, lift, unsupported_backend}
use grpc_traffic_controller.Envoy
use grpc_traffic_controller.Envoy.{
  Library, Any, Node, LocalityLbEndpoints, ClusterLoadAssignment, load_assignment,
}
use grpc_traffic_controller.Kubernetes.{Listers, EndpointSlice}
use grpc_traffic_controller.Names.{ParsedBackendName, parse_backend_name, backend_name_text}
use grpc_traffic_controller.Resolver.{encode_resource}
use grpc_traffic_controller.Resources.{ResourceResolver, new_resolve_response, resolve_names}
use grpc_traffic_controller.Clusters.{find_backend_spec}
use Slices.{make_flat_locality_lb_endpoints, make_service_endpoints}

abbrev pub service_name_label : Text
service_name_label = codes "kubernetes.io/service-name"

-- The namespace of the service, or that of the listener.
unfoldable pub service_namespace : ServiceRef → GrpcListener → Text
service_namespace service listener =
    if text_eq service.namespace [] then listener.namespace else service.namespace

abbrev pub versions_of : List EndpointSlice → List Text
versions_of = map (λ s. s.resource_version)

-- `loc.Service.Namespace`, where a nil service panics
abbrev pub deref {ℓ} : {A : Type ℓ} → Option A → Result A
deref none = panic
deref (some a) = ok a

unfoldable pub concat_texts : List Text → Text
concat_texts [] = []
concat_texts (v ∷ vs) = v ++ concat_texts vs

module _ (lib : Library) (listers : Listers) where
  -- The slices that the lister gives for a service.
  unfoldable pub list_service : ServiceRef → GrpcListener → Result (List EndpointSlice)
  unfolding service_namespace
  list_service service listener = do
    req ← lift (listers.new_requirement service_name_label service.name)
    lift (listers.list_slices (service_namespace service listener) req)

  unfoldable pub make_localities :
      GrpcListener → List Locality → Result (List LocalityLbEndpoints × List Text)
  unfolding list_service
  make_localities listener [] = ok ([], [])
  make_localities listener (loc ∷ more) = do
    service ← deref loc.service
    slices ← list_service service listener
    endpoints ← make_flat_locality_lb_endpoints service slices loc.weight loc.priority
    (rest, versions) ← make_localities listener more
    ok (endpoints ∷ rest, versions_of slices ++ versions)

  unfoldable pub make_localities_load_assignment :
      ParsedBackendName → GrpcListener → Backend → Result (ClusterLoadAssignment × List Text)
  unfolding make_localities
  make_localities_load_assignment ref listener spec = do
    (endpoints, versions) ← make_localities listener spec.localities
    ok (record { cluster_name = backend_name_text ref; endpoints = endpoints }, versions)

  unfoldable pub make_service_load_assignment :
      Option Node
      → ParsedBackendName
      → GrpcListener
      → ServiceRef
      → Result (ClusterLoadAssignment × List Text)
  unfolding list_service
  make_service_load_assignment node ref listener service = do
    slices ← list_service service listener
    endpoints ← make_service_endpoints lib node service slices
    ok (record { cluster_name = backend_name_text ref; endpoints = endpoints }, versions_of slices)

  abbrev by_localities :
      List Locality
      → Result (ClusterLoadAssignment × List Text)
      → Result (ClusterLoadAssignment × List Text)
  by_localities [] made = err unsupported_backend
  by_localities (_ ∷ _) made = made

  -- A service comes before localities.
  unfoldable pub make_load_assignment :
      Option Node
      → ParsedBackendName
      → GrpcListener
      → Backend
      → Result (ClusterLoadAssignment × List Text)
  unfolding make_service_load_assignment make_localities_load_assignment
  make_load_assignment node ref listener spec = elim spec.service [
    | some service ↦ make_service_load_assignment node ref listener service
    | none ↦ by_localities spec.localities (make_localities_load_assignment ref listener spec)
  ]

  -- one round of endpointHandler.resolveResource: the listener's version is written first
  unfoldable pub resolve_endpoint :
      Option Node → (type_url resource_name : Text) → Result (Any × Text)
  unfolding make_load_assignment concat_texts
  resolve_endpoint node type_url resource_name = do
    backend_ref ← parse_backend_name resource_name
    listener ← lift (listers.get_listener backend_ref.namespace backend_ref.listener_name)
    backend ← find_backend_spec backend_ref listener
    (assignment, versions) ← make_load_assignment node backend_ref listener backend
    resource ← encode_resource lib type_url (load_assignment assignment)
    ok (resource, listener.resource_version ++ concat_texts versions)

  -- endpointHandler.resolveResource
  unfoldable pub resolve_endpoints : ResourceResolver
  unfolding resolve_endpoint
  resolve_endpoints req =
      resolve_names (resolve_endpoint req.node_info req.type_url) req.resource_names
        (new_resolve_response lib.endpoint_type)
