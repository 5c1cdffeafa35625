-- ===== src/Clusters.antt =====
-- gtc/cluster.go: resolving clusters.
pub mod Find
pub mod Resolve
use grpc_traffic_controller.Prelude.{
  ℕ, ℤ, pos, negsuc, Text, codes, List, [], ◌∷◌, Option, some, none, Bool, false, ◌||◌,
  if◌then◌else◌, text_eq, leb, length, get_elem?, to_lower,
}
use grpc_traffic_controller.Api.{GrpcListener, Backend, RingHashConfig}
use grpc_traffic_controller.Errors.{
  ◌>>=◌, Result, ok, err, panic, lift, route_not_found, backend_not_found,
}
use grpc_traffic_controller.Envoy.{
  Library, Any, Cluster, LbPolicy, ring_hash, round_robin, eds, ads, Thresholds, RingHashLbConfig,
  cluster,
}
use grpc_traffic_controller.Kubernetes.{Listers}
use grpc_traffic_controller.Names.{ParsedBackendName, parse_backend_name}
use grpc_traffic_controller.Resolver.{encode_resource}
use grpc_traffic_controller.Resources.{ResourceResolver, new_resolve_response, resolve_names}

-- i > len(xs) - 1
unfoldable pub beyond {ℓ} : {A : Type ℓ} → ℤ → List A → Bool
beyond (pos n) xs = leb (length xs) n
beyond (negsuc n) xs = false

or_panic {ℓ} : {A : Type ℓ} → Option A → Result A
or_panic none = panic
or_panic (some a) = ok a

-- xs[i], which panics out of range
unfoldable pub index {ℓ} : {A : Type ℓ} → List A → ℤ → Result A
unfolding or_panic
index xs (pos n) = or_panic (get_elem? xs n)
index xs (negsuc n) = panic

unfoldable pub find_backend_spec : ParsedBackendName → GrpcListener → Result Backend
unfolding beyond index
find_backend_spec ref listener =
    if beyond ref.route_id listener.spec.routes
    then err (route_not_found ref.route_id listener)
    else do
      route ← index listener.spec.routes ref.route_id
      (if beyond ref.backend_id route.backends
          then err (backend_not_found ref.route_id ref.backend_id listener)
          else index route.backends ref.backend_id)

-- Every other policy is round robin.
unfoldable pub make_lb_policy : Text → LbPolicy
unfolding to_lower text_eq
make_lb_policy p =
    if text_eq (to_lower p) (codes "ringhash") || text_eq (to_lower p) (codes "ring_hash")
    then ring_hash
    else round_robin

abbrev make_circuit_breakers : Option ℕ → Option (List Thresholds)
make_circuit_breakers none = none
make_circuit_breakers (some n) = some (record { max_requests = n } ∷ [])

abbrev make_ring_hash : Option RingHashConfig → Option RingHashLbConfig
make_ring_hash none = none
make_ring_hash (some c) =
    some (record { minimum_ring_size = c.min_ring_size; maximum_ring_size = c.max_ring_size })

unfoldable pub make_cluster : (cluster_name : Text) → Backend → Cluster
unfolding make_lb_policy
make_cluster cluster_name spec = record {
  name = cluster_name;
  lb_policy = make_lb_policy spec.lb_policy;
  discovery_type = eds;
  eds_cluster_config = record { eds_config = ads; service_name = cluster_name };
  circuit_breakers = make_circuit_breakers spec.max_requests;
  lb_config = make_ring_hash spec.ring_hash_config;
}

module _ (lib : Library) (listers : Listers) where
  -- one round of clusterHandler.resolveResource
  unfoldable pub resolve_cluster : (type_url resource_name : Text) → Result (Any × Text)
  resolve_cluster type_url resource_name = do
    backend_ref ← parse_backend_name resource_name
    listener ← lift (listers.get_listener backend_ref.namespace backend_ref.listener_name)
    backend ← find_backend_spec backend_ref listener
    resource ← encode_resource lib type_url (cluster (make_cluster resource_name backend))
    ok (resource, listener.resource_version)

  -- clusterHandler.resolveResource
  unfoldable pub resolve_clusters : ResourceResolver
  unfolding resolve_cluster
  resolve_clusters req =
      resolve_names (resolve_cluster req.type_url) req.resource_names
        (new_resolve_response lib.cluster_type)
