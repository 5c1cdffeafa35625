-- ===== src/Tests/Clusters.antt =====
-- The clusters and the listener of the sample, and a name whose index is negative.
use grpc_traffic_controller.Prelude.{
  ◌≡◌, ◌↔◌, refl, Text, codes, List, [], ◌∷◌, Option, none, some, pos, negsuc, ℕ, inr,
}
use grpc_traffic_controller.Errors.{ok, panic}
use grpc_traffic_controller.Envoy.{Any}
use grpc_traffic_controller.Names.{ParsedBackendName, parse_backend_name}
use grpc_traffic_controller.Clusters.{find_backend_spec, resolve_cluster}
use grpc_traffic_controller.Clusters.Find.{
  HasBackend, HasNegativeId, of_route, find_backend_spec-eq-ok_iff, find_backend_spec-eq-panic_iff,
}
use grpc_traffic_controller.Clusters.Resolve.{IsClusterFor, resolve_cluster-eq-ok_iff}
use grpc_traffic_controller.Listeners.{resolve_listener}
use grpc_traffic_controller.Listeners.Resolve.{IsServed, resolve_listener-IsServed}
use grpc_traffic_controller.Tests.Samples.{lib, listers, lis, spread}

abbrev second : ParsedBackendName
second = record {
  namespace = codes "default";
  listener_name = codes "echo";
  route_id = pos 0;
  backend_id = pos 1;
}

abbrev minus : ParsedBackendName
minus = record {
  namespace = codes "default";
  listener_name = codes "echo";
  route_id = negsuc 0;
  backend_id = pos 0;
}

finds_second : find_backend_spec second lis ≡ ok spread
unfolding find_backend_spec
finds_second = refl

find_backend_spec-eq-ok_iff_example :
    (find_backend_spec second lis ≡ ok spread) ↔ HasBackend lis second spread
find_backend_spec-eq-ok_iff_example = find_backend_spec-eq-ok_iff lis second spread

find_backend_spec-eq-panic_iff_example :
    (find_backend_spec minus lis ≡ panic) ↔ HasNegativeId lis minus
find_backend_spec-eq-panic_iff_example = find_backend_spec-eq-panic_iff lis minus

abbrev resource : Any
resource = record { type_url = codes "Cluster"; value = codes "bytes" }

resolves_second :
    resolve_cluster lib listers (codes "Cluster") (codes "default/echo/route/0/backend/1")
    ≡ ok (resource, codes "7")
unfolding resolve_cluster parse_backend_name grpc_traffic_controller.Prelude.split
    grpc_traffic_controller.Go.Strconv.atoi grpc_traffic_controller.Prelude.text_eq
    find_backend_spec grpc_traffic_controller.Resolver.encode_resource
resolves_second = refl

resolve_cluster-eq-ok_iff_example :
    (resolve_cluster lib listers (codes "Cluster") (codes "default/echo/route/0/backend/1")
      ≡ ok (resource, codes "7"))
    ↔ IsClusterFor lib listers
        (codes "Cluster")
        (codes "default/echo/route/0/backend/1")
        resource
        (codes "7")
resolve_cluster-eq-ok_iff_example =
    resolve_cluster-eq-ok_iff lib listers (codes "Cluster") (codes "default/echo/route/0/backend/1")
      resource (codes "7")

reads_minus : parse_backend_name (codes "default/echo/route/-1/backend/0") ≡ ok minus
unfolding parse_backend_name grpc_traffic_controller.Prelude.split
    grpc_traffic_controller.Go.Strconv.atoi
reads_minus = refl

has_minus : HasNegativeId lis minus
has_minus = of_route 0 refl

abbrev resource_of_listener : Any
resource_of_listener = record { type_url = codes "Listener"; value = codes "bytes" }

resolves_listener :
    resolve_listener lib listers (codes "Listener") (codes "default/echo")
    ≡ ok (resource_of_listener, codes "7")
unfolding resolve_listener grpc_traffic_controller.Errors.Loops.map_from
    grpc_traffic_controller.Interceptors.make_fault_filter
    grpc_traffic_controller.Interceptors.make_filter
    grpc_traffic_controller.Interceptors.make_filter_override
    grpc_traffic_controller.Interceptors.make_filter_overrides
    grpc_traffic_controller.Interceptors.make_filters
    grpc_traffic_controller.Names.parse_listener_name grpc_traffic_controller.Prelude.cut
    grpc_traffic_controller.Prelude.text_eq grpc_traffic_controller.Prelude.to_upper
    grpc_traffic_controller.Resolver.encode_resource
    grpc_traffic_controller.Resolver.make_fractional_percent
    grpc_traffic_controller.Resolver.must_any
    grpc_traffic_controller.Routes.Clusters.make_weighted_clusters
    grpc_traffic_controller.Routes.Matchers.make_metadata_matcher
    grpc_traffic_controller.Routes.Matchers.make_route_match
    grpc_traffic_controller.Routes.Policies.make_hash_policy
    grpc_traffic_controller.Routes.Policies.make_one_hash_policy
    grpc_traffic_controller.Routes.make_route_config
resolves_listener = refl

resolve_listener-IsServed_example :
    IsServed lib listers (codes "Listener") (codes "default/echo") resource_of_listener (codes "7")
resolve_listener-IsServed_example =
    resolve_listener-IsServed lib listers (codes "Listener") (codes "default/echo")
      resource_of_listener (codes "7") resolves_listener
