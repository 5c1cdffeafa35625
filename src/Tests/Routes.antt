-- ===== src/Tests/Routes.antt =====
-- The routes of the sample listener.
use grpc_traffic_controller.Prelude.{
  ◌≡◌, ◌↔◌, refl, Text, codes, List, [], ◌∷◌, Option, none, some, pos, ℕ, ◌%◌, ◌^◌, ◌<◌, ◌≤◌,
  length, get_elem?, arith, false,
}
use grpc_traffic_controller.Api.{Backend}
use grpc_traffic_controller.Errors.{Result, ok}
use grpc_traffic_controller.Errors.Loops.{Forall₂}
use grpc_traffic_controller.Envoy
use grpc_traffic_controller.Envoy.{RouteMatch, RouteConfiguration, WeightedCluster, ClusterWeight}
use grpc_traffic_controller.Routes.{make_route_config}
use grpc_traffic_controller.Routes.Matchers.{make_metadata_matcher, make_route_match}
use grpc_traffic_controller.Routes.Matchers.Accepted.{
  IsHeaderMatcher, make_metadata_matcher-eq-ok_iff, IsMatch, make_route_match-eq-ok_iff,
}
use grpc_traffic_controller.Routes.Policies.{make_hash_policy}
use grpc_traffic_controller.Routes.Policies.Hashing.{IsHashPolicy, make_hash_policy-eq-ok_iff}
use grpc_traffic_controller.Routes.Clusters.{make_weighted_clusters}
use grpc_traffic_controller.Routes.Clusters.Weights.{
  sum_weights, IsClusterOf, total_weight-eq-sum, make_weighted_clusters_lem,
}
use grpc_traffic_controller.Routes.Config.{IsConfigOf, make_route_config-IsConfigOf}
use grpc_traffic_controller.Tests.Samples.{lib, lis, route, tenant, value_or}

abbrev clusters : WeightedCluster
clusters =
    value_or (record { clusters = []; total_weight = 0 })
      (make_weighted_clusters lib (codes "default") (codes "echo") 0 route)

makes_clusters : make_weighted_clusters lib (codes "default") (codes "echo") 0 route ≡ ok clusters
unfolding make_weighted_clusters grpc_traffic_controller.Interceptors.make_filter_overrides
    grpc_traffic_controller.Interceptors.make_filter_override
    grpc_traffic_controller.Interceptors.make_fault_filter
    grpc_traffic_controller.Resolver.make_fractional_percent grpc_traffic_controller.Prelude.text_eq
    grpc_traffic_controller.Prelude.to_upper grpc_traffic_controller.Resolver.must_any
makes_clusters = refl

total_weight-eq-sum_example : clusters.total_weight ≡ sum_weights route.backends % 2 ^ 32
total_weight-eq-sum_example =
    total_weight-eq-sum lib (codes "default") (codes "echo") 0 route clusters makes_clusters

make_weighted_clusters_lem_example :
    (length clusters.clusters ≡ length route.backends)
    × ((j : ℕ) (b : Backend)
        → get_elem? route.backends j ≡ some b
        → (c : ClusterWeight) × (get_elem? clusters.clusters j ≡ some c)
          × IsClusterOf lib (codes "default") (codes "echo") 0 j b c)
make_weighted_clusters_lem_example =
    make_weighted_clusters_lem lib (codes "default") (codes "echo") 0 route clusters makes_clusters

abbrev tenant_matcher : Envoy.HeaderMatcher
tenant_matcher =
    value_or (record { name = []; specifier = Envoy.present_match false; invert_match = false })
      (make_metadata_matcher tenant)

make_metadata_matcher-eq-ok_iff_example :
    (make_metadata_matcher tenant ≡ ok tenant_matcher) ↔ IsHeaderMatcher tenant tenant_matcher
make_metadata_matcher-eq-ok_iff_example = make_metadata_matcher-eq-ok_iff tenant tenant_matcher

abbrev blank_match : RouteMatch
blank_match = record { path_specifier = Envoy.prefix []; headers = []; runtime_fraction = none }

abbrev route_match : RouteMatch
route_match = value_or blank_match (make_route_match lib route)

make_route_match-eq-ok_iff_example :
    (make_route_match lib route ≡ ok route_match) ↔ IsMatch lib route.matcher route_match
make_route_match-eq-ok_iff_example = make_route_match-eq-ok_iff lib route route_match

abbrev hash_policies : List Envoy.HashPolicy
hash_policies = value_or [] (make_hash_policy route.hash_policy)

make_hash_policy-eq-ok_iff_example :
    (make_hash_policy route.hash_policy ≡ ok hash_policies)
    ↔ Forall₂ IsHashPolicy route.hash_policy hash_policies
make_hash_policy-eq-ok_iff_example = make_hash_policy-eq-ok_iff route.hash_policy hash_policies

abbrev pub config : RouteConfiguration
config =
    value_or (record { name = []; validate_clusters = false; virtual_hosts = [] })
      (make_route_config lib (codes "default/echo") lis)

pub makes_config : make_route_config lib (codes "default/echo") lis ≡ ok config
unfolding make_route_config grpc_traffic_controller.Errors.Loops.map_from make_route_match
    grpc_traffic_controller.Resolver.make_fractional_percent grpc_traffic_controller.Prelude.text_eq
    grpc_traffic_controller.Prelude.to_upper make_metadata_matcher
    grpc_traffic_controller.Interceptors.make_filter_overrides make_weighted_clusters
    grpc_traffic_controller.Interceptors.make_filter_override
    grpc_traffic_controller.Interceptors.make_fault_filter grpc_traffic_controller.Resolver.must_any
    make_hash_policy grpc_traffic_controller.Routes.Policies.make_one_hash_policy
makes_config = refl

make_route_config-IsConfigOf_example : IsConfigOf lib (codes "default/echo") lis config
make_route_config-IsConfigOf_example =
    make_route_config-IsConfigOf lib (codes "default/echo") lis config makes_config
