-- ===== src/Routes.antt =====
-- gtc/route.go: the route configuration of a listener.
pub mod Matchers
pub mod Policies
pub mod Clusters
pub mod Config
use grpc_traffic_controller.Prelude.{ℕ, Text, List, [], ◌∷◌, Option, some, none, true}
use grpc_traffic_controller.Api.{Route, RetryPolicy, GrpcListener}
use grpc_traffic_controller.Errors.{◌>>=◌, Result, ok}
use grpc_traffic_controller.Errors.Loops.{map_from}
use grpc_traffic_controller.Envoy
use grpc_traffic_controller.Envoy.{Library, RouteConfiguration, VirtualHost}
use grpc_traffic_controller.Names.{route_config_name, v_host_name}
use grpc_traffic_controller.Resolver.{make_duration}
use grpc_traffic_controller.Interceptors.{make_filter_overrides}
use Matchers.{make_route_match}
use Policies.{make_retry_policy, make_hash_policy}
use Clusters.{make_weighted_clusters}

module _ (lib : Library) where
  abbrev pub make_optional_retry : Option RetryPolicy → Option Envoy.RetryPolicy
  make_optional_retry none = none
  make_optional_retry (some spec) = some (make_retry_policy lib spec)

  -- one round of the loop of makeRouteConfig
  unfoldable pub make_route : (namespace name : Text) (route_id : ℕ) → Route → Result Envoy.Route
  make_route namespace name route_id spec = do
    match ← make_route_match lib spec
    filter_overrides ← make_filter_overrides lib spec.interceptors
    weighted_clusters ← make_weighted_clusters lib namespace name route_id spec
    hash_policy ← make_hash_policy spec.hash_policy
    ok (record {
      match = match;
      typed_per_filter_config = filter_overrides;
      action = record {
        hash_policy = hash_policy;
        retry_policy = make_optional_retry spec.retry;
        max_stream_duration = record {
          max_stream_duration = make_duration lib spec.max_stream_duration;
          grpc_timeout_header_max = make_duration lib spec.grpc_timeout_header_max;
        };
        weighted_clusters = weighted_clusters;
      };
    })

  -- the one virtual host of a configuration
  abbrev pub make_virtual_host :
      (listener_name : Text) → GrpcListener → List Envoy.Route → VirtualHost
  make_virtual_host listener_name listener routes = record {
    name = v_host_name listener.namespace listener.name;
    domains = listener_name ∷ [];
    routes = routes;
    retry_policy = make_optional_retry listener.spec.retry;
  }

  unfoldable pub make_route_config :
      (listener_name : Text) (listener : GrpcListener) → Result RouteConfiguration
  unfolding make_route
  make_route_config listener_name listener = do
    routes ← map_from (make_route listener.namespace listener.name) 0 listener.spec.routes
    ok (record {
      name = route_config_name listener.namespace listener.name;
      validate_clusters = true;
      virtual_hosts = make_virtual_host listener_name listener routes ∷ [];
    })
