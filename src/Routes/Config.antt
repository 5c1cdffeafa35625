-- ===== src/Routes/Config.antt =====
-- gtc/route.go: what a route configuration that is made holds.
use grpc_traffic_controller.Prelude.{
  ℕ, ◌≡◌, refl, ◌∙◌, Text, [], ◌∷◌, some, arith, length, get_elem?,
}
use native.Mathlib.Nat.{zero-add}
use grpc_traffic_controller.Api.{Route, GrpcListener}
use grpc_traffic_controller.Errors.{ok, >>=-eq-ok}
use grpc_traffic_controller.Errors.Loops.{map_from, length-map_from, get_elem?-map_from}
use grpc_traffic_controller.Envoy
use grpc_traffic_controller.Envoy.{
  Library, RouteConfiguration, VirtualHost, ClusterWeight, WeightedCluster,
}
use grpc_traffic_controller.Names.{route_config_name}
use grpc_traffic_controller.Interceptors.{make_filter_overrides}
use grpc_traffic_controller.Routes.Matchers.{make_route_match}
use grpc_traffic_controller.Routes.Policies.{make_hash_policy}
use grpc_traffic_controller.Routes.Clusters.{make_weighted_clusters}
use grpc_traffic_controller.Routes.{
  make_route, make_route_config, make_optional_retry, make_virtual_host,
}

module _ (lib : Library) where
  -- The route that stands for a route of the listener.
  pub record IsRouteOf (namespace name : Text) (r : ℕ) (spec : Route) (made : Envoy.Route)
      : Type 0 where
    pub matched : make_route_match lib spec ≡ ok made.match
    pub overridden : make_filter_overrides lib spec.interceptors ≡ ok made.typed_per_filter_config
    pub clusters :
        make_weighted_clusters lib namespace name r spec ≡ ok made.action.weighted_clusters
    pub hashed : make_hash_policy spec.hash_policy ≡ ok made.action.hash_policy
    pub retried : made.action.retry_policy ≡ make_optional_retry lib spec.retry

  make_route-IsRouteOf :
      (namespace name : Text) (r : ℕ) (spec : Route) (made : Envoy.Route)
      → make_route lib namespace name r spec ≡ ok made
      → IsRouteOf namespace name r spec made
  unfolding make_route
  make_route-IsRouteOf namespace name r spec made e =
      let (match, matched, e₁) = >>=-eq-ok (make_route_match lib spec) _ e in
      let (overrides, overridden, e₂) =
        >>=-eq-ok (make_filter_overrides lib spec.interceptors) _ e₁ in
      let (wc, clusters, e₃) = >>=-eq-ok (make_weighted_clusters lib namespace name r spec) _ e₂ in
      let (hash, hashed, e₄) = >>=-eq-ok (make_hash_policy spec.hash_policy) _ e₃ in
      record {
        matched = matched ∙ ground arith;
        overridden = overridden ∙ ground arith;
        clusters = clusters ∙ ground arith;
        hashed = hashed ∙ ground arith;
        retried = ground arith;
      }

  -- A configuration has one virtual host, for the listener's name alone, with the listener's retry
  -- policy and one route for each route of the listener, in order.
  pub record IsConfigOf (listener_name : Text) (lis : GrpcListener) (rc : RouteConfiguration)
      : Type 0 where
    pub host : VirtualHost
    pub hosts : rc.virtual_hosts ≡ host ∷ []
    pub named : rc.name ≡ route_config_name lis.namespace lis.name
    pub domain : host.domains ≡ listener_name ∷ []
    pub retried : host.retry_policy ≡ make_optional_retry lib lis.spec.retry
    pub count : length host.routes ≡ length lis.spec.routes
    pub route_at :
        (r : ℕ) (spec : Route)
        → get_elem? lis.spec.routes r ≡ some spec
        → (made : Envoy.Route) × (get_elem? host.routes r ≡ some made)
          × IsRouteOf lis.namespace lis.name r spec made

  -- A route configuration that is made is named after the listener and has one virtual host, for the
  -- requested name, with the listener's retries, and one route for each of the listener's, in order: its
  -- match, overrides, clusters, hash policies and retries are those that its specification gives.
  pub make_route_config-IsConfigOf :
      (listener_name : Text) (lis : GrpcListener) (rc : RouteConfiguration)
      → make_route_config lib listener_name lis ≡ ok rc
      → IsConfigOf listener_name lis rc
  unfolding make_route_config
  make_route_config-IsConfigOf listener_name lis rc e =
      let make = make_route lib lis.namespace lis.name in
      let (routes, looped, same) = >>=-eq-ok (map_from make 0 lis.spec.routes) _ e in
      record {
        host = make_virtual_host lib listener_name lis routes;
        hosts = ground arith;
        named = ground arith;
        domain = refl;
        retried = refl;
        count = length-map_from make 0 lis.spec.routes routes looped;
        route_at = λ r spec at.
            let (made, at_r, found) =
              get_elem?-map_from make 0 lis.spec.routes routes looped r spec at in
            (
              made,
              found,
              make_route-IsRouteOf lis.namespace lis.name r spec made (rw zero-add at at_r),
            );
      }
