-- ===== src/Delivery.antt =====
-- How the resolvers fit together: what a served listener names can be asked for.
pub mod Updates
use grpc_traffic_controller.Prelude.{
  ℕ, ◌≤◌, pos, ◌≡◌, refl, ◌∙◌, ap, inr, Text, [], ◌∷◌, some, get_elem?,
}
use grpc_traffic_controller.Go.Path.{IsPlain}
use grpc_traffic_controller.Go.Strconv.{max_int64}
use grpc_traffic_controller.Api.{GrpcListener, Route, Backend}
use grpc_traffic_controller.Errors.{ok}
use grpc_traffic_controller.Envoy
use grpc_traffic_controller.Envoy.{Library, RouteConfiguration, ClusterWeight, cluster}
use grpc_traffic_controller.Kubernetes.{Listers}
use grpc_traffic_controller.Names.{parse_backend_name, backend_name}
use grpc_traffic_controller.Names.RoundTrip.{parse_backend_name-backend_name}
use grpc_traffic_controller.Routes.{make_route_config}
use grpc_traffic_controller.Routes.Clusters.Weights.{make_weighted_clusters_lem}
use grpc_traffic_controller.Routes.Config.{make_route_config-IsConfigOf}
use grpc_traffic_controller.Clusters.{make_cluster, resolve_cluster}
use grpc_traffic_controller.Clusters.Resolve.{resolve_cluster-eq-ok_iff}

-- The cluster weight at two indices of a route configuration.
pub record Names (rc : RouteConfiguration) (r i : ℕ) (c : ClusterWeight) : Type 0 where
  pub host : Envoy.VirtualHost
  pub route : Envoy.Route
  pub in_hosts : rc.virtual_hosts ≡ host ∷ []
  pub in_routes : get_elem? host.routes r ≡ some route
  pub in_clusters : get_elem? route.action.weighted_clusters.clusters i ≡ some c

-- What is assumed of a listener of the cluster: the lister finds it under its name, and its namespace
-- and its name are single path elements.
pub record IsListed (listers : Listers) (lis : GrpcListener) : Type 0 where
  pub listed : listers.get_listener lis.namespace lis.name ≡ inr lis
  pub plain_namespace : IsPlain lis.namespace
  pub plain_name : IsPlain lis.name

module _ (lib : Library) (listers : Listers) (type_url listener_name : Text) (lis : GrpcListener)
    (rc : RouteConfiguration) (known : IsListed listers lis)
    (served : make_route_config lib listener_name lis ≡ ok rc) where
  -- A backend of a served listener is named by the route configuration, under its route, with its
  -- weight; and asking for the cluster of that name gives the encoded cluster of that backend with the
  -- listener's version, if it can be encoded. The indices are below 2^63.
  pub served_cluster_resolves :
      (r i : ℕ) (spec : Route) (backend : Backend) (value : Text)
      → r ≤ max_int64
      → i ≤ max_int64
      → get_elem? lis.spec.routes r ≡ some spec
      → get_elem? spec.backends i ≡ some backend
      → lib.marshal
          (cluster (make_cluster (backend_name lis.namespace lis.name (pos r) (pos i)) backend))
        ≡ inr value
      → (c : ClusterWeight) × Names rc r i c
        × (c.weight ≡ backend.weight)
        × (resolve_cluster lib listers type_url c.name
            ≡ ok (record { type_url = type_url; value = value }, lis.resource_version))
  served_cluster_resolves r i spec backend value hr hi at_r at_i encodes =
      let config = make_route_config-IsConfigOf lib listener_name lis rc served in
      let (made, found, is) = config.route_at r spec at_r in
      let (_, at) =
        make_weighted_clusters_lem lib lis.namespace lis.name r spec made.action.weighted_clusters
          is.clusters in
      let (c, in_clusters, is_cluster) = at i backend at_i in
      (
        c,
        record {
          host = config.host;
          route = made;
          in_hosts = config.hosts;
          in_routes = found;
          in_clusters = in_clusters;
        },
        is_cluster.weighed,
        (resolve_cluster-eq-ok_iff lib listers type_url c.name _ _).1 (record {
          ref = record {
            namespace = lis.namespace;
            listener_name = lis.name;
            route_id = pos r;
            backend_id = pos i;
          };
          lis = lis;
          backend = backend;
          value = value;
          read =
              ap parse_backend_name is_cluster.named
              ∙ parse_backend_name-backend_name lis.namespace lis.name r i known.plain_namespace
                  known.plain_name hr hi;
          listed = known.listed;
          found = record {
            r = r;
            i = i;
            route = spec;
            at_route = refl;
            at_backend = refl;
            in_routes = at_r;
            in_backends = at_i;
          };
          encoded = rw is_cluster.named encodes;
          packed = refl;
          versioned = refl;
        }),
      )
