-- ===== src/Routes/Clusters.antt =====
-- gtc/route.go: makeWeightedClusters.
pub mod Weights
use grpc_traffic_controller.Prelude.{ℕ, suc, ◌+◌, ◌%◌, ◌^◌, pos, Text, List, [], ◌∷◌}
use grpc_traffic_controller.Api.{Route, Backend}
use grpc_traffic_controller.Errors.{◌>>=◌, Result, ok}
use grpc_traffic_controller.Envoy
use grpc_traffic_controller.Envoy.{Library, ClusterWeight, WeightedCluster}
use grpc_traffic_controller.Names.{backend_name}
use grpc_traffic_controller.Interceptors.{make_filter_overrides}

module _ (lib : Library) (namespace name : Text) (route_id : ℕ) where
  -- the loop, over the total so far (a uint32) and the rest of the backends
  pub weigh_backends : (backend_id total : ℕ) → List Backend → Result (ℕ × List ClusterWeight)
  weigh_backends backend_id total [] = ok (total, [])
  weigh_backends backend_id total (backend ∷ more) = do
    filter_overrides ← make_filter_overrides lib backend.interceptors
    (total', clusters) ← weigh_backends (suc backend_id) ((total + backend.weight) % 2 ^ 32) more
    ok (
      total',
      record {
        name = backend_name namespace name (pos route_id) (pos backend_id);
        weight = backend.weight;
        typed_per_filter_config = filter_overrides;
      }
          ∷ clusters,
    )

  unfoldable pub make_weighted_clusters : Route → Result WeightedCluster
  unfolding weigh_backends
  make_weighted_clusters spec = do
    (total_weight, clusters) ← weigh_backends 0 0 spec.backends
    ok (record { total_weight = total_weight; clusters = clusters })
