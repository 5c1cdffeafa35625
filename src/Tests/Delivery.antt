-- ===== src/Tests/Delivery.antt =====
-- The second backend of the sample listener, from the listener that is served to its cluster.
use grpc_traffic_controller.Prelude.{
  ◌≡◌, refl, Text, codes, List, [], ◌∷◌, Option, none, some, pos, ℕ, inr, arith,
}
use grpc_traffic_controller.Errors.{ok}
use grpc_traffic_controller.Envoy.{ClusterWeight}
use grpc_traffic_controller.Clusters.{resolve_cluster}
use grpc_traffic_controller.Delivery.{Names, IsListed, served_cluster_resolves}
use grpc_traffic_controller.Tests.Names.{default-IsPlain, echo-IsPlain}
use grpc_traffic_controller.Tests.Routes.{config, makes_config}
use grpc_traffic_controller.Tests.Samples.{lib, listers, lis, route, spread}

echo-IsListed : IsListed listers lis
unfolding grpc_traffic_controller.Prelude.text_eq
echo-IsListed = record {
  listed = refl;
  plain_namespace = default-IsPlain;
  plain_name = echo-IsPlain;
}

served_cluster_resolves_example :
    (c : ClusterWeight) × Names config 0 1 c
    × (c.weight ≡ spread.weight)
    × (resolve_cluster lib listers (codes "Cluster") c.name
        ≡ ok (record { type_url = codes "Cluster"; value = codes "bytes" }, lis.resource_version))
served_cluster_resolves_example =
    served_cluster_resolves lib listers (codes "Cluster") (codes "default/echo") lis config
      echo-IsListed makes_config 0 1 route spread (codes "bytes") (omega arith) (omega arith) refl
      refl refl
