-- ===== src/Tests/Notifications.antt =====
-- What is announced when the sample's listener or slice changes.
use grpc_traffic_controller.Prelude.{
  ◌≡◌, ◌↔◌, refl, Text, codes, List, [], ◌∷◌, Option, none, some, pos, ℕ, In, here, there, inr,
}
use grpc_traffic_controller.Errors.{ok}
use grpc_traffic_controller.Watches.{ResourceRef, new_watches}
use grpc_traffic_controller.Watches.Validity.{new_watches-IsValid, is_watching}
use grpc_traffic_controller.Notifications.{
  cluster_ref, endpoint_ref, handle_listener, handle_slice, slice_meta,
}
use grpc_traffic_controller.Notifications.Listener.{IsResourceOf, handle_listener_iff}
use grpc_traffic_controller.Notifications.Slices.{Uses, directly, IsSliceOf}
use grpc_traffic_controller.ConfigWatcher.{Request, start_watch}
use grpc_traffic_controller.ConfigWatcher.Lifetime.{asks_for}
use grpc_traffic_controller.Delivery.Updates.{slice_change_reaches}
use grpc_traffic_controller.Prelude.{Bool, true}
use grpc_traffic_controller.Tests.Samples.{lib, listers, lis, route, backend, service, slice, node}

handle_listener_iff_example :
    (In (cluster_ref lib (codes "default") (codes "echo") 0 1) (handle_listener lib (some lis)))
    ↔ IsResourceOf lib lis (cluster_ref lib (codes "default") (codes "echo") 0 1)
handle_listener_iff_example =
    handle_listener_iff lib lis (cluster_ref lib (codes "default") (codes "echo") 0 1)

abbrev announced : List ResourceRef
announced =
    endpoint_ref lib (codes "default") (codes "echo") 0 0
    ∷ endpoint_ref lib (codes "default") (codes "echo") 0 1
    ∷ []

announces : handle_slice lib listers (ok (slice_meta slice)) ≡ ok announced
unfolding handle_slice grpc_traffic_controller.Prelude.text_eq
    grpc_traffic_controller.Kubernetes.label
announces = refl

of_service : IsSliceOf (slice_meta slice) lis service
unfolding grpc_traffic_controller.Kubernetes.label grpc_traffic_controller.Prelude.text_eq
    grpc_traffic_controller.Endpoints.service_namespace
of_service = record { labelled = refl; namespaced = refl }

Uses-service : Uses backend service
Uses-service = directly refl

abbrev req : Request
req = record {
  type_url = codes "ClusterLoadAssignment";
  resource_names = codes "default/echo/route/0/backend/0" ∷ [];
  node = some node;
}

asks : asks_for req (endpoint_ref lib (codes "default") (codes "echo") 0 0) ≡ true
unfolding grpc_traffic_controller.Prelude.text_eq grpc_traffic_controller.ConfigWatcher.is_known
    grpc_traffic_controller.Names.backend_name grpc_traffic_controller.Go.Path.join_path
    grpc_traffic_controller.Go.Strconv.itoa
asks = refl

slice_change_reaches_example :
    (In (endpoint_ref lib (codes "default") (codes "echo") 0 0) announced)
    × (is_watching 1
          (endpoint_ref lib (codes "default") (codes "echo") 0 0)
          (start_watch 1 req new_watches).1
        ≡ true)
slice_change_reaches_example =
    slice_change_reaches lib listers (slice_meta slice) (lis ∷ []) lis 0 0 route backend service
      announced 1 req new_watches refl (here refl) refl refl Uses-service of_service announces
      new_watches-IsValid asks
