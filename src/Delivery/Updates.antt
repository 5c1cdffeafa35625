-- ===== src/Delivery/Updates.antt =====
-- How the handlers and the watches fit together: who is told of a change of a slice.
use grpc_traffic_controller.Prelude.{
  ℕ, ◌≡◌, inr, List, some, Bool, true, ◌||◌, ◌&&◌, ◌==◌, arith, get_elem?, In,
}
use grpc_traffic_controller.Api.{GrpcListener, Route, Backend, ServiceRef}
use grpc_traffic_controller.Errors.{ok}
use grpc_traffic_controller.Envoy.{Library}
use grpc_traffic_controller.Kubernetes.{Listers}
use grpc_traffic_controller.Watches.{ResourceRef, Watches}
use grpc_traffic_controller.Watches.Validity.{IsValid, is_watching}
use grpc_traffic_controller.Notifications.{ObjectMeta, endpoint_ref, handle_slice}
use grpc_traffic_controller.Notifications.Slices.{Uses, IsSliceOf, handle_slice-In}
use grpc_traffic_controller.ConfigWatcher.{Request, start_watch}
use grpc_traffic_controller.ConfigWatcher.Lifetime.{asks_for, is_watching-start_watch}

told : (b : Bool) (n : ℕ) → (b || (n == n && true)) ≡ true
told b n = ground arith

-- A client that has asked for the endpoints of a backend is told of every change of a slice that the
-- lister is asked for, for a service of that backend: the handler announces these endpoints, and the
-- client's watcher is one of those that watch them. The handler lists the listeners and does not panic,
-- and the watches are valid when the client's watch starts.
pub slice_change_reaches :
    (lib : Library) (listers : Listers) (obj : ObjectMeta) (listeners : List GrpcListener)
    (lis : GrpcListener) (r i : ℕ) (route : Route) (backend : Backend) (service : ServiceRef)
    (refs : List ResourceRef) (number : ℕ) (req : Request) (ws : Watches)
    → listers.list_listeners ≡ inr listeners
    → In lis listeners
    → get_elem? lis.spec.routes r ≡ some route
    → get_elem? route.backends i ≡ some backend
    → Uses backend service
    → IsSliceOf obj lis service
    → handle_slice lib listers (ok obj) ≡ ok refs
    → IsValid ws
    → asks_for req (endpoint_ref lib lis.namespace lis.name r i) ≡ true
    → (In (endpoint_ref lib lis.namespace lis.name r i) refs)
      × (is_watching number
            (endpoint_ref lib lis.namespace lis.name r i)
            (start_watch number req ws).1
          ≡ true)
slice_change_reaches lib listers obj listeners lis r i route backend service refs number req ws
      listed m at_r at_i uses is e valid asks =
    (
      handle_slice-In lib listers obj listeners lis r i route backend service refs listed m at_r
          at_i uses is e,
      let watching =
            is_watching-start_watch number req ws number
              (endpoint_ref lib lis.namespace lis.name r i) valid in
          rw (watching, asks)
            (told (is_watching number (endpoint_ref lib lis.namespace lis.name r i) ws) number),
    )
