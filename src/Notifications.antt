-- ===== src/Notifications.antt =====
-- gtc/notify.go: which resources are announced when an object of Kubernetes changes. A handler gives
-- the resources that it passes to watches.notifyChanged, in order.
pub mod Listener
pub mod Slices
use grpc_traffic_controller.Prelude.{
  ℕ, suc, pos, Text, List, [], ◌∷◌, ◌++◌, Option, some, none, Bool, true, false, ◌&&◌, ◌||◌, not,
  if◌then◌else◌, text_eq,
}
use grpc_traffic_controller.Api.{GrpcListener, Route, Backend, ServiceRef, Locality}
use grpc_traffic_controller.Errors.{◌>>=◌, Result, ok, panic, lift}
use grpc_traffic_controller.Envoy.{Library}
use grpc_traffic_controller.Kubernetes.{Listers, EndpointSlice, label}
use grpc_traffic_controller.Names.{backend_name, listener_name}
use grpc_traffic_controller.Queue.{EventHandler}
use grpc_traffic_controller.Watches.{ResourceRef}
use grpc_traffic_controller.Endpoints.{service_name_label}

module _ (lib : Library) where
  abbrev pub cluster_ref : (namespace name : Text) (route_id backend_id : ℕ) → ResourceRef
  cluster_ref namespace name r b = record {
    type_url = lib.cluster_type;
    resource_name = backend_name namespace name (pos r) (pos b);
  }

  abbrev pub endpoint_ref : (namespace name : Text) (route_id backend_id : ℕ) → ResourceRef
  endpoint_ref namespace name r b = record {
    type_url = lib.endpoint_type;
    resource_name = backend_name namespace name (pos r) (pos b);
  }

  abbrev pub listener_ref : GrpcListener → ResourceRef
  listener_ref lis = record {
    type_url = lib.listener_type;
    resource_name = listener_name lis.namespace lis.name;
  }

  unfoldable pub backend_refs :
      GrpcListener → (route_id backend_id : ℕ) → List Backend → List ResourceRef
  backend_refs lis r b [] = []
  backend_refs lis r b (_ ∷ more) =
      cluster_ref lis.namespace lis.name r b
      ∷ endpoint_ref lis.namespace lis.name r b
      ∷ backend_refs lis r (suc b) more

  unfoldable pub route_refs : GrpcListener → (route_id : ℕ) → List Route → List ResourceRef
  unfolding backend_refs
  route_refs lis r [] = []
  route_refs lis r (route ∷ more) =
      backend_refs lis r 0 route.backends ++ route_refs lis (suc r) more

  -- grpcListenerChangedHandler.handle; an object of another type is logged and skipped
  unfoldable pub handle_listener : Option GrpcListener → List ResourceRef
  unfolding route_refs
  handle_listener none = []
  handle_listener (some lis) = listener_ref lis ∷ route_refs lis 0 lis.spec.routes

-- What the handler reads of the object's metadata.
pub record ObjectMeta : Type 0 where
  pub namespace : Text
  pub labels : List (Text × Text)

abbrev pub slice_meta : EndpointSlice → ObjectMeta
slice_meta s = record { namespace = s.namespace; labels = s.labels }

unfoldable pub matches_service : ObjectMeta → GrpcListener → ServiceRef → Bool
matches_service obj lis service =
    if text_eq (label service_name_label obj.labels) service.name
    then text_eq lis.namespace obj.namespace
      || (not (text_eq service.namespace []) && text_eq service.namespace obj.namespace)
    else false

-- A nil service is dereferenced, which panics.
abbrev pub matches_service_pointer : ObjectMeta → GrpcListener → Option ServiceRef → Result Bool
matches_service_pointer obj lis none = panic
matches_service_pointer obj lis (some service) = ok (matches_service obj lis service)

unfoldable pub matches_localities : ObjectMeta → GrpcListener → List Locality → Result Bool
unfolding matches_service
matches_localities obj lis [] = ok false
matches_localities obj lis (loc ∷ more) = do
  found ← matches_service_pointer obj lis loc.service
  (if found then ok true else matches_localities obj lis more)

unfoldable pub matches_backend : ObjectMeta → GrpcListener → Backend → Result Bool
unfolding matches_service matches_localities
matches_backend obj lis backend = elim backend.service [
  | some service ↦ ok (matches_service obj lis service)
  | none ↦ matches_localities obj lis backend.localities
]

module _ (lib : Library) (obj : ObjectMeta) where
  unfoldable pub matching_backends :
      GrpcListener → (route_id backend_id : ℕ) → List Backend → Result (List ResourceRef)
  unfolding matches_backend
  matching_backends lis r b [] = ok []
  matching_backends lis r b (backend ∷ more) = do
    found ← matches_backend obj lis backend
    rest ← matching_backends lis r (suc b) more
    ok (if found then endpoint_ref lib lis.namespace lis.name r b ∷ rest else rest)

  unfoldable pub matching_routes :
      GrpcListener → (route_id : ℕ) → List Route → Result (List ResourceRef)
  unfolding matching_backends
  matching_routes lis r [] = ok []
  matching_routes lis r (route ∷ more) = do
    here ← matching_backends lis r 0 route.backends
    rest ← matching_routes lis (suc r) more
    ok (here ++ rest)

  unfoldable pub matching_listeners : List GrpcListener → Result (List ResourceRef)
  unfolding matching_routes
  matching_listeners [] = ok []
  matching_listeners (lis ∷ more) = do
    here ← matching_routes lis 0 lis.spec.routes
    rest ← matching_listeners more
    ok (here ++ rest)

-- endpointSliceChangedHandler.handle; apimeta.Accessor gives the metadata or an error
unfoldable pub handle_slice :
    Library → Listers → (accessed : Result ObjectMeta) → Result (List ResourceRef)
unfolding matching_listeners
handle_slice lib listers accessed = do
  obj ← accessed
  listeners ← lift listers.list_listeners
  matching_listeners lib obj listeners

-- grpcListenerChangedHandler and endpointSliceChangedHandler: what OnAdd, OnUpdate and OnDelete announce
-- for an object of the informers. The type assertion and apimeta.Accessor are arguments.
module _ (lib : Library) {Object : Type 0} where
  abbrev pub listener_changed_handler :
      (as_listener : Option Object → Option GrpcListener) → EventHandler Object (List ResourceRef)
  listener_changed_handler as_listener = record {
    on_add = λ obj. ok (handle_listener lib (as_listener obj));
    on_update = λ old_obj new_obj. ok (handle_listener lib (as_listener new_obj));
    on_delete = λ obj. ok (handle_listener lib (as_listener obj));
  }

  abbrev pub endpoint_slice_changed_handler :
      Listers
      → (accessor : Option Object → Result ObjectMeta) → EventHandler Object (List ResourceRef)
  endpoint_slice_changed_handler listers accessor = record {
    on_add = λ obj. handle_slice lib listers (accessor obj);
    on_update = λ old_obj new_obj. handle_slice lib listers (accessor new_obj);
    on_delete = λ obj. handle_slice lib listers (accessor obj);
  }
