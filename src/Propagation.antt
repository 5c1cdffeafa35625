-- ===== src/Propagation.antt =====
-- How a change of the cluster reaches the clients: the informers' caches, the queues of gtc/server.go,
-- the handlers of gtc/notify.go, the sends of gtc/watcher.go and the watches of gtc/cache.go, as one
-- system whose parts run in any order.
pub mod Answers
pub mod Caches
pub mod Changes
pub mod Effects
pub mod Ladder
pub mod Services
pub mod ListenerChanges
pub mod SliceChanges
pub mod Coverage
pub mod System
pub mod FirstResponses
pub mod Pending
pub mod Announcements
pub mod Subscriptions
pub mod Responses
pub mod Deliveries
pub mod Freshness
pub mod Asking
pub mod Joining
pub mod Rounds
pub mod Releasing
pub mod Asked
pub mod Waiting
pub mod Draining
use grpc_traffic_controller.Prelude.{
  ℕ, ◌≡◌, Text, List, [], ◌∷◌, ◌++◌, map, Option, none, some, Bool, true, false, if◌then◌else◌,
  text_eq, ◌==◌, ◌&&◌, In,
}
use grpc_traffic_controller.Api.{GrpcListener}
use grpc_traffic_controller.Errors.{Error, Result, ok, err, panic}
use grpc_traffic_controller.Envoy.{Library, Any, Node}
use grpc_traffic_controller.Kubernetes.{Listers}
use grpc_traffic_controller.Resources.{ResolveRequest, ResolveResponse}
use grpc_traffic_controller.Watches.{
  ResourceRef, ref_eq, Watcher, Watches, new_watches, new_watcher, notify_changed, release,
}
use grpc_traffic_controller.Notifications.{ObjectMeta, handle_listener, handle_slice}
use grpc_traffic_controller.ConfigWatcher.{
  config_resolver, Request, change_request, first_request, has_resource_diff, start_watch,
}

-- What stands in the queues: a changed object.
pub data Event : Type 0 where
  listener_changed : GrpcListener → Event
  slice_changed : ObjectMeta → Event

-- The resource of a response to a change, the only one.
abbrev pub resource_of : Result ResolveResponse → Option Any
resource_of (ok resp) = elim resp.resources [ [] ↦ none | resource ∷ _ ↦ some resource ]
resource_of (err e) = none
resource_of panic = none

-- The resource that a client receives for a name, in a response to a request for some names.
unfoldable pub received : (names : List Text) → List Any → Text → Option Any
received [] resources n = none
received (name ∷ names) [] n = none
received (name ∷ names) (resource ∷ resources) n =
    if text_eq name n then some resource else received names resources n

module _ (lib : Library) where
  -- the call of a handler by a worker, with the listers as they are then
  unfoldable pub handle_event : Listers → Event → Result (List ResourceRef)
  unfolding handle_listener handle_slice
  handle_event listers (listener_changed lis) = ok (handle_listener lib (some lis))
  handle_event listers (slice_changed obj) = handle_slice lib listers (ok obj)

  -- What the watch of a request answers to a change of a resource.
  unfoldable pub answer : Listers → Request → ResourceRef → Option Any
  answer listers req ref =
      resource_of
        (config_resolver lib listers (change_request (config_resolver lib listers) req ref))
