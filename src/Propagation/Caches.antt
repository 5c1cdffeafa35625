-- ===== src/Propagation/Caches.antt =====
-- The informers' caches that the listers read, and how they change between two calls. The caches are
-- client-go's: what is assumed of them is stated here.
use grpc_traffic_controller.Prelude.{
  ◌≡◌, ◌⊎◌, inl, inr, Text, List, [], ◌∷◌, some, Bool, if◌then◌else◌, true, false, ◌&&◌, text_eq,
  In,
}
use grpc_traffic_controller.Api.{GrpcListener, Backend, ServiceRef}
use grpc_traffic_controller.Errors.{Error, ok}
use grpc_traffic_controller.Envoy.{Library}
use grpc_traffic_controller.Kubernetes.{Listers, Requirement, label}
use grpc_traffic_controller.Names.{ParsedBackendName, parse_backend_name, backend_name_text}
use grpc_traffic_controller.Clusters.Find.{HasBackend}
use grpc_traffic_controller.Endpoints.{service_name_label}
use grpc_traffic_controller.Watches.{ResourceRef}
use grpc_traffic_controller.Notifications.{ObjectMeta, handle_listener}
use grpc_traffic_controller.Notifications.Slices.{Uses, IsSliceOf}
use grpc_traffic_controller.Propagation.{Event, listener_changed, slice_changed}

-- What an indexer by namespace and name gives: an object under its own key, all objects in a list; and
-- a requirement that has the key and the value that it was made with.
pub record IsCache (listers : Listers) : Type 0 where
  pub all : List GrpcListener
  pub listed : listers.list_listeners ≡ inr all
  pub complete :
      (namespace name : Text) (lis : GrpcListener)
      → listers.get_listener namespace name ≡ inr lis
      → In lis all
  pub keyed :
      (namespace name : Text) (lis : GrpcListener)
      → listers.get_listener namespace name ≡ inr lis
      → (lis.namespace ≡ namespace) × (lis.name ≡ name)
  pub required :
      (key value : Text) (r : Requirement)
      → listers.new_requirement key value ≡ inr r
      → (r.key ≡ key) × (r.value ≡ value)

-- A listener is added, updated or deleted: what is stored under another key stays, and so does every
-- list of slices.
pub record IsListenerChange (lis : GrpcListener) (before after : Listers) : Type 0 where
  pub others :
      (namespace name : Text)
      → (text_eq lis.namespace namespace && text_eq lis.name name) ≡ false
      → after.get_listener namespace name ≡ before.get_listener namespace name
  pub stored :
      (after.get_listener lis.namespace lis.name ≡ inr lis)
      ⊎ ((e : Error) × (after.get_listener lis.namespace lis.name ≡ inl e))
  pub same_requirements :
      (key value : Text) → after.new_requirement key value ≡ before.new_requirement key value
  pub same_slices :
      (namespace : Text) (r : Requirement)
      → after.list_slices namespace r ≡ before.list_slices namespace r

-- A slice is added, deleted or updated: the lists that neither the old object nor the new one belongs to
-- stay, and so do the listeners. For a slice that is added or deleted there is one object.
pub record IsSliceChange (old obj : ObjectMeta) (before after : Listers) : Type 0 where
  pub same_listeners :
      (namespace name : Text)
      → after.get_listener namespace name ≡ before.get_listener namespace name
  pub same_requirements :
      (key value : Text) → after.new_requirement key value ≡ before.new_requirement key value
  pub others :
      (namespace : Text) (r : Requirement)
      → (text_eq old.namespace namespace && text_eq (label r.key old.labels) r.value) ≡ false
      → (text_eq obj.namespace namespace && text_eq (label r.key obj.labels) r.value) ≡ false
      → after.list_slices namespace r ≡ before.list_slices namespace r

-- What an event tells of the caches. The event of an update is that of the new object.
pub data IsChange (before after : Listers) : Event → Type 0 where
  of_listener :
      (lis : GrpcListener)
      → IsListenerChange lis before after
      → IsChange before after (listener_changed lis)
  -- a slice is added or deleted
  of_slice :
      (obj : ObjectMeta)
      → IsSliceChange obj obj before after
      → IsChange before after (slice_changed obj)
  -- a slice is updated, in any of its parts but its name and its namespace
  of_update :
      (old obj : ObjectMeta)
      → old.namespace ≡ obj.namespace
      → IsSliceChange old obj before after
      → IsChange before after (slice_changed obj)

-- A slice that is of the same service as before.
abbrev pub stays : ObjectMeta → ObjectMeta → Bool
stays old obj = text_eq (label service_name_label old.labels) (label service_name_label obj.labels)

-- What no handler is told of: that a slice which has left its service was of it.
abbrev pub untold : {before after : Listers} {e : Event} → IsChange before after e → List Event
untold (of_listener lis changed) = []
untold (of_slice obj changed) = []
untold (of_update old obj namespaced changed) = if stays old obj then [] else slice_changed old ∷ []

-- A name that the server itself makes, if it is one of a backend: the parts that parsing skips are the
-- words `route` and `backend`, and the numbers are printed as Go prints them.
abbrev pub IsCanonical : ResourceRef → Type 0
IsCanonical ref =
    (p : ParsedBackendName)
    → parse_backend_name ref.resource_name ≡ ok p
    → ref.resource_name ≡ backend_name_text p

-- The endpoints of a backend, of a listener in the cache, that uses a service that a slice is of.
pub record IsFed (lib : Library) (listers : Listers) (obj : ObjectMeta) (ref : ResourceRef)
    : Type 0 where
  pub not_listener : text_eq lib.listener_type ref.type_url ≡ false
  pub not_cluster : text_eq lib.cluster_type ref.type_url ≡ false
  pub endpoints : text_eq lib.endpoint_type ref.type_url ≡ true
  pub place : ParsedBackendName
  pub read : parse_backend_name ref.resource_name ≡ ok place
  pub lis : GrpcListener
  pub listed : listers.get_listener place.namespace place.listener_name ≡ inr lis
  pub backend : Backend
  pub found : HasBackend lis place backend
  pub service : ServiceRef
  pub uses : Uses backend service
  pub slice : IsSliceOf obj lis service

-- An event whose handling announces a resource, as the caches are.
pub data Covers (lib : Library) (listers : Listers) (ref : ResourceRef) : Event → Type 0 where
  by_listener :
      (lis : GrpcListener)
      → In ref (handle_listener lib (some lis))
      → Covers lib listers ref (listener_changed lis)
  by_slice :
      (obj : ObjectMeta) → IsFed lib listers obj ref → Covers lib listers ref (slice_changed obj)
