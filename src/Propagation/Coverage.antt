-- ===== src/Propagation/Coverage.antt =====
-- gtc/notify.go, against the resolvers: where a change of the caches changes an answer, the event of the
-- change covers the resource, until it is handled.
use grpc_traffic_controller.Prelude.{
  pos, ◌≡◌, refl, sym, ◌∙◌, inl, inr, ◌⊎◌, List, some, true, text_eq→eq, Bool-cases, In, here,
}
use grpc_traffic_controller.Errors.{ok_injective, ok}
use grpc_traffic_controller.Envoy.{Library, Any}
use grpc_traffic_controller.Kubernetes.{Listers}
use grpc_traffic_controller.Names.{backend_name_text, backend_name}
use grpc_traffic_controller.Endpoints.{resolve_endpoint}
use grpc_traffic_controller.Endpoints.Resolve.{resolve_endpoint-eq-ok_iff}
use grpc_traffic_controller.Watches.{ResourceRef}
use grpc_traffic_controller.Notifications.{ObjectMeta, handle_listener, endpoint_ref}
use grpc_traffic_controller.Notifications.Slices.{handle_slice-In}
use grpc_traffic_controller.ConfigWatcher.{Request}
use grpc_traffic_controller.Propagation.{Event, slice_changed, answer, handle_event}
use grpc_traffic_controller.Propagation.Caches.{
  IsCache, IsChange, of_listener, of_slice, of_update, stays, untold, IsCanonical, IsFed, Covers,
  by_listener, by_slice,
}
use grpc_traffic_controller.Propagation.Effects.{
  one_of-some, is_key_of, placed, endpoints_announced,
}
use grpc_traffic_controller.Propagation.Ladder.{answer_of_endpoints}
use grpc_traffic_controller.Propagation.ListenerChanges.{listener_change_covers}
use grpc_traffic_controller.Propagation.SliceChanges.{slice_change_covers}

-- A resource is covered by what no handler is told of.
pub record IsMissed (lib : Library) (ref : ResourceRef) {before after : Listers} {e : Event}
    (change : IsChange before after e) : Type 0 where
  pub event : Event
  pub is_untold : In event (untold change)
  pub covers : Covers lib after ref event

module _ (lib : Library) (before after : Listers) (req : Request) (ref : ResourceRef)
    (y : Any) where
  -- What a slice of a service feeds, every other slice of it does.
  IsFed-moved :
      (old obj : ObjectMeta)
      → IsFed lib after old ref
      → old.namespace ≡ obj.namespace
      → stays old obj ≡ true
      → IsFed lib after obj ref
  IsFed-moved old obj fed namespaced same = record {
    not_listener = fed.not_listener;
    not_cluster = fed.not_cluster;
    endpoints = fed.endpoints;
    place = fed.place;
    read = fed.read;
    lis = fed.lis;
    listed = fed.listed;
    backend = fed.backend;
    found = fed.found;
    service = fed.service;
    uses = fed.uses;
    slice = record {
      labelled = sym (text_eq→eq _ _ same) ∙ fed.slice.labelled;
      namespaced = sym namespaced ∙ fed.slice.namespaced;
    };
  }

  -- A change leaves an answer as it was, or its event covers the resource, or what no handler is told of
  -- does.
  pub change-Covers :
      (e : Event) (change : IsChange before after e)
      → IsCache before
      → IsCanonical ref
      → answer lib after req ref ≡ some y
      → (answer lib before req ref ≡ some y) ⊎ (Covers lib after ref e ⊎ IsMissed lib ref change)
  change-Covers e (of_listener lis changed) cache canonical now =
      elim (listener_change_covers lib before after req ref y lis changed canonical now) [
        | inl same ↦ inl same
        | inr announced ↦ inr (inl (by_listener lis announced))
      ]
  change-Covers e (of_slice obj changed) cache canonical now =
      elim (slice_change_covers lib before after req ref y obj obj changed cache now) [
        | inl same ↦ inl same
        | inr (inl fed) ↦ inr (inl (by_slice obj fed))
        | inr (inr fed) ↦ inr (inl (by_slice obj fed))
      ]
  change-Covers e (of_update old obj namespaced changed) cache canonical now =
      elim (slice_change_covers lib before after req ref y old obj changed cache now) [
        | inl same ↦ inl same
        | inr (inl fed) ↦ inr (inl (by_slice obj fed))
        | inr (inr fed) ↦ elim (Bool-cases (stays old obj)) [
          | inl same ↦ inr (inl (by_slice obj (IsFed-moved old obj fed namespaced same)))
          | inr left ↦ inr (
              inr (record {
                event = slice_changed old;
                is_untold = rw left (here refl);
                covers = by_slice old fed;
              }))
        ]
      ]

  IsFed-later :
      (obj : ObjectMeta) (fed : IsFed lib before obj ref)
      → after.get_listener fed.place.namespace fed.place.listener_name
        ≡ before.get_listener fed.place.namespace fed.place.listener_name
      → IsFed lib after obj ref
  IsFed-later obj fed same = record {
    not_listener = fed.not_listener;
    not_cluster = fed.not_cluster;
    endpoints = fed.endpoints;
    place = fed.place;
    read = fed.read;
    lis = fed.lis;
    listed = same ∙ fed.listed;
    backend = fed.backend;
    found = fed.found;
    service = fed.service;
    uses = fed.uses;
    slice = fed.slice;
  }

  -- An event that covers a resource still does after a change, or the event of the change does.
  pub Covers-change :
      (pending e : Event)
      → Covers lib before ref pending
      → IsChange before after e
      → IsCanonical ref
      → answer lib after req ref ≡ some y
      → Covers lib after ref pending ⊎ Covers lib after ref e
  Covers-change pending e (by_listener lis announced) change canonical now =
      inl (by_listener lis announced)
  Covers-change pending e (by_slice obj fed) (of_slice obj' changed) canonical now = inl (
      by_slice obj
        (IsFed-later obj fed (changed.same_listeners fed.place.namespace fed.place.listener_name)))
  Covers-change pending e (by_slice obj fed) (of_update old obj' same changed) canonical now = inl (
      by_slice obj
        (IsFed-later obj fed (changed.same_listeners fed.place.namespace fed.place.listener_name)))
  Covers-change pending e (by_slice obj fed) (of_listener lis changed) canonical now =
      elim (Bool-cases (is_key_of lis fed.place.namespace fed.place.listener_name)) [
        | inr other ↦ inl (
            by_slice obj (
              IsFed-later obj fed
                (changed.others fed.place.namespace fed.place.listener_name other)))
        | inl key ↦
            let e' =
              answer_of_endpoints lib after req ref fed.not_listener fed.not_cluster
                fed.endpoints in
            let (out, made) =
              one_of-some (resolve_endpoint lib after req.node ref.type_url ref.resource_name) y
                (sym e' ∙ now) in
            let is_for =
              (resolve_endpoint-eq-ok_iff lib after req.node ref.type_url ref.resource_name out.0
                  out.1).0
                made in
            let same = ok_injective fed.read is_for.read in
            let key' : is_key_of lis is_for.ref.namespace is_for.ref.listener_name ≡ true =
              rw (← same) key in
            inr (
              by_listener lis (
                endpoints_announced lib before after lis changed ref fed.endpoints (
                  placed lib before after lis changed ref is_for.ref is_for.lis is_for.backend
                    canonical is_for.read key' is_for.listed is_for.found)))
      ]

-- Handling an event announces every resource that it covers.
pub Covers-announced :
    (lib : Library) (listers : Listers) (ref : ResourceRef) (e : Event) (refs : List ResourceRef)
    → Covers lib listers ref e
    → IsCache listers
    → IsCanonical ref
    → handle_event lib listers e ≡ ok refs
    → In ref refs
unfolding handle_event backend_name_text
Covers-announced lib listers ref e refs (by_listener lis announced) cache canonical handled =
    let same : handle_listener lib (some lis) ≡ refs = ok_injective refl handled in
    rw (← same) announced
Covers-announced lib listers ref e refs (by_slice obj fed) cache canonical handled =
    let (in_namespace, has_name) =
      cache.keyed fed.place.namespace fed.place.listener_name fed.lis fed.listed in
    let typed = text_eq→eq lib.endpoint_type ref.type_url fed.endpoints in
    let has = fed.found in
    let named : backend_name fed.lis.namespace fed.lis.name (pos has.r) (pos has.i)
        ≡ ref.resource_name =
      rw (in_namespace, has_name, ← has.at_route, ← has.at_backend)
        (sym (canonical fed.place fed.read)) in
    let same : endpoint_ref lib fed.lis.namespace fed.lis.name has.r has.i ≡ ref =
      λ j. record { type_url = typed j; resource_name = named j } in
    rw (← same) (
      handle_slice-In lib listers obj cache.all fed.lis has.r has.i has.route fed.backend
        fed.service refs cache.listed
        (cache.complete fed.place.namespace fed.place.listener_name fed.lis fed.listed)
        has.in_routes has.in_backends fed.uses fed.slice handled)

-- If the caches change, and a resource of canonical name then has an answer that it did not have before,
-- the handler of the change announces the resource, with the caches as they have become; or the change is
-- an update by which a slice leaves its service, and the resource has the endpoints of that service. The
-- caches give an object under its own key and list every object, and the handler does not panic.
pub change_announced :
    (lib : Library) (before after : Listers) (req : Request) (ref : ResourceRef) (y : Any)
    (e : Event) (refs : List ResourceRef) (change : IsChange before after e)
    → IsCache before
    → IsCache after
    → IsCanonical ref
    → answer lib after req ref ≡ some y
    → handle_event lib after e ≡ ok refs
    → (answer lib before req ref ≡ some y) ⊎ (In ref refs ⊎ IsMissed lib ref change)
change_announced lib before after req ref y e refs change cached cached' canonical now handled =
    elim (change-Covers lib before after req ref y e change cached canonical now) [
      | inl same ↦ inl same
      | inr (inl covered) ↦
          inr (inl (Covers-announced lib after ref e refs covered cached' canonical handled))
      | inr (inr missed) ↦ inr (inr missed)
    ]
