-- ===== src/Propagation/SliceChanges.antt =====
-- gtc/notify.go, against the resolvers: a change of a slice that changes an answer is one of a service of the
-- resource.
use grpc_traffic_controller.Prelude.{◌≡◌, ap, sym, ◌∙◌, inl, inr, ◌⊎◌, some, none, true, false}
use grpc_traffic_controller.Api.{ServiceRef}
use grpc_traffic_controller.Errors.{ok_injective, ok}
use grpc_traffic_controller.Envoy.{Library, Any}
use grpc_traffic_controller.Kubernetes.{Listers}
use grpc_traffic_controller.Clusters.{find_backend_spec}
use grpc_traffic_controller.Clusters.Find.{find_backend_spec-eq-ok_iff}
use grpc_traffic_controller.Endpoints.{resolve_endpoint, service_name_label, service_namespace}
use grpc_traffic_controller.Endpoints.Resolve.{resolve_endpoint-eq-ok_iff}
use grpc_traffic_controller.Watches.{ResourceRef}
use grpc_traffic_controller.Notifications.{ObjectMeta}
use grpc_traffic_controller.Notifications.Slices.{Uses}
use grpc_traffic_controller.ConfigWatcher.{Request}
use grpc_traffic_controller.Propagation.{answer}
use grpc_traffic_controller.Propagation.Answers.{one_of}
use grpc_traffic_controller.Propagation.Caches.{IsCache, IsSliceChange, IsFed}
use grpc_traffic_controller.Propagation.Changes.{
  resolve_listener-cong, resolve_cluster-cong, resolve_endpoint-cong,
}
use grpc_traffic_controller.Propagation.Effects.{one_of-some}
use grpc_traffic_controller.Propagation.Ladder.{
  of_listeners, of_clusters, of_endpoints, of_none, answers, answer_of_listeners,
  answer_of_clusters, answer_of_endpoints,
}
use grpc_traffic_controller.Propagation.Services.{
  used, unused, is_slice_of, used_by_backend, is_slice_of→IsSliceOf, same_list,
}

module _ (lib : Library) (before after : Listers) (req : Request) (ref : ResourceRef)
    (y : Any) where
  -- A change of a slice leaves an answer as it was, or is one of a service that the resource is fed by.
  pub slice_change_covers :
      (old obj : ObjectMeta)
      → IsSliceChange old obj before after
      → IsCache before
      → answer lib after req ref ≡ some y
      → (answer lib before req ref ≡ some y) ⊎ (IsFed lib after obj ref ⊎ IsFed lib after old ref)
  slice_change_covers old obj changed cache now = elim (answers lib after req ref) [
    | of_none e ↦ absurd (let e' : none ≡ some y = sym e ∙ now in cc)
    | of_listeners is e ↦ inl (
        answer_of_listeners lib before req ref is
        ∙ ap one_of (
            sym (
              resolve_listener-cong lib before after ref.type_url ref.resource_name
                (λ p read. changed.same_listeners p.0 p.1)))
        ∙ (sym e ∙ now))
    | of_clusters isnt is e ↦ inl (
        answer_of_clusters lib before req ref isnt is
        ∙ ap one_of (
            sym (
              resolve_cluster-cong lib before after ref.type_url ref.resource_name
                (λ p read. changed.same_listeners p.namespace p.listener_name)))
        ∙ (sym e ∙ now))
    | of_endpoints isnt isnt' is e ↦
        let (out, made) =
          one_of-some (resolve_endpoint lib after req.node ref.type_url ref.resource_name) y
            (sym e ∙ now) in
        let is_for =
          (resolve_endpoint-eq-ok_iff lib after req.node ref.type_url ref.resource_name out.0
              out.1).0
            made in
        let p = is_for.ref in
        let fed : (o : ObjectMeta) (service : ServiceRef)
            → Uses is_for.backend service
            → is_slice_of o is_for.lis service ≡ true
            → IsFed lib after o ref =
          λ o service uses matches. record {
            not_listener = isnt;
            not_cluster = isnt';
            endpoints = is;
            place = p;
            read = is_for.read;
            lis = is_for.lis;
            listed = is_for.listed;
            backend = is_for.backend;
            found = is_for.found;
            service = service;
            uses = uses;
            slice = is_slice_of→IsSliceOf o is_for.lis service matches;
          } in
        elim (used_by_backend obj is_for.lis is_for.backend) [
          | used service uses matches ↦ inr (inl (fed obj service uses matches))
          | unused differs ↦ elim (used_by_backend old is_for.lis is_for.backend) [
            | used service uses matches ↦ inr (inr (fed old service uses matches))
            | unused was_differs ↦ inl (
                answer_of_endpoints lib before req ref isnt isnt' is
                ∙ ap one_of (
                    sym (
                      resolve_endpoint-cong lib before after req.node ref.type_url ref.resource_name
                        (λ p' read. changed.same_listeners p'.namespace p'.listener_name)
                        (λ p' l b service read listed found uses.
                          let same_p : p ≡ p' = ok_injective is_for.read read in
                          let listed' : before.get_listener p.namespace p.listener_name ≡ inr l =
                            rw same_p listed in
                          let e_l : inr is_for.lis ≡ inr l =
                            sym is_for.listed
                            ∙ (changed.same_listeners p.namespace p.listener_name ∙ listed') in
                          let same_l : is_for.lis ≡ l = cc in
                          let found' : find_backend_spec p is_for.lis ≡ ok b =
                            rw (same_p, same_l) found in
                          let same_b : is_for.backend ≡ b =
                            ok_injective
                              ((find_backend_spec-eq-ok_iff is_for.lis p is_for.backend).1
                                is_for.found)
                              found' in
                          let uses' : Uses is_for.backend service = rw same_b uses in
                          let differs' : is_slice_of obj l service ≡ false =
                            rw (← same_l) (differs service uses') in
                          let was_differs' : is_slice_of old l service ≡ false =
                            rw (← same_l) (was_differs service uses') in
                          same_list lib before after l service changed.same_requirements λ r made.
                            let (key, value) =
                              cache.required service_name_label service.name r made in
                            changed.others (service_namespace service l) r
                              (rw (key, value) was_differs') (rw (key, value) differs'))))
                ∙ (sym e ∙ now))
          ]
        ]
  ]
