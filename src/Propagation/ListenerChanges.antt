-- ===== src/Propagation/ListenerChanges.antt =====
-- gtc/notify.go, against the resolvers: a change of a listener that changes an answer is announced.
use grpc_traffic_controller.Prelude.{◌≡◌, ap, sym, ◌∙◌, inl, inr, ◌⊎◌, some, none, Bool-cases, In}
use grpc_traffic_controller.Api.{GrpcListener}
use grpc_traffic_controller.Errors.{ok_injective}
use grpc_traffic_controller.Envoy.{Library, Any}
use grpc_traffic_controller.Kubernetes.{Listers}
use grpc_traffic_controller.Listeners.{resolve_listener}
use grpc_traffic_controller.Listeners.Resolve.{resolve_listener-eq-ok_iff}
use grpc_traffic_controller.Clusters.{resolve_cluster}
use grpc_traffic_controller.Clusters.Resolve.{resolve_cluster-eq-ok_iff}
use grpc_traffic_controller.Endpoints.{resolve_endpoint, service_namespace}
use grpc_traffic_controller.Endpoints.Resolve.{resolve_endpoint-eq-ok_iff}
use grpc_traffic_controller.Watches.{ResourceRef}
use grpc_traffic_controller.Notifications.{handle_listener}
use grpc_traffic_controller.ConfigWatcher.{Request}
use grpc_traffic_controller.Propagation.{answer}
use grpc_traffic_controller.Propagation.Answers.{one_of}
use grpc_traffic_controller.Propagation.Caches.{IsListenerChange, IsCanonical}
use grpc_traffic_controller.Propagation.Changes.{
  resolve_listener-cong, resolve_cluster-cong, resolve_endpoint-cong,
}
use grpc_traffic_controller.Propagation.Effects.{
  one_of-some, is_key_of, placed, endpoints_announced, cluster_announced, listener_announced,
}
use grpc_traffic_controller.Propagation.Ladder.{
  of_listeners, of_clusters, of_endpoints, of_none, answers, answer_of_listeners,
  answer_of_clusters, answer_of_endpoints,
}
use grpc_traffic_controller.Propagation.Services.{same_list}

module _ (lib : Library) (before after : Listers) (req : Request) (ref : ResourceRef)
    (y : Any) where
  -- A change of a listener leaves an answer as it was, or announces the resource.
  pub listener_change_covers :
      (lis : GrpcListener)
      → IsListenerChange lis before after
      → IsCanonical ref
      → answer lib after req ref ≡ some y
      → (answer lib before req ref ≡ some y) ⊎ In ref (handle_listener lib (some lis))
  listener_change_covers lis changed canonical now = elim (answers lib after req ref) [
    | of_none e ↦ absurd (let e' : none ≡ some y = sym e ∙ now in cc)
    | of_listeners is e ↦
        let (out, made) =
          one_of-some (resolve_listener lib after ref.type_url ref.resource_name) y (sym e ∙ now) in
        let is_for =
          (resolve_listener-eq-ok_iff lib after ref.type_url ref.resource_name out.0 out.1).0
            made in
        elim (Bool-cases (is_key_of lis is_for.namespace is_for.name)) [
          | inl key ↦ inr (
              listener_announced lib before after lis changed ref (is_for.namespace, is_for.name) is
                is_for.read key)
          | inr other ↦ inl (
              answer_of_listeners lib before req ref is
              ∙ ap one_of (
                  sym (
                    resolve_listener-cong lib before after ref.type_url ref.resource_name λ p read.
                      let same = ok_injective is_for.read read in
                      rw (← same) (changed.others is_for.namespace is_for.name other)))
              ∙ (sym e ∙ now))
        ]
    | of_clusters isnt is e ↦
        let (out, made) =
          one_of-some (resolve_cluster lib after ref.type_url ref.resource_name) y (sym e ∙ now) in
        let is_for =
          (resolve_cluster-eq-ok_iff lib after ref.type_url ref.resource_name out.0 out.1).0 made in
        let p = is_for.ref in
        elim (Bool-cases (is_key_of lis p.namespace p.listener_name)) [
          | inl key ↦ inr (
              cluster_announced lib before after lis changed ref is (
                placed lib before after lis changed ref p is_for.lis is_for.backend canonical
                  is_for.read key is_for.listed is_for.found))
          | inr other ↦ inl (
              answer_of_clusters lib before req ref isnt is
              ∙ ap one_of (
                  sym (
                    resolve_cluster-cong lib before after ref.type_url ref.resource_name λ p' read.
                      let same = ok_injective is_for.read read in
                      rw (← same) (changed.others p.namespace p.listener_name other)))
              ∙ (sym e ∙ now))
        ]
    | of_endpoints isnt isnt' is e ↦
        let (out, made) =
          one_of-some (resolve_endpoint lib after req.node ref.type_url ref.resource_name) y
            (sym e ∙ now) in
        let is_for =
          (resolve_endpoint-eq-ok_iff lib after req.node ref.type_url ref.resource_name out.0
              out.1).0
            made in
        let p = is_for.ref in
        elim (Bool-cases (is_key_of lis p.namespace p.listener_name)) [
          | inl key ↦ inr (
              endpoints_announced lib before after lis changed ref is (
                placed lib before after lis changed ref p is_for.lis is_for.backend canonical
                  is_for.read key is_for.listed is_for.found))
          | inr other ↦ inl (
              answer_of_endpoints lib before req ref isnt isnt' is
              ∙ ap one_of (
                  sym (
                    resolve_endpoint-cong lib before after req.node ref.type_url ref.resource_name
                      (λ p' read.
                        let same = ok_injective is_for.read read in
                        rw (← same) (changed.others p.namespace p.listener_name other))
                      (λ p' l b service _ _ _ _.
                        same_list lib before after l service changed.same_requirements
                          (λ r _. changed.same_slices (service_namespace service l) r))))
              ∙ (sym e ∙ now))
        ]
  ]
