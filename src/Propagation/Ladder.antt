-- ===== src/Propagation/Ladder.antt =====
-- gtc/resolver.go: which resolver answers a change of a resource.
use grpc_traffic_controller.Prelude.{
  ◌≡◌, refl, ◌∙◌, inl, inr, none, true, false, text_eq, Bool-cases,
}
use grpc_traffic_controller.Envoy.{Library}
use grpc_traffic_controller.Kubernetes.{Listers}
use grpc_traffic_controller.Listeners.{resolve_listener}
use grpc_traffic_controller.Clusters.{resolve_cluster}
use grpc_traffic_controller.Endpoints.{resolve_endpoint}
use grpc_traffic_controller.Watches.{ResourceRef}
use grpc_traffic_controller.ConfigWatcher.{Request}
use grpc_traffic_controller.Propagation.{answer}
use grpc_traffic_controller.Propagation.Answers.{one_of, answer-eq-one_of}

-- Which resolver answers a change of a resource.
pub data Answers (lib : Library) (listers : Listers) (req : Request) (ref : ResourceRef)
    : Type 0 where
  of_listeners :
      text_eq lib.listener_type ref.type_url ≡ true
      → answer lib listers req ref
        ≡ one_of (resolve_listener lib listers ref.type_url ref.resource_name)
      → Answers lib listers req ref
  of_clusters :
      text_eq lib.listener_type ref.type_url ≡ false
      → text_eq lib.cluster_type ref.type_url ≡ true
      → answer lib listers req ref
        ≡ one_of (resolve_cluster lib listers ref.type_url ref.resource_name)
      → Answers lib listers req ref
  of_endpoints :
      text_eq lib.listener_type ref.type_url ≡ false
      → text_eq lib.cluster_type ref.type_url ≡ false
      → text_eq lib.endpoint_type ref.type_url ≡ true
      → answer lib listers req ref
        ≡ one_of (resolve_endpoint lib listers req.node ref.type_url ref.resource_name)
      → Answers lib listers req ref
  of_none : answer lib listers req ref ≡ none → Answers lib listers req ref

pub answers :
    (lib : Library) (listers : Listers) (req : Request) (ref : ResourceRef)
    → Answers lib listers req ref
answers lib listers req ref =
    let e = answer-eq-one_of lib listers req ref in
    elim (Bool-cases (text_eq lib.listener_type ref.type_url)) [
      | inl is ↦ of_listeners is (e ∙ rw is refl)
      | inr isnt ↦ elim (Bool-cases (text_eq lib.cluster_type ref.type_url)) [
        | inl is ↦ of_clusters isnt is (e ∙ rw (isnt, is) refl)
        | inr isnt' ↦ elim (Bool-cases (text_eq lib.endpoint_type ref.type_url)) [
          | inl is ↦ of_endpoints isnt isnt' is (e ∙ rw (isnt, isnt', is) refl)
          | inr isnt'' ↦ of_none (e ∙ rw (isnt, isnt', isnt'') refl)
        ]
      ]
    ]

pub answer_of_endpoints :
    (lib : Library) (listers : Listers) (req : Request) (ref : ResourceRef)
    → text_eq lib.listener_type ref.type_url ≡ false
    → text_eq lib.cluster_type ref.type_url ≡ false
    → text_eq lib.endpoint_type ref.type_url ≡ true
    → answer lib listers req ref
      ≡ one_of (resolve_endpoint lib listers req.node ref.type_url ref.resource_name)
answer_of_endpoints lib listers req ref isnt isnt' is =
    answer-eq-one_of lib listers req ref ∙ rw (isnt, isnt', is) refl

pub answer_of_clusters :
    (lib : Library) (listers : Listers) (req : Request) (ref : ResourceRef)
    → text_eq lib.listener_type ref.type_url ≡ false
    → text_eq lib.cluster_type ref.type_url ≡ true
    → answer lib listers req ref
      ≡ one_of (resolve_cluster lib listers ref.type_url ref.resource_name)
answer_of_clusters lib listers req ref isnt is =
    answer-eq-one_of lib listers req ref ∙ rw (isnt, is) refl

pub answer_of_listeners :
    (lib : Library) (listers : Listers) (req : Request) (ref : ResourceRef)
    → text_eq lib.listener_type ref.type_url ≡ true
    → answer lib listers req ref
      ≡ one_of (resolve_listener lib listers ref.type_url ref.resource_name)
answer_of_listeners lib listers req ref is = answer-eq-one_of lib listers req ref ∙ rw is refl
