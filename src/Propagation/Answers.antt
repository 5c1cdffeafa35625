-- ===== src/Propagation/Answers.antt =====
-- gtc/cache.go: the answer to a change, and the resources of a first response.
use grpc_traffic_controller.Prelude.{
  ℕ, suc, ◌≡◌, refl, sym, ap, ◌∙◌, inl, inr, Text, List, [], ◌∷◌, Option, none, some, if◌then◌else◌,
  text_eq, text_eq→eq, Bool-cases,
}
use mathlib.Core.Path.{fun_ext}
use grpc_traffic_controller.Errors.{
  Error, Result, ok, err, panic, unsupported_resource_type, is_ok, is_err, is_panic, Result-cases,
}
use grpc_traffic_controller.Errors.Loops.{map_from, map_from-cons}
use grpc_traffic_controller.Envoy.{Library, Any, Node}
use grpc_traffic_controller.Kubernetes.{Listers}
use grpc_traffic_controller.Resources.{
  ResolveRequest, ResolveResponse, resolve_by_type, resolve_names, new_resolve_response,
  use_resource_version,
}
use grpc_traffic_controller.Resources.Loop.{resources_of, resolve_names_lem}
use grpc_traffic_controller.Listeners.{resolve_listener, resolve_listeners}
use grpc_traffic_controller.Clusters.{resolve_cluster, resolve_clusters}
use grpc_traffic_controller.Endpoints.{resolve_endpoint, resolve_endpoints}
use grpc_traffic_controller.Watches.{ResourceRef}
use grpc_traffic_controller.ConfigWatcher.{Request, config_resolver, first_request}
use grpc_traffic_controller.Propagation.{resource_of, received, answer}

-- The resource of one round.
abbrev pub one_of : Result (Any × Text) → Option Any
one_of (ok out) = some out.0
one_of (err e) = none
one_of panic = none

module _ (lib : Library) (listers : Listers) where
  -- One round of the resolver of a type.
  abbrev pub resolve_one : Option Node → (type_url name : Text) → Result (Any × Text)
  resolve_one asking type_url name =
      if text_eq lib.listener_type type_url
      then resolve_listener lib listers type_url name
      else if text_eq lib.cluster_type type_url
      then resolve_cluster lib listers type_url name
      else if text_eq lib.endpoint_type type_url
      then resolve_endpoint lib listers asking type_url name
      else err (unsupported_resource_type type_url)

  -- The resolver of a request is the loop over one round, or an error.
  data IsLoop (req : ResolveRequest) : Type 0 where
    loops :
        (T : Text)
        → config_resolver lib listers req
          ≡ resolve_names
              (resolve_one req.node_info req.type_url)
              req.resource_names
              (new_resolve_response T)
        → IsLoop req
    refuses :
        (e : Error)
        → config_resolver lib listers req ≡ err e
        → ((name : Text) → resolve_one req.node_info req.type_url name ≡ err e)
        → IsLoop req

  config_resolver-IsLoop : (req : ResolveRequest) → IsLoop req
  unfolding config_resolver resolve_by_type resolve_listeners resolve_clusters resolve_endpoints
  config_resolver-IsLoop req = elim (Bool-cases (text_eq lib.listener_type req.type_url)) [
    | inl is ↦ loops lib.listener_type (
        rw (config_resolver, resolve_by_type, is)
          (ap (λ f. resolve_names f req.resource_names (new_resolve_response lib.listener_type))
            (fun_ext λ name. rw is refl)))
    | inr isnt ↦ elim (Bool-cases (text_eq lib.cluster_type req.type_url)) [
      | inl is ↦ loops lib.cluster_type (
          rw (config_resolver, resolve_by_type, isnt, is)
            (ap (λ f. resolve_names f req.resource_names (new_resolve_response lib.cluster_type))
              (fun_ext λ name. rw (isnt, is) refl)))
      | inr isnt' ↦ elim (Bool-cases (text_eq lib.endpoint_type req.type_url)) [
        | inl is ↦ loops lib.endpoint_type (
            rw (config_resolver, resolve_by_type, isnt, isnt', is)
              (ap (λ f. resolve_names f req.resource_names (new_resolve_response lib.endpoint_type))
                (fun_ext λ name. rw (isnt, isnt', is) refl)))
        | inr isnt'' ↦
            refuses (unsupported_resource_type req.type_url)
              (rw (config_resolver, resolve_by_type, isnt, isnt', isnt'') refl)
              (λ name. rw (isnt, isnt', isnt'') refl)
      ]
    ]
  ]

  one_round :
      (f : Text → Result (Any × Text)) (name T : Text)
      → resource_of (resolve_names f (name ∷ []) (new_resolve_response T)) ≡ one_of (f name)
  unfolding resolve_names use_resource_version
  one_round f name T = elim (Result-cases (f name)) [
    | is_ok out made ↦ rw (resolve_names, made) refl
    | is_err e failed ↦ rw (resolve_names, failed) refl
    | is_panic failed ↦ rw (resolve_names, failed) refl
  ]

  -- The answer to a change is what one round gives for the resource.
  pub answer-eq-one_of :
      (req : Request) (ref : ResourceRef)
      → answer lib listers req ref ≡ one_of (resolve_one req.node ref.type_url ref.resource_name)
  unfolding answer
  answer-eq-one_of req ref =
      elim (config_resolver-IsLoop (record {
        resource_names = ref.resource_name ∷ [];
        type_url = ref.type_url;
        node_info = req.node;
      })) [
        | loops T e ↦
            ap resource_of e ∙ one_round (resolve_one req.node ref.type_url) ref.resource_name T
        | refuses x e fails ↦ ap resource_of e ∙ ap one_of (sym (fails ref.resource_name))
      ]

  received_lem :
      (f : Text → Result (Any × Text)) (i : ℕ) (names : List Text) (outs : List (Any × Text))
      (n : Text) (x : Any)
      → map_from (λ _. f) i names ≡ ok outs
      → received names (resources_of outs) n ≡ some x
      → one_of (f n) ≡ some x
  unfolding received
  received_lem f i [] outs n x e got = cc
  received_lem f i (name ∷ names) outs n x e got =
      let (out, rest, here, more, same) = map_from-cons (λ _. f) i name names outs e in
      let got' : received (name ∷ names) (resources_of (out ∷ rest)) n ≡ some x = rw same at got in
      elim (Bool-cases (text_eq name n)) [
        | inl is ↦
            let e' : some out.0 ≡ some x = rw is at got' in rw (← text_eq→eq name n is, here) e'
        | inr isnt ↦ received_lem f (suc i) names rest n x more (rw isnt at got')
      ]

  -- What a client receives for a name in its first response is the answer to a change of that resource.
  pub received-eq-answer :
      (req : Request) (resp : ResolveResponse) (n : Text) (x : Any)
      → config_resolver lib listers (first_request (config_resolver lib listers) req) ≡ ok resp
      → received req.resource_names resp.resources n ≡ some x
      → answer lib listers req (record { type_url = req.type_url; resource_name = n }) ≡ some x
  received-eq-answer req resp n x e got =
      elim (config_resolver-IsLoop (first_request (config_resolver lib listers) req)) [
        | refuses er e' fails ↦ absurd (let e'' : err er ≡ ok resp = sym e' ∙ e in cc)
        | loops T e' ↦
            let (outs, looped, same) =
              resolve_names_lem (resolve_one req.node req.type_url) 0 req.resource_names
                (new_resolve_response T) resp (sym e' ∙ e) in
            let resources : resp.resources ≡ resources_of outs = ap (λ r. r.resources) same in
            answer-eq-one_of req (record { type_url = req.type_url; resource_name = n })
            ∙ received_lem (resolve_one req.node req.type_url) 0 req.resource_names outs n x looped
                (rw resources at got)
      ]
