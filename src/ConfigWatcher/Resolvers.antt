-- ===== src/ConfigWatcher/Resolvers.antt =====
-- gtc/cache.go and gtc/resolver.go: which resolver answers, and what a response holds.
use grpc_traffic_controller.Prelude.{
  ℕ, suc, ◌≡◌, sym, ap, ◌∙◌, inl, inr, Text, List, [], ◌∷◌, text_eq, text_eq→eq, Bool-cases, arith,
}
use grpc_traffic_controller.Errors.{Result, ok, err, unsupported_resource_type}
use grpc_traffic_controller.Errors.Loops.{Forall₂, nil, cons, map_from, map_from-cons}
use grpc_traffic_controller.Envoy.{Library, Any}
use grpc_traffic_controller.Kubernetes.{Listers}
use grpc_traffic_controller.Resources.{
  ResolveRequest, ResolveResponse, resolve_by_type, resolve_names, new_resolve_response,
}
use grpc_traffic_controller.Resources.Loop.{written_by, resources_of, resolve_names_lem}
use grpc_traffic_controller.Listeners.{resolve_listener, resolve_listeners}
use grpc_traffic_controller.Clusters.{resolve_cluster, resolve_clusters}
use grpc_traffic_controller.Endpoints.{resolve_endpoint, resolve_endpoints}
use grpc_traffic_controller.ConfigWatcher.{config_resolver}

module _ (lib : Library) (listers : Listers) where
  -- What the resolver of a request's type gives for one of its names: a resource, and the versions that
  -- are written to the hash.
  pub data Resolves (req : ResolveRequest) (name : Text) (resource : Any) (version : Text)
      : Type 0 where
    a_listener :
        req.type_url ≡ lib.listener_type
        → resolve_listener lib listers req.type_url name ≡ ok (resource, version)
        → Resolves req name resource version
    a_cluster :
        req.type_url ≡ lib.cluster_type
        → resolve_cluster lib listers req.type_url name ≡ ok (resource, version)
        → Resolves req name resource version
    an_assignment :
        req.type_url ≡ lib.endpoint_type
        → resolve_endpoint lib listers req.node_info req.type_url name ≡ ok (resource, version)
        → Resolves req name resource version

  -- A response: it has the type of the request, one resource for each name, in order, and the versions of
  -- all of them have been written, in order.
  pub record IsResponse (req : ResolveRequest) (resp : ResolveResponse) : Type 0 where
    pub outs : List (Any × Text)
    pub typed : resp.type_url ≡ req.type_url
    pub all : Forall₂ (λ name out. Resolves req name out.0 out.1) req.resource_names outs
    pub resources : resp.resources ≡ resources_of outs
    pub written : resp.written ≡ written_by outs

  map_from-Resolves :
      (req : ResolveRequest) (f : Text → Result (Any × Text)) (i : ℕ) (names : List Text)
      (outs : List (Any × Text))
      → ((name : Text) (resource : Any) (version : Text)
          → f name ≡ ok (resource, version)
          → Resolves req name resource version)
      → map_from (λ _. f) i names ≡ ok outs
      → Forall₂ (λ name out. Resolves req name out.0 out.1) names outs
  unfolding map_from
  map_from-Resolves req f i [] outs each e = let same : [] ≡ outs = ground arith in rw (← same) nil
  map_from-Resolves req f i (name ∷ names) outs each e =
      let (out, rest, here, more, same) = map_from-cons (λ _. f) i name names outs e in
      rw same
        (cons (each name out.0 out.1 here) (map_from-Resolves req f (suc i) names rest each more))

  from_loop :
      (req : ResolveRequest) (resp : ResolveResponse) (type_url : Text)
      (f : Text → Result (Any × Text))
      → type_url ≡ req.type_url
      → ((name : Text) (resource : Any) (version : Text)
          → f name ≡ ok (resource, version)
          → Resolves req name resource version)
      → resolve_names f req.resource_names (new_resolve_response type_url) ≡ ok resp
      → IsResponse req resp
  from_loop req resp type_url f typed each e =
      let (outs, looped, same) =
        resolve_names_lem f 0 req.resource_names (new_resolve_response type_url) resp e in
      record {
        outs = outs;
        typed = ap (λ r. r.type_url) same ∙ typed;
        all = map_from-Resolves req f 0 req.resource_names outs each looped;
        resources = ap (λ r. r.resources) same;
        written = ap (λ r. r.written) same;
      }

  -- A response is given only if every name is resolved by the resolver of the request's type, and it
  -- consists of what that resolver gives for each name, in order: a partial answer is never sent.
  pub config_resolver-IsResponse :
      (req : ResolveRequest) (resp : ResolveResponse)
      → config_resolver lib listers req ≡ ok resp
      → IsResponse req resp
  unfolding config_resolver resolve_by_type resolve_listeners resolve_clusters resolve_endpoints
  config_resolver-IsResponse req resp e =
      elim (Bool-cases (text_eq lib.listener_type req.type_url)) [
        | inl is ↦
            let same = text_eq→eq lib.listener_type req.type_url is in
            from_loop req resp lib.listener_type (resolve_listener lib listers req.type_url) same
              (λ name resource version. a_listener (sym same)) (rw is at e)
        | inr isnt ↦ elim (Bool-cases (text_eq lib.cluster_type req.type_url)) [
          | inl is ↦
              let same = text_eq→eq lib.cluster_type req.type_url is in
              from_loop req resp lib.cluster_type (resolve_cluster lib listers req.type_url) same
                (λ name resource version. a_cluster (sym same)) (rw (isnt, is) at e)
          | inr isnt' ↦ elim (Bool-cases (text_eq lib.endpoint_type req.type_url)) [
            | inl is ↦
                let same = text_eq→eq lib.endpoint_type req.type_url is in
                from_loop req resp lib.endpoint_type
                  (resolve_endpoint lib listers req.node_info req.type_url) same
                  (λ name resource version. an_assignment (sym same)) (rw (isnt, isnt', is) at e)
            | inr isnt'' ↦ absurd (
                let e' : err (unsupported_resource_type req.type_url) ≡ ok resp =
                  rw (isnt, isnt', isnt'') at e in
                cc)
          ]
        ]
      ]
