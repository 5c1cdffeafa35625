-- ===== src/Propagation/Changes.antt =====
-- gtc/listener.go, gtc/cluster.go, gtc/endpoint.go: which parts of the caches a resource is resolved from.
use grpc_traffic_controller.Prelude.{
  ◌≡◌, refl, inl, inr, Text, List, [], ◌∷◌, Option, some, Option-cases, In, here, there,
}
use grpc_traffic_controller.Api.{GrpcListener, Backend, ServiceRef, Locality}
use grpc_traffic_controller.Errors.{ok, is_ok, is_err, is_panic, Result-cases, lift, lift-eq-ok}
use grpc_traffic_controller.Envoy.{Library, Node}
use grpc_traffic_controller.Kubernetes.{Listers}
use grpc_traffic_controller.Names.{ParsedBackendName, parse_backend_name, parse_listener_name}
use grpc_traffic_controller.Listeners.{make_listener, resolve_listener}
use grpc_traffic_controller.Clusters.{find_backend_spec, resolve_cluster}
use grpc_traffic_controller.Endpoints.{
  list_service, make_localities, make_localities_load_assignment, make_service_load_assignment,
  make_load_assignment, resolve_endpoint,
}
use grpc_traffic_controller.Notifications.Slices.{Uses, directly, by_locality}

module _ (lib : Library) (before after : Listers) where
  -- A listener name is resolved from the listener that it names.
  pub resolve_listener-cong :
      (type_url name : Text)
      → ((p : Text × Text)
          → parse_listener_name name ≡ ok p
          → after.get_listener p.0 p.1 ≡ before.get_listener p.0 p.1)
      → resolve_listener lib after type_url name ≡ resolve_listener lib before type_url name
  unfolding resolve_listener make_listener
  resolve_listener-cong type_url name same = elim (Result-cases (parse_listener_name name)) [
    | is_ok p read ↦ rw (resolve_listener, make_listener, read, same p read) refl
    | is_err e read ↦ rw (resolve_listener, make_listener, read) refl
    | is_panic read ↦ rw (resolve_listener, make_listener, read) refl
  ]

  abbrev SameListener : Text → Type 0
  SameListener name =
      (p : ParsedBackendName)
      → parse_backend_name name ≡ ok p
      → after.get_listener p.namespace p.listener_name
        ≡ before.get_listener p.namespace p.listener_name

  -- A cluster is resolved from the listener that its name has.
  pub resolve_cluster-cong :
      (type_url name : Text)
      → SameListener name
      → resolve_cluster lib after type_url name ≡ resolve_cluster lib before type_url name
  unfolding resolve_cluster
  resolve_cluster-cong type_url name same = elim (Result-cases (parse_backend_name name)) [
    | is_ok p read ↦ rw (resolve_cluster, read, same p read) refl
    | is_err e read ↦ rw (resolve_cluster, read) refl
    | is_panic read ↦ rw (resolve_cluster, read) refl
  ]

  make_localities-cong :
      (lis : GrpcListener) (locs : List Locality)
      → ((loc : Locality) (service : ServiceRef)
          → In loc locs
          → loc.service ≡ some service
          → list_service lib after service lis ≡ list_service lib before service lis)
      → make_localities lib after lis locs ≡ make_localities lib before lis locs
  unfolding make_localities
  make_localities-cong lis [] same = refl
  make_localities-cong lis (loc ∷ locs) same =
      let rest = make_localities-cong lis locs (λ l service m. same l service (there m)) in
      elim (Option-cases loc.service) [
        | inl missing ↦ rw (make_localities, missing) refl
        | inr (service, refers) ↦
            rw (make_localities, refers, same loc service (here refl) refers, rest) refl
      ]

  -- A load assignment is made from the slices of the services that its backend uses.
  pub make_load_assignment-cong :
      (asking : Option Node) (p : ParsedBackendName) (lis : GrpcListener) (backend : Backend)
      → ((service : ServiceRef)
          → Uses backend service
          → list_service lib after service lis ≡ list_service lib before service lis)
      → make_load_assignment lib after asking p lis backend
        ≡ make_load_assignment lib before asking p lis backend
  unfolding make_load_assignment make_service_load_assignment make_localities_load_assignment
  make_load_assignment-cong asking p lis backend same = elim (Option-cases backend.service) [
    | inr (service, refers) ↦
        rw
          (
            make_load_assignment,
            make_service_load_assignment,
            refers,
            same service (directly refers),
          )
          refl
    | inl none_own ↦
        let all =
          make_localities-cong lis backend.localities
            (λ loc service m refers. same service (by_locality loc none_own m refers)) in
        rw (make_load_assignment, make_localities_load_assignment, none_own, all) refl
  ]

  -- Endpoints are resolved from the listener that their name has, and from the slices of the services that
  -- its backend uses.
  pub resolve_endpoint-cong :
      (asking : Option Node) (type_url name : Text)
      → SameListener name
      → ((p : ParsedBackendName) (lis : GrpcListener) (backend : Backend) (service : ServiceRef)
          → parse_backend_name name ≡ ok p
          → before.get_listener p.namespace p.listener_name ≡ inr lis
          → find_backend_spec p lis ≡ ok backend
          → Uses backend service
          → list_service lib after service lis ≡ list_service lib before service lis)
      → resolve_endpoint lib after asking type_url name
        ≡ resolve_endpoint lib before asking type_url name
  unfolding resolve_endpoint
  resolve_endpoint-cong asking type_url name same served =
      elim (Result-cases (parse_backend_name name)) [
        | is_err e read ↦ rw (resolve_endpoint, read) refl
        | is_panic read ↦ rw (resolve_endpoint, read) refl
        | is_ok p read ↦
            elim (Result-cases (lift (before.get_listener p.namespace p.listener_name))) [
              | is_err e failed ↦ rw (resolve_endpoint, read, same p read, failed) refl
              | is_panic failed ↦ rw (resolve_endpoint, read, same p read, failed) refl
              | is_ok lis listed ↦ elim (Result-cases (find_backend_spec p lis)) [
                | is_err e failed ↦ rw (resolve_endpoint, read, same p read, listed, failed) refl
                | is_panic failed ↦ rw (resolve_endpoint, read, same p read, listed, failed) refl
                | is_ok backend found ↦
                    let all = make_load_assignment-cong asking p lis backend (λ service uses.
                      served p lis backend service read (lift-eq-ok _ listed) found uses) in
                    rw (resolve_endpoint, read, same p read, listed, found, all) refl
              ]
            ]
      ]
