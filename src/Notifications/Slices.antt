-- ===== src/Notifications/Slices.antt =====
-- gtc/notify.go: what is announced when an endpoint slice changes.
use grpc_traffic_controller.Prelude.{
  ℕ, zero, suc, ◌+◌, ◌≡◌, refl, inl, inr, List, [], ◌∷◌, ◌++◌, some, none, Bool, true, Bool-cases,
  text_eq, text_eq_refl, arith, get_elem?, In, here, there, In-append_left, In-append_right,
}
use grpc_traffic_controller.Api.{GrpcListener, Route, Backend, ServiceRef, Locality}
use grpc_traffic_controller.Errors.{ok, bind_ok}
use grpc_traffic_controller.Envoy.{Library}
use grpc_traffic_controller.Kubernetes.{Listers, label}
use grpc_traffic_controller.Watches.{ResourceRef}
use grpc_traffic_controller.Endpoints.{service_name_label, service_namespace}
use grpc_traffic_controller.Notifications.{
  ObjectMeta, matches_service, matches_service_pointer, matches_localities, matches_backend,
  matching_backends, matching_routes, matching_listeners, endpoint_ref, handle_slice,
}

-- A service that a backend takes endpoints from: its own, or that of a locality if it has none.
pub data Uses (backend : Backend) (service : ServiceRef) : Type 0 where
  directly : backend.service ≡ some service → Uses backend service
  by_locality :
      (loc : Locality)
      → backend.service ≡ none
      → In loc backend.localities
      → loc.service ≡ some service
      → Uses backend service

-- The slices that the lister is asked for, for a service: those of its namespace with its name as label.
pub record IsSliceOf (obj : ObjectMeta) (lis : GrpcListener) (service : ServiceRef) : Type 0 where
  pub labelled : label service_name_label obj.labels ≡ service.name
  pub namespaced : obj.namespace ≡ service_namespace service lis

matches_service_of_slice :
    (obj : ObjectMeta) (lis : GrpcListener) (service : ServiceRef)
    → IsSliceOf obj lis service
    → matches_service obj lis service ≡ true
unfolding matches_service service_namespace
matches_service_of_slice obj lis service is =
    let labelled = is.labelled in
    let namespaced = is.namespaced in
    rw (labelled, text_eq_refl service.name, namespaced)
      (elim (Bool-cases (text_eq service.namespace [])) [
        | inl e ↦ rw e (ground (arith, text_eq_refl lis.namespace))
        | inr e ↦ rw e (ground (arith, text_eq_refl service.namespace))
      ])

matches_localities_of_slice :
    (obj : ObjectMeta) (lis : GrpcListener) (locs : List Locality) (loc : Locality)
    (service : ServiceRef) (b : Bool)
    → In loc locs
    → loc.service ≡ some service
    → IsSliceOf obj lis service
    → matches_localities obj lis locs ≡ ok b
    → b ≡ true
unfolding matches_localities
matches_localities_of_slice obj lis [] loc service b m refers is e = elim m [ ]
matches_localities_of_slice obj lis (other ∷ locs) loc service b (here same) refers is e =
    let matched = matches_service_of_slice obj lis service is in
    bind_ok (matches_service_pointer obj lis other.service) e λ found f e₁.
      let f' : ok (matches_service obj lis service) ≡ ok found = rw (← same, refers) at f in
      let agreed : found ≡ true = ground arith in
      let e₂ : ok true ≡ ok b = rw agreed at e₁ in ground arith
matches_localities_of_slice obj lis (other ∷ locs) loc service b (there m) refers is e =
    bind_ok (matches_service_pointer obj lis other.service) e λ found f e₁.
      elim (Bool-cases found) [
        | inl agreed ↦ let e₂ : ok true ≡ ok b = rw agreed at e₁ in ground arith
        | inr differs ↦
            matches_localities_of_slice obj lis locs loc service b m refers is (rw differs at e₁)
      ]

matches_backend_of_slice :
    (obj : ObjectMeta) (lis : GrpcListener) (backend : Backend) (service : ServiceRef) (b : Bool)
    → Uses backend service
    → IsSliceOf obj lis service
    → matches_backend obj lis backend ≡ ok b
    → b ≡ true
unfolding matches_backend
matches_backend_of_slice obj lis backend service b (directly refers) is e =
    let matched = matches_service_of_slice obj lis service is in
    let e' : ok (matches_service obj lis service) ≡ ok b = rw refers at e in ground arith
matches_backend_of_slice obj lis backend service b (by_locality loc none_own m refers) is e =
    matches_localities_of_slice obj lis backend.localities loc service b m refers is
      (rw none_own at e)

module _ (lib : Library) (obj : ObjectMeta) (lis : GrpcListener) where
  matching_backends_of_slice :
      (r start i number : ℕ) (bs : List Backend) (backend : Backend) (service : ServiceRef)
      (refs : List ResourceRef)
      → get_elem? bs i ≡ some backend
      → number ≡ start + i
      → Uses backend service
      → IsSliceOf obj lis service
      → matching_backends lib obj lis r start bs ≡ ok refs
      → In (endpoint_ref lib lis.namespace lis.name r number) refs
  unfolding matching_backends
  matching_backends_of_slice r start i number [] backend service refs at counted uses is e =
      absurd (cc)
  matching_backends_of_slice r start zero number (b ∷ bs) backend service refs at counted uses is
        e =
      let same : b ≡ backend = ground arith in
      let first : number ≡ start = omega arith in
      bind_ok (matches_backend obj lis b) e λ found f e₁.
        bind_ok (matching_backends lib obj lis r (suc start) bs) e₁ λ rest _ e₂.
          let agreed : found ≡ true =
            matches_backend_of_slice obj lis backend service found uses is (rw same at f) in
          let all : endpoint_ref lib lis.namespace lis.name r start ∷ rest ≡ refs = ground arith in
          rw (← all, first) (here refl)
  matching_backends_of_slice r start (suc i) number (b ∷ bs) backend service refs at counted uses is
        e =
      bind_ok (matches_backend obj lis b) e λ found f e₁.
        bind_ok (matching_backends lib obj lis r (suc start) bs) e₁ λ rest looped e₂.
          let in_rest =
            matching_backends_of_slice r (suc start) i number bs backend service rest at
              (omega arith) uses is looped in
          elim (Bool-cases found) [
            | inl agreed ↦
                let all : endpoint_ref lib lis.namespace lis.name r start ∷ rest ≡ refs =
                  ground arith in
                rw (← all) (there in_rest)
            | inr differs ↦ let all : rest ≡ refs = ground arith in rw (← all) in_rest
          ]

  matching_routes_of_slice :
      (start r number i : ℕ) (rs : List Route) (route : Route) (backend : Backend)
      (service : ServiceRef) (refs : List ResourceRef)
      → get_elem? rs r ≡ some route
      → get_elem? route.backends i ≡ some backend
      → number ≡ start + r
      → Uses backend service
      → IsSliceOf obj lis service
      → matching_routes lib obj lis start rs ≡ ok refs
      → In (endpoint_ref lib lis.namespace lis.name number i) refs
  unfolding matching_routes
  matching_routes_of_slice start r number i [] route backend service refs at_r at_i counted uses is
        e =
      absurd (cc)
  matching_routes_of_slice start zero number i (first ∷ rs) route backend service refs at_r at_i
        counted uses is e =
      let same : first ≡ route = ground arith in
      let this : number ≡ start = omega arith in
      bind_ok (matching_backends lib obj lis start 0 first.backends) e λ found f e₁.
        bind_ok (matching_routes lib obj lis (suc start) rs) e₁ λ rest _ e₂.
          let all : found ++ rest ≡ refs = ground arith in
          rw (← all, this)
            (In-append_left _ (
              matching_backends_of_slice start 0 i i first.backends backend service found
                (rw same at_i) (omega arith) uses is f))
  matching_routes_of_slice start (suc r) number i (first ∷ rs) route backend service refs at_r at_i
        counted uses is e =
      bind_ok (matching_backends lib obj lis start 0 first.backends) e λ found _ e₁.
        bind_ok (matching_routes lib obj lis (suc start) rs) e₁ λ rest looped e₂.
          let all : found ++ rest ≡ refs = ground arith in
          rw (← all) (
            In-append_right found (
              matching_routes_of_slice (suc start) r number i rs route backend service rest at_r
                at_i (omega arith) uses is looped))

module _ (lib : Library) (obj : ObjectMeta) where
  matching_listeners_of_slice :
      (listeners : List GrpcListener) (lis : GrpcListener) (r i : ℕ) (route : Route)
      (backend : Backend) (service : ServiceRef) (refs : List ResourceRef)
      → In lis listeners
      → get_elem? lis.spec.routes r ≡ some route
      → get_elem? route.backends i ≡ some backend
      → Uses backend service
      → IsSliceOf obj lis service
      → matching_listeners lib obj listeners ≡ ok refs
      → In (endpoint_ref lib lis.namespace lis.name r i) refs
  unfolding matching_listeners
  matching_listeners_of_slice [] lis r i route backend service refs m at_r at_i uses is e =
      elim m [ ]
  matching_listeners_of_slice (first ∷ more) lis r i route backend service refs (here same) at_r
        at_i uses is e =
      bind_ok (matching_routes lib obj first 0 first.spec.routes) e λ found f e₁.
        bind_ok (matching_listeners lib obj more) e₁ λ rest _ e₂.
          let all : found ++ rest ≡ refs = ground arith in
          rw (← all) (
            In-append_left _ (
              matching_routes_of_slice lib obj lis 0 r r i lis.spec.routes route backend service
                found at_r at_i (omega arith) uses is (rw (← same) at f)))
  matching_listeners_of_slice (first ∷ more) lis r i route backend service refs (there m) at_r at_i
        uses is e =
      bind_ok (matching_routes lib obj first 0 first.spec.routes) e λ found _ e₁.
        bind_ok (matching_listeners lib obj more) e₁ λ rest looped e₂.
          let all : found ++ rest ≡ refs = ground arith in
          rw (← all) (
            In-append_right found (
              matching_listeners_of_slice more lis r i route backend service rest m at_r at_i uses
                is looped))

-- No update is missed: where a changed slice is one that the lister is asked for, for a service that a
-- backend of a listed listener uses, the endpoints of that backend are announced. The handler lists the
-- listeners, and does not panic.
pub handle_slice-In :
    (lib : Library) (listers : Listers) (obj : ObjectMeta) (listeners : List GrpcListener)
    (lis : GrpcListener) (r i : ℕ) (route : Route) (backend : Backend) (service : ServiceRef)
    (refs : List ResourceRef)
    → listers.list_listeners ≡ inr listeners
    → In lis listeners
    → get_elem? lis.spec.routes r ≡ some route
    → get_elem? route.backends i ≡ some backend
    → Uses backend service
    → IsSliceOf obj lis service
    → handle_slice lib listers (ok obj) ≡ ok refs
    → In (endpoint_ref lib lis.namespace lis.name r i) refs
unfolding handle_slice
handle_slice-In lib listers obj listeners lis r i route backend service refs listed m at_r at_i uses
      is e =
    let e' : matching_listeners lib obj listeners ≡ ok refs = rw listed at e in
    matching_listeners_of_slice lib obj listeners lis r i route backend service refs m at_r at_i
      uses is e'
