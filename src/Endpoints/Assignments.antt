-- ===== src/Endpoints/Assignments.antt =====
-- gtc/endpoint.go: the load assignment of a backend.
use grpc_traffic_controller.Prelude.{
  ◌≡◌, ◌∙◌, sym, filter, Text, List, [], ◌∷◌, Option, some, none, arith,
}
use grpc_traffic_controller.Api.{GrpcListener, Backend, ServiceRef, Locality}
use grpc_traffic_controller.Errors.{ok, bind_ok}
use grpc_traffic_controller.Errors.Loops.{Forall₂, nil, cons}
use grpc_traffic_controller.Envoy.{Library, Node, LocalityLbEndpoints, ClusterLoadAssignment}
use grpc_traffic_controller.Kubernetes.{Listers, EndpointSlice}
use grpc_traffic_controller.Names.{ParsedBackendName}
use grpc_traffic_controller.Endpoints.Slices.{
  EndpointData, data_lb_endpoints, flat_lb_endpoints, make_flat_locality_lb_endpoints,
}
use grpc_traffic_controller.Endpoints.Members.{IsEndpoints, is_ready, flat_lb_endpoints-IsEndpoints}
use grpc_traffic_controller.Endpoints.{
  list_service, deref, make_localities, make_localities_load_assignment, make_load_assignment,
}

module _ (lib : Library) (listers : Listers) (lis : GrpcListener) where
  -- The locality of an answer for a locality of a backend: its weight and its priority, and the endpoints of
  -- the slices of its service that are ready, all of them, in order, with the ports of their slices.
  pub record IsLocalityOf (loc : Locality) (l : LocalityLbEndpoints) : Type 0 where
    pub service : ServiceRef
    pub slices : List EndpointSlice
    pub refers : loc.service ≡ some service
    pub listed : list_service lib listers service lis ≡ ok slices
    pub weight : l.load_balancing_weight ≡ loc.weight
    pub priority : l.priority ≡ loc.priority
    pub named : l.locality.sub_zone ≡ service.name
    pub members : List EndpointData
    pub gathered : IsEndpoints service.port slices members
    pub endpoints : l.lb_endpoints ≡ data_lb_endpoints (filter is_ready members)

  flat-IsLocalityOf :
      (loc : Locality) (service : ServiceRef) (slices : List EndpointSlice)
      (l : LocalityLbEndpoints)
      → loc.service ≡ some service
      → list_service lib listers service lis ≡ ok slices
      → make_flat_locality_lb_endpoints service slices loc.weight loc.priority ≡ ok l
      → IsLocalityOf loc l
  unfolding make_flat_locality_lb_endpoints
  flat-IsLocalityOf loc service slices l refers listed e =
      bind_ok (flat_lb_endpoints service.port slices) e λ eps flat e₁.
        let same : eps ≡ l.lb_endpoints = ground arith in
        let (members, gathered, ready) =
          flat_lb_endpoints-IsEndpoints service.port slices eps flat in
        record {
          service = service;
          slices = slices;
          refers = refers;
          listed = listed;
          weight = ground arith;
          priority = ground arith;
          named = ground arith;
          members = members;
          gathered = gathered;
          endpoints = sym same ∙ ready;
        }

  deref-eq-ok : (o : Option ServiceRef) (s : ServiceRef) → deref o ≡ ok s → o ≡ some s
  deref-eq-ok none s e = cc
  deref-eq-ok (some t) s e = ground arith

  make_localities_lem :
      (locs : List Locality) (ls : List LocalityLbEndpoints) (versions : List Text)
      → make_localities lib listers lis locs ≡ ok (ls, versions)
      → Forall₂ IsLocalityOf locs ls
  unfolding make_localities
  make_localities_lem [] ls versions e = let same : [] ≡ ls = ground arith in rw (← same) nil
  make_localities_lem (loc ∷ more) ls versions e =
      bind_ok (deref loc.service) e λ service refers e₁.
        bind_ok (list_service lib listers service lis) e₁ λ slices listed e₂.
          bind_ok (make_flat_locality_lb_endpoints service slices loc.weight loc.priority) e₂
            λ l made e₃. bind_ok (make_localities lib listers lis more) e₃ λ rest looped e₄.
              let same : l ∷ rest.0 ≡ ls = ground arith in
              rw (← same) (
                cons
                  (flat-IsLocalityOf loc service slices l (deref-eq-ok loc.service service refers)
                    listed made)
                  (make_localities_lem more rest.0 rest.1 looped))

  -- An assignment that is made of a backend without a service has one locality for each of the backend's, in
  -- order, with its weight, its priority, and all endpoints of the slices of its service that are ready, in
  -- order, each with the port that is found in its slice.
  pub make_load_assignment-Forall₂ :
      (asking : Option Node) (ref : ParsedBackendName) (spec : Backend)
      (assignment : ClusterLoadAssignment) (versions : List Text)
      → spec.service ≡ none
      → make_load_assignment lib listers asking ref lis spec ≡ ok (assignment, versions)
      → Forall₂ IsLocalityOf spec.localities assignment.endpoints
  unfolding make_load_assignment
  make_load_assignment-Forall₂ asking ref spec assignment versions no_service e =
      let made : make_localities_load_assignment lib listers ref lis spec
          ≡ ok (assignment, versions) =
        ground arith in
      unfold make_localities_load_assignment in
      bind_ok (make_localities lib listers lis spec.localities) made λ r looped e₁.
        let same : r.0 ≡ assignment.endpoints = ground arith in
        rw (← same) (make_localities_lem spec.localities r.0 r.1 looped)
