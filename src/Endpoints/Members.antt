-- ===== src/Endpoints/Members.antt =====
-- gtc/endpoint.go: the endpoints of the slices of a service, each with the port that its slice gives it.
use grpc_traffic_controller.Prelude.{
  ℕ, ◌≡◌, refl, sym, ap, ◌∙◌, inl, inr, List, [], ◌∷◌, ◌++◌, append_assoc, map, some, none, Bool,
  ◌&&◌, not, Text, Bool-cases, Option-cases, filter, filter-append, arith,
}
use grpc_traffic_controller.Api.{PortRef}
use grpc_traffic_controller.Errors.{ok, bind_ok}
use grpc_traffic_controller.Envoy.{Library, LbEndpoint}
use grpc_traffic_controller.Kubernetes.{Endpoint, EndpointSlice}
use grpc_traffic_controller.Endpoints.Slices.{
  deref_bool, is_hinted, or_no_port, lookup_k8s_port, ready_lb_endpoints, flat_lb_endpoints,
  EndpointData, data_lb_endpoints,
}

abbrev pub at_port : ℕ → Endpoint → EndpointData
at_port port ep = record { port = port; endpoint = ep }

-- The endpoints of some slices, in order, each with the port that is found in its slice.
pub data IsEndpoints (ref : PortRef) : List EndpointSlice → List EndpointData → Type 0 where
  no_slice : IsEndpoints ref [] []
  one_slice :
      (s : EndpointSlice) (port : ℕ) (ss : List EndpointSlice) (ds : List EndpointData)
      → lookup_k8s_port ref s.ports ≡ some port
      → IsEndpoints ref ss ds
      → IsEndpoints ref (s ∷ ss) (map (at_port port) s.endpoints ++ ds)

-- An endpoint that says that it is ready; one that is ready and hinted for a zone; and one that is ready
-- and not hinted for it.
abbrev pub is_ready : EndpointData → Bool
is_ready d = deref_bool d.endpoint.ready

abbrev pub is_near : Library → Text → EndpointData → Bool
is_near lib zone d = is_ready d && is_hinted lib zone d.endpoint

abbrev pub is_far : Library → Text → EndpointData → Bool
is_far lib zone d = is_ready d && not (is_hinted lib zone d.endpoint)

pub or_no_port-eq-ok :
    (ref : PortRef) (s : EndpointSlice) (port : ℕ)
    → or_no_port (lookup_k8s_port ref s.ports) ≡ ok port
    → lookup_k8s_port ref s.ports ≡ some port
or_no_port-eq-ok ref s port e = elim (Option-cases (lookup_k8s_port ref s.ports)) [
  | inl missing ↦ absurd (let e' : or_no_port none ≡ ok port = rw missing at e in cc)
  | inr (p, found) ↦
      let e' : or_no_port (some p) ≡ ok port = rw found at e in
      let same : p ≡ port = ground arith in found ∙ ap some same
]

data_lb_endpoints-append :
    (ds es : List EndpointData)
    → data_lb_endpoints (ds ++ es) ≡ data_lb_endpoints ds ++ data_lb_endpoints es
unfolding data_lb_endpoints
data_lb_endpoints-append [] es = refl
data_lb_endpoints-append (d ∷ ds) es = simp (data_lb_endpoints-append ds es, append_assoc)

ready_lb_endpoints-eq :
    (port : ℕ) (eps : List Endpoint)
    → ready_lb_endpoints port eps ≡ data_lb_endpoints (filter is_ready (map (at_port port) eps))
unfolding ready_lb_endpoints data_lb_endpoints
ready_lb_endpoints-eq port [] = refl
ready_lb_endpoints-eq port (ep ∷ eps) =
    let later = ready_lb_endpoints-eq port eps in
    elim (Bool-cases (deref_bool ep.ready)) [
      | inl ready ↦ rw (ready, later) refl
      | inr unready ↦ rw (unready, later) refl
    ]

-- The flat list of a service has the ready endpoints of its slices, in order.
pub flat_lb_endpoints-IsEndpoints :
    (ref : PortRef) (slices : List EndpointSlice) (eps : List LbEndpoint)
    → flat_lb_endpoints ref slices ≡ ok eps
    → (ds : List EndpointData) × IsEndpoints ref slices ds
      × (eps ≡ data_lb_endpoints (filter is_ready ds))
unfolding flat_lb_endpoints data_lb_endpoints
flat_lb_endpoints-IsEndpoints ref [] eps e = ([], no_slice, ground arith)
flat_lb_endpoints-IsEndpoints ref (s ∷ ss) eps e =
    bind_ok (or_no_port (lookup_k8s_port ref s.ports)) e λ port found e₁.
      bind_ok (flat_lb_endpoints ref ss) e₁ λ rest flat e₂.
        let (ds, are, same) = flat_lb_endpoints-IsEndpoints ref ss rest flat in
        let own = map (at_port port) s.endpoints in
        let both : ready_lb_endpoints port s.endpoints ++ rest ≡ eps = ground arith in
        (
          own ++ ds,
          one_slice s port ss ds (or_no_port-eq-ok ref s port found) are,
          sym both
              ∙ rw
                  (
                    ready_lb_endpoints-eq port s.endpoints,
                    same,
                    filter-append is_ready own ds,
                    data_lb_endpoints-append (filter is_ready own) (filter is_ready ds),
                  )
                  refl,
        )
