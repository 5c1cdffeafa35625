-- ===== src/Endpoints/Groups.antt =====
-- gtc/endpoint.go: the localities of a service, by topology.
pub mod Priorities
use grpc_traffic_controller.Prelude.{
  ℕ, ◌≡◌, refl, inl, inr, Text, List, [], ◌∷◌, ◌++◌, append_assoc, append-nil, Option, some, none,
  Bool, arith, if◌then◌else◌, Bool-cases,
}
use mathlib.Core.List.{Perm, perm_append_comm, perm-append_left_iff, perm-append_right_iff}
use mathlib.Core.List.Perm
use grpc_traffic_controller.Api.{ServiceRef, PortRef}
use grpc_traffic_controller.Errors.{ok, bind_ok}
use grpc_traffic_controller.Envoy.{Library, Node, LbEndpoint, LocalityLbEndpoints}
use grpc_traffic_controller.Kubernetes.{Endpoint, EndpointSlice}
use grpc_traffic_controller.Endpoints.Slices.{
  deref_bool, is_hinted, or_no_port, lookup_k8s_port, make_lb_endpoints, ready_lb_endpoints,
  flat_lb_endpoints, EndpointData, EndpointGroup, Groups, no_groups, group_or_new, join_group,
  group_endpoint, group_endpoints, group_slices, data_lb_endpoints, emit_group, emit_groups,
  current_zone, make_service_endpoints,
}

-- The endpoints of a group, and of both groups.
abbrev of_group : Option EndpointGroup → List LbEndpoint
of_group g = data_lb_endpoints (group_or_new g).endpoints

abbrev of_groups : Groups → List LbEndpoint
of_groups g = of_group g.hinted ++ of_group g.others

-- The endpoints of all localities of an answer.
abbrev pub served : List LocalityLbEndpoints → List LbEndpoint
served [] = []
served (l ∷ ls) = l.lb_endpoints ++ served ls

data_lb_endpoints-append :
    (ds : List EndpointData) (d : EndpointData)
    → data_lb_endpoints (ds ++ d ∷ []) ≡ data_lb_endpoints ds ++ make_lb_endpoints d.endpoint d.port
unfolding data_lb_endpoints
data_lb_endpoints-append [] d = append-nil _
data_lb_endpoints-append (e ∷ ds) d = simp (data_lb_endpoints-append ds d, append_assoc)

of_group-join_group :
    (g : Option EndpointGroup) (d : EndpointData)
    → of_group (join_group g d) ≡ of_group g ++ make_lb_endpoints d.endpoint d.port
unfolding join_group
of_group-join_group g d = data_lb_endpoints-append (group_or_new g).endpoints d

perm_swap_end {ℓ} : {A : Type ℓ} (xs ys zs : List A) → Perm ((xs ++ zs) ++ ys) ((xs ++ ys) ++ zs)
perm_swap_end xs ys zs =
    rw (append_assoc, append_assoc) ((perm-append_left_iff xs).1 (perm_append_comm zs ys))

group_hinted-perm :
    (g : Groups) (d : EndpointData)
    → Perm
        (of_groups (record g { hinted = join_group g.hinted d }))
        (of_groups g ++ make_lb_endpoints d.endpoint d.port)
group_hinted-perm g d =
    rw (of_group-join_group g.hinted d)
      (perm_swap_end (of_group g.hinted) (of_group g.others) (make_lb_endpoints d.endpoint d.port))

group_others-perm :
    (g : Groups) (d : EndpointData)
    → Perm
        (of_groups (record g { others = join_group g.others d }))
        (of_groups g ++ make_lb_endpoints d.endpoint d.port)
group_others-perm g d = rw (of_group-join_group g.others d, append_assoc) (Perm.refl _)

-- An endpoint joins one of the groups if it is ready, and neither otherwise.
group_endpoint-perm :
    (lib : Library) (zone : Text) (port : ℕ) (ep : Endpoint) (g : Groups)
    → Perm
        (of_groups (group_endpoint lib zone port ep g))
        (of_groups g ++ (if deref_bool ep.ready then make_lb_endpoints ep port else []))
unfolding group_endpoint
group_endpoint-perm lib zone port ep g = elim (Bool-cases (deref_bool ep.ready)) [
  | inr unready ↦ rw (unready, append-nil) (Perm.refl (of_groups g))
  | inl ready ↦ elim (Bool-cases (is_hinted lib zone ep)) [
    | inl hinted ↦ rw (ready, hinted) (group_hinted-perm g (record { port = port; endpoint = ep }))
    | inr other ↦ rw (ready, other) (group_others-perm g (record { port = port; endpoint = ep }))
  ]
]

ready-cons :
    (port : ℕ) (ep : Endpoint) (eps : List Endpoint)
    → ready_lb_endpoints port (ep ∷ eps)
      ≡ (if deref_bool ep.ready then make_lb_endpoints ep port else [])
        ++ ready_lb_endpoints port eps
unfolding ready_lb_endpoints
ready-cons port ep eps = ground arith

group_endpoints-perm :
    (lib : Library) (zone : Text) (port : ℕ) (eps : List Endpoint) (g : Groups)
    → Perm
        (of_groups (group_endpoints lib zone port eps g))
        (of_groups g ++ ready_lb_endpoints port eps)
unfolding group_endpoints
group_endpoints-perm lib zone port [] g =
    unfold ready_lb_endpoints in rw append-nil (Perm.refl (of_groups g))
group_endpoints-perm lib zone port (ep ∷ eps) g =
    let one = if deref_bool ep.ready then make_lb_endpoints ep port else [] in
    rw (ready-cons port ep eps, ← append_assoc)
      (Perm.trans (group_endpoints-perm lib zone port eps (group_endpoint lib zone port ep g)) (
        (perm-append_right_iff (ready_lb_endpoints port eps)).1
          (group_endpoint-perm lib zone port ep g)))

group_slices-perm :
    (lib : Library) (zone : Text) (ref : PortRef) (slices : List EndpointSlice) (g g' : Groups)
    → group_slices lib zone ref slices g ≡ ok g'
    → (eps : List LbEndpoint) × (flat_lb_endpoints ref slices ≡ ok eps)
      × Perm (of_groups g') (of_groups g ++ eps)
unfolding group_slices flat_lb_endpoints
group_slices-perm lib zone ref [] g g' e =
    let same : g ≡ g' = ground arith in
    ([], refl, rw (append-nil, ← same) (Perm.refl (of_groups g)))
group_slices-perm lib zone ref (s ∷ ss) g g' e =
    bind_ok (or_no_port (lookup_k8s_port ref s.ports)) e λ port found e₁.
      let (eps, flat, perm) =
        group_slices-perm lib zone ref ss (group_endpoints lib zone port s.endpoints g) g' e₁ in
      (
        ready_lb_endpoints port s.endpoints ++ eps,
        rw (found, flat),
        rw (← append_assoc) (
            Perm.trans perm
              ((perm-append_right_iff eps).1 (group_endpoints-perm lib zone port s.endpoints g))),
      )

-- An empty group is left out with nothing lost.
served-emit_group :
    (name : Text) (prio : ℕ) (g : Option EndpointGroup)
    → served (emit_group name prio g) ≡ of_group g
unfolding emit_group data_lb_endpoints
served-emit_group name prio none = refl
served-emit_group name prio (some g) = ground (arith, append-nil (data_lb_endpoints g.endpoints))

served-append : (xs ys : List LocalityLbEndpoints) → served (xs ++ ys) ≡ served xs ++ served ys
served-append [] ys = refl
served-append (x ∷ xs) ys = simp (served-append xs ys, append_assoc)

served-emit_groups : (name : Text) (g : Groups) → served (emit_groups name g) ≡ of_groups g
unfolding emit_groups
served-emit_groups name g = simp (served-append, served-emit_group)

-- Splitting by topology neither loses nor doubles an endpoint: what the localities of a service hold
-- together are the endpoints that the same slices give without the split, in some order.
pub make_service_endpoints-perm :
    (lib : Library) (node : Option Node) (service : ServiceRef) (slices : List EndpointSlice)
    (localities : List LocalityLbEndpoints)
    → make_service_endpoints lib node service slices ≡ ok localities
    → (eps : List LbEndpoint) × (flat_lb_endpoints service.port slices ≡ ok eps)
      × Perm (served localities) eps
unfolding make_service_endpoints
make_service_endpoints-perm lib node service slices localities e =
    bind_ok (current_zone node) e λ zone _ e₁.
      bind_ok (group_slices lib zone service.port slices no_groups) e₁ λ g grouped e₂.
        let (eps, flat, perm) =
          group_slices-perm lib zone service.port slices no_groups g grouped in
        let same : emit_groups service.name g ≡ localities = ground arith in
        (
          eps,
          flat,
          rw (← same, served-emit_groups service.name g) (unfold data_lb_endpoints in perm),
        )
