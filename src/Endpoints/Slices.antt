-- ===== src/Endpoints/Slices.antt =====
-- gtc/endpoint.go: from endpoint slices to the endpoints of localities.
use grpc_traffic_controller.Prelude.{
  ℕ, ℤ, eq_ℤ, to_uint32, Text, codes, List, [], ◌∷◌, ◌++◌, Option, some, none, Bool, true, false,
  if◌then◌else◌, text_eq, equal_fold, map, not,
}
use grpc_traffic_controller.Api.{ServiceRef, PortRef}
use grpc_traffic_controller.Errors.{Result, ok, err, panic, ◌>>=◌, no_desired_port}
use grpc_traffic_controller.Envoy.{Library, Node, LbEndpoint, LocalityLbEndpoints}
use grpc_traffic_controller.Kubernetes.{Endpoint, EndpointPort, EndpointSlice}
use grpc_traffic_controller.Go.Strconv.{format}

-- derefBool
unfoldable pub deref_bool : Option Bool → Bool
deref_bool none = false
deref_bool (some b) = b

unfoldable pub contains_zone : Library → List Text → (curr_zone : Text) → Bool
contains_zone lib [] curr_zone = false
contains_zone lib (z ∷ zs) curr_zone =
    if equal_fold lib.fold_rune z curr_zone then true else contains_zone lib zs curr_zone

-- ep.Hints != nil && containsZone(ep.Hints.ForZones, currentZone)
unfoldable pub is_hinted : Library → (curr_zone : Text) → Endpoint → Bool
unfolding contains_zone
is_hinted lib curr_zone ep = elim ep.hints [
  | none ↦ false
  | some zones ↦ contains_zone lib zones curr_zone
]

-- The port of an entry that has a name and a port, both of which the test accepts.
unfoldable pub accepted_port : (Text → ℤ → Bool) → EndpointPort → Option ℕ
accepted_port test p = elim p.name [
  | none ↦ none
  | some name ↦ elim p.port [
    | none ↦ none
    | some port ↦ if test name port then some (to_uint32 port) else none
  ]
]

abbrev pub or_else {ℓ} : {A : Type ℓ} → Option A → Option A → Option A
or_else none b = b
or_else (some a) b = some a

-- The first such entry.
unfoldable pub first_port : (Text → ℤ → Bool) → List EndpointPort → Option ℕ
unfolding accepted_port
first_port test [] = none
first_port test (p ∷ ps) = or_else (accepted_port test p) (first_port test ps)

-- By name if the reference has one, otherwise by number.
unfoldable pub lookup_k8s_port : PortRef → List EndpointPort → Option ℕ
unfolding first_port
lookup_k8s_port ref ports =
    if text_eq ref.name []
    then first_port (λ name port. eq_ℤ port ref.number) ports
    else first_port (λ name port. text_eq name ref.name) ports

abbrev pub or_no_port : Option ℕ → Result ℕ
or_no_port none = err no_desired_port
or_no_port (some port) = ok port

abbrev pub make_lb_endpoint : (addr : Text) (port : ℕ) → LbEndpoint
make_lb_endpoint addr port = record { address = addr; port_value = port }

unfoldable pub make_lb_endpoints : Endpoint → (port : ℕ) → List LbEndpoint
make_lb_endpoints ep port = map (λ addr. make_lb_endpoint addr port) ep.addresses

-- the inner loop of makeFlatLocalityLbEndpoints
unfoldable pub ready_lb_endpoints : (port : ℕ) → List Endpoint → List LbEndpoint
unfolding make_lb_endpoints deref_bool
ready_lb_endpoints port [] = []
ready_lb_endpoints port (ep ∷ eps) =
    let rest = ready_lb_endpoints port eps in
    if deref_bool ep.ready then make_lb_endpoints ep port ++ rest else rest

unfoldable pub flat_lb_endpoints : PortRef → List EndpointSlice → Result (List LbEndpoint)
unfolding lookup_k8s_port ready_lb_endpoints
flat_lb_endpoints ref [] = ok []
flat_lb_endpoints ref (s ∷ ss) = do
  port ← or_no_port (lookup_k8s_port ref s.ports)
  rest ← flat_lb_endpoints ref ss
  ok (ready_lb_endpoints port s.endpoints ++ rest)

unfoldable pub make_flat_locality_lb_endpoints :
    ServiceRef → List EndpointSlice → (weight priority : ℕ) → Result LocalityLbEndpoints
unfolding flat_lb_endpoints
make_flat_locality_lb_endpoints service slices weight priority = do
  endpoints ← flat_lb_endpoints service.port slices
  ok (record {
    locality = record { zone = []; sub_zone = service.name };
    load_balancing_weight = weight;
    priority = priority;
    lb_endpoints = endpoints;
  })

pub record EndpointData : Type 0 where
  pub port : ℕ
  pub endpoint : Endpoint

pub record EndpointGroup : Type 0 where
  pub zone : Text
  pub endpoints : List EndpointData

-- localityEndpointsByPrio: the groups of priority 0 and 1, nil at first
pub record Groups : Type 0 where
  pub hinted : Option EndpointGroup
  pub others : Option EndpointGroup

abbrev pub no_groups : Groups
no_groups = record { hinted = none; others = none }

abbrev pub group_or_new : Option EndpointGroup → EndpointGroup
group_or_new none = record { zone = []; endpoints = [] }
group_or_new (some g) = g

-- The zone of the first endpoint that has one.
captured_zone : Text → Option Text → Text
captured_zone zone none = zone
captured_zone zone (some z) = if text_eq zone [] then z else zone

unfoldable pub join_group : Option EndpointGroup → EndpointData → Option EndpointGroup
unfolding captured_zone
join_group group d =
    let g = group_or_new group in
    some (record { zone = captured_zone g.zone d.endpoint.zone; endpoints = g.endpoints ++ d ∷ [] })

-- one round of the inner loop of makeServiceEndpoints
unfoldable pub group_endpoint : Library → (curr_zone : Text) (port : ℕ) → Endpoint → Groups → Groups
unfolding deref_bool is_hinted join_group
group_endpoint lib curr_zone port ep groups =
    let d : EndpointData = record { port = port; endpoint = ep } in
    if not (deref_bool ep.ready)
    then groups
    else if is_hinted lib curr_zone ep
    then record groups { hinted = join_group groups.hinted d }
    else record groups { others = join_group groups.others d }

unfoldable pub group_endpoints :
    Library → (curr_zone : Text) (port : ℕ) → List Endpoint → Groups → Groups
unfolding group_endpoint
group_endpoints lib curr_zone port [] groups = groups
group_endpoints lib curr_zone port (ep ∷ eps) groups =
    group_endpoints lib curr_zone port eps (group_endpoint lib curr_zone port ep groups)

unfoldable pub group_slices :
    Library → (curr_zone : Text) → PortRef → List EndpointSlice → Groups → Result Groups
unfolding lookup_k8s_port group_endpoints
group_slices lib curr_zone ref [] groups = ok groups
group_slices lib curr_zone ref (s ∷ ss) groups = do
  port ← or_no_port (lookup_k8s_port ref s.ports)
  group_slices lib curr_zone ref ss (group_endpoints lib curr_zone port s.endpoints groups)

unfoldable pub data_lb_endpoints : List EndpointData → List LbEndpoint
unfolding make_lb_endpoints
data_lb_endpoints [] = []
data_lb_endpoints (d ∷ ds) = make_lb_endpoints d.endpoint d.port ++ data_lb_endpoints ds

-- one round of the last loop of makeServiceEndpoints: an empty group is left out
unfoldable pub emit_group :
    (service_name : Text) (applied_prio : ℕ) → Option EndpointGroup → List LocalityLbEndpoints
unfolding data_lb_endpoints
emit_group service_name applied_prio none = []
emit_group service_name applied_prio (some g) = elim g.endpoints [
  | [] ↦ []
  | _ ∷ _ ↦
      record {
        locality = record {
          zone = g.zone;
          sub_zone = service_name ++ (codes "-" ++ format applied_prio);
        };
        load_balancing_weight = 1;
        priority = applied_prio;
        lb_endpoints = data_lb_endpoints g.endpoints;
      }
      ∷ []
]

-- enableZonePrio
unfoldable pub has_endpoints : Option EndpointGroup → Bool
has_endpoints none = false
has_endpoints (some g) = elim g.endpoints [ [] ↦ false | _ ∷ _ ↦ true ]

-- Without a hinted endpoint the other group has priority 0 too.
unfoldable pub emit_groups : (service_name : Text) → Groups → List LocalityLbEndpoints
unfolding emit_group has_endpoints
emit_groups service_name groups =
    emit_group service_name 0 groups.hinted
    ++ emit_group service_name (if has_endpoints groups.hinted then 1 else 0) groups.others

-- node.Locality.Zone, or the empty text without a locality; a nil node panics
unfoldable pub current_zone : Option Node → Result Text
current_zone none = panic
current_zone (some node) = elim node.locality [ none ↦ ok [] | some l ↦ ok l.zone ]

unfoldable pub make_service_endpoints :
    Library → Option Node → ServiceRef → List EndpointSlice → Result (List LocalityLbEndpoints)
unfolding current_zone group_slices emit_groups
make_service_endpoints lib node service slices = do
  zone ← current_zone node
  groups ← group_slices lib zone service.port slices no_groups
  ok (emit_groups service.name groups)
