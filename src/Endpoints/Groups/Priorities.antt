-- ===== src/Endpoints/Groups/Priorities.antt =====
-- gtc/endpoint.go: the priorities of a service's localities, and which endpoints are at which.
use grpc_traffic_controller.Prelude.{
  ℕ, ◌≡◌, ◌≢◌, refl, sym, inl, inr, Text, List, [], ◌∷◌, ◌++◌, append_assoc, append-nil, map,
  Option, some, none, true, false, arith, Bool-cases, filter, filter-append,
}
use grpc_traffic_controller.Api.{ServiceRef, PortRef}
use grpc_traffic_controller.Errors.{ok, bind_ok}
use grpc_traffic_controller.Envoy.{Library, Node, LocalityLbEndpoints}
use grpc_traffic_controller.Kubernetes.{Endpoint, EndpointSlice}
use grpc_traffic_controller.Endpoints.Slices.{
  deref_bool, is_hinted, or_no_port, lookup_k8s_port, EndpointData, EndpointGroup, Groups,
  no_groups, group_or_new, group_endpoint, group_endpoints, group_slices, data_lb_endpoints,
  emit_groups, current_zone, make_service_endpoints,
}
use grpc_traffic_controller.Endpoints.Members.{
  at_port, IsEndpoints, no_slice, one_slice, is_near, is_far, or_no_port-eq-ok,
}

-- The endpoints of a group.
abbrev members : Option EndpointGroup → List EndpointData
members g = (group_or_new g).endpoints

-- A locality of some endpoints, at least one.
pub record IsLocalityOf (priority : ℕ) (ds : List EndpointData) (l : LocalityLbEndpoints)
    : Type 0 where
  pub nonempty : ds ≢ []
  pub holds : l.lb_endpoints ≡ data_lb_endpoints ds
  pub prioritised : l.priority ≡ priority

-- The localities for the endpoints that are near and those that are far: of priority 0 and 1 if there are
-- both, of priority 0 if there is one kind, and none if there is none.
pub data ByZone (near far : List EndpointData) : List LocalityLbEndpoints → Type 0 where
  no_endpoint : near ≡ [] → far ≡ [] → ByZone near far []
  only_near :
      (l : LocalityLbEndpoints) → far ≡ [] → IsLocalityOf 0 near l → ByZone near far (l ∷ [])
  only_far : (l : LocalityLbEndpoints) → near ≡ [] → IsLocalityOf 0 far l → ByZone near far (l ∷ [])
  both :
      (l m : LocalityLbEndpoints)
      → IsLocalityOf 0 near l
      → IsLocalityOf 1 far m
      → ByZone near far (l ∷ m ∷ [])

module _ (lib : Library) (zone : Text) where
  -- The groups after some endpoints: what they had, and then those of the endpoints that belong to them.
  record IsSorted (g : Groups) (ds : List EndpointData) (g' : Groups) : Type 0 where
    near : members g'.hinted ≡ members g.hinted ++ filter (is_near lib zone) ds
    far : members g'.others ≡ members g.others ++ filter (is_far lib zone) ds

  IsSorted-trans :
      (g g₁ g₂ : Groups) (ds es : List EndpointData)
      → IsSorted g ds g₁
      → IsSorted g₁ es g₂
      → IsSorted g (ds ++ es) g₂
  IsSorted-trans g g₁ g₂ ds es first later = record {
    near = rw (later.near, first.near, filter-append (is_near lib zone) ds es, append_assoc) refl;
    far = rw (later.far, first.far, filter-append (is_far lib zone) ds es, append_assoc) refl;
  }

  IsSorted-refl : (g : Groups) → IsSorted g [] g
  IsSorted-refl g = record { near = sym (append-nil _); far = sym (append-nil _) }

  group_endpoint-IsSorted :
      (port : ℕ) (ep : Endpoint) (g : Groups)
      → IsSorted g (at_port port ep ∷ []) (group_endpoint lib zone port ep g)
  unfolding group_endpoint
  group_endpoint-IsSorted port ep g =
      let d = at_port port ep in
      elim (Bool-cases (deref_bool ep.ready)) [
        | inr unready ↦
            let not_near : is_near lib zone d ≡ false = rw unready refl in
            let not_far : is_far lib zone d ≡ false = rw unready refl in
            rw unready (record {
              near = rw not_near (sym (append-nil _));
              far = rw not_far (sym (append-nil _));
            })
        | inl ready ↦ elim (Bool-cases (is_hinted lib zone ep)) [
          | inl hinted ↦
              let near : is_near lib zone d ≡ true = rw (ready, hinted) refl in
              let not_far : is_far lib zone d ≡ false = rw (ready, hinted) refl in
              rw (ready, hinted)
                (record { near = rw near refl; far = rw not_far (sym (append-nil _)) })
          | inr other ↦
              let not_near : is_near lib zone d ≡ false = rw (ready, other) refl in
              let far : is_far lib zone d ≡ true = rw (ready, other) refl in
              rw (ready, other)
                (record { near = rw not_near (sym (append-nil _)); far = rw far refl })
        ]
      ]

  group_endpoints-IsSorted :
      (port : ℕ) (eps : List Endpoint) (g : Groups)
      → IsSorted g (map (at_port port) eps) (group_endpoints lib zone port eps g)
  unfolding group_endpoints
  group_endpoints-IsSorted port [] g = IsSorted-refl g
  group_endpoints-IsSorted port (ep ∷ eps) g =
      let g₁ = group_endpoint lib zone port ep g in
      IsSorted-trans g g₁ (group_endpoints lib zone port eps g₁) (at_port port ep ∷ [])
        (map (at_port port) eps) (group_endpoint-IsSorted port ep g)
        (group_endpoints-IsSorted port eps g₁)

  group_slices-IsSorted :
      (ref : PortRef) (slices : List EndpointSlice) (g g' : Groups)
      → group_slices lib zone ref slices g ≡ ok g'
      → (ds : List EndpointData) × IsEndpoints ref slices ds × IsSorted g ds g'
  unfolding group_slices
  group_slices-IsSorted ref [] g g' e =
      let same : g ≡ g' = ground arith in ([], no_slice, rw (← same) (IsSorted-refl g))
  group_slices-IsSorted ref (s ∷ ss) g g' e =
      bind_ok (or_no_port (lookup_k8s_port ref s.ports)) e λ port found e₁.
        let g₁ = group_endpoints lib zone port s.endpoints g in
        let (ds, are, sorted) = group_slices-IsSorted ref ss g₁ g' e₁ in
        (
          map (at_port port) s.endpoints ++ ds,
          one_slice s port ss ds (or_no_port-eq-ok ref s port found) are,
          IsSorted-trans g g₁ g' (map (at_port port) s.endpoints) ds
              (group_endpoints-IsSorted port s.endpoints g) sorted,
        )

  emit-ByZone :
      (name z z' : Text) (ds es : List EndpointData)
      → ByZone ds es (
          emit_groups name (record {
            hinted = some (record { zone = z; endpoints = ds });
            others = some (record { zone = z'; endpoints = es });
          }))
  unfolding emit_groups
  emit-ByZone name z z' [] [] = no_endpoint refl refl
  emit-ByZone name z z' [] (e ∷ es) =
      only_far _ refl (record { nonempty = λ e. cc; holds = refl; prioritised = refl })
  emit-ByZone name z z' (d ∷ ds) [] =
      only_near _ refl (record { nonempty = λ e. cc; holds = refl; prioritised = refl })
  emit-ByZone name z z' (d ∷ ds) (e ∷ es) =
      both _ _ (record { nonempty = λ e. cc; holds = refl; prioritised = refl })
        (record { nonempty = λ e. cc; holds = refl; prioritised = refl })

  emit_groups-ByZone :
      (name : Text) (hinted others : Option EndpointGroup)
      → ByZone
          (members hinted)
          (members others)
          (emit_groups name (record { hinted = hinted; others = others }))
  unfolding emit_groups
  emit_groups-ByZone name none none = no_endpoint refl refl
  emit_groups-ByZone name none (some g) = emit-ByZone name [] g.zone [] g.endpoints
  emit_groups-ByZone name (some g) none = emit-ByZone name g.zone [] g.endpoints []
  emit_groups-ByZone name (some g) (some g') =
      emit-ByZone name g.zone g'.zone g.endpoints g'.endpoints

  -- The endpoints of the slices, each with the port of its slice, that are ready and hinted for the node's
  -- zone make one locality, and those that are ready and not hinted for it make another, all of them and in
  -- their order; the first has priority 0, and the second priority 1, or 0 if the first is missing. A
  -- locality that would be empty is left out.
  pub make_service_endpoints-ByZone :
      (node : Option Node) (service : ServiceRef) (slices : List EndpointSlice)
      (localities : List LocalityLbEndpoints)
      → current_zone node ≡ ok zone
      → make_service_endpoints lib node service slices ≡ ok localities
      → (ds : List EndpointData) × IsEndpoints service.port slices ds
        × ByZone (filter (is_near lib zone) ds) (filter (is_far lib zone) ds) localities
  unfolding make_service_endpoints
  make_service_endpoints-ByZone node service slices localities here e =
      bind_ok (current_zone node) e λ z there e₁.
        bind_ok (group_slices lib z service.port slices no_groups) e₁ λ g grouped e₂.
          let same_zone : z ≡ zone = ground arith in
          let grouped' : group_slices lib zone service.port slices no_groups ≡ ok g =
            rw (← same_zone) grouped in
          let same : emit_groups service.name g ≡ localities = ground arith in
          let (ds, are, sorted) = group_slices-IsSorted service.port slices no_groups g grouped' in
          (
            ds,
            are,
            rw (← same, ← sorted.near, ← sorted.far)
                (emit_groups-ByZone service.name g.hinted g.others),
          )
