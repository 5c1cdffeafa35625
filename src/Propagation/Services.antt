-- ===== src/Propagation/Services.antt =====
-- gtc/endpoint.go: the services whose slices a backend takes its endpoints from.
use grpc_traffic_controller.Prelude.{
  ◌≡◌, refl, sym, ◌∙◌, inl, inr, Text, List, [], ◌∷◌, some, none, Bool, true, false, ◌&&◌, text_eq,
  text_eq→eq, Bool-cases, Option-cases, In, here, there,
}
use grpc_traffic_controller.Api.{GrpcListener, Backend, ServiceRef, Locality}
use grpc_traffic_controller.Errors.{lift, lift-eq-ok, Result-cases, is_ok, is_err, is_panic}
use grpc_traffic_controller.Envoy.{Library}
use grpc_traffic_controller.Kubernetes.{Listers, Requirement, label}
use grpc_traffic_controller.Endpoints.{list_service, service_name_label, service_namespace}
use grpc_traffic_controller.Notifications.{ObjectMeta}
use grpc_traffic_controller.Notifications.Slices.{Uses, directly, by_locality, IsSliceOf}
use grpc_traffic_controller.Propagation.Effects.{&&-true}

-- The slices of a service are the same list where the requirement is, and the list of its namespace.
pub same_list :
    (lib : Library) (before after : Listers) (lis : GrpcListener) (service : ServiceRef)
    → ((key value : Text) → after.new_requirement key value ≡ before.new_requirement key value)
    → ((r : Requirement)
        → before.new_requirement service_name_label service.name ≡ inr r
        → after.list_slices (service_namespace service lis) r
          ≡ before.list_slices (service_namespace service lis) r)
    → list_service lib after service lis ≡ list_service lib before service lis
unfolding list_service
same_list lib before after lis service requirements slices =
    let e = requirements service_name_label service.name in
    elim (Result-cases (lift (before.new_requirement service_name_label service.name))) [
      | is_ok r made ↦ rw (list_service, e, made, slices r (lift-eq-ok _ made)) refl
      | is_err x failed ↦ rw (list_service, e, failed) refl
      | is_panic failed ↦ rw (list_service, e, failed) refl
    ]

-- Whether a slice is of a service of a listener.
abbrev pub is_slice_of : ObjectMeta → GrpcListener → ServiceRef → Bool
is_slice_of obj lis service =
    text_eq obj.namespace (service_namespace service lis)
    && text_eq (label service_name_label obj.labels) service.name

-- Either a slice is of a service that a backend uses, or of none of them.
pub data IsUsed (obj : ObjectMeta) (lis : GrpcListener) (P : ServiceRef → Type 0) : Type 0 where
  used : (service : ServiceRef) → P service → is_slice_of obj lis service ≡ true → IsUsed obj lis P
  unused :
      ((service : ServiceRef) → P service → is_slice_of obj lis service ≡ false) → IsUsed obj lis P

-- A service of one of some localities.
record IsAmong (locs : List Locality) (service : ServiceRef) : Type 0 where
  loc : Locality
  among : In loc locs
  refers : loc.service ≡ some service

some_injective {ℓ} : {A : Type ℓ} {a b : A} → some a ≡ some b → a ≡ b
some_injective e = cc

first_or_later :
    {P : Type 0} (loc l : Locality) (locs : List Locality) (service : ServiceRef)
    → In l (loc ∷ locs)
    → l.service ≡ some service
    → (loc.service ≡ some service → P)
    → (IsAmong locs service → P)
    → P
first_or_later loc l locs service (here e) refers first later = first (rw (← e) refers)
first_or_later loc l locs service (there m) refers first later =
    later (record { loc = l; among = m; refers = refers })

used_by_localities :
    (obj : ObjectMeta) (lis : GrpcListener) (locs : List Locality) → IsUsed obj lis (IsAmong locs)
used_by_localities obj lis [] = unused (λ service is. let m = is.among in elim m [ ])
used_by_localities obj lis (loc ∷ locs) = elim (used_by_localities obj lis locs) [
  | used service is matches ↦
      used service (record { loc = is.loc; among = there is.among; refers = is.refers }) matches
  | unused rest ↦ elim (Option-cases loc.service) [
    | inl missing ↦ unused (λ service is.
        first_or_later loc is.loc locs service is.among is.refers
          (λ refers. let e : none ≡ some service = sym missing ∙ refers in absurd (cc))
          (rest service))
    | inr (own, refers) ↦ elim (Bool-cases (is_slice_of obj lis own)) [
      | inl matches ↦ used own (record { loc = loc; among = here refl; refers = refers }) matches
      | inr differs ↦ unused (λ service is.
          first_or_later loc is.loc locs service is.among is.refers
            (λ refers'.
              let e : own ≡ service = some_injective (sym refers ∙ refers') in rw (← e) differs)
            (rest service))
    ]
  ]
]

pub used_by_backend :
    (obj : ObjectMeta) (lis : GrpcListener) (backend : Backend) → IsUsed obj lis (Uses backend)
used_by_backend obj lis backend = elim (Option-cases backend.service) [
  | inr (own, refers) ↦ elim (Bool-cases (is_slice_of obj lis own)) [
    | inl matches ↦ used own (directly refers) matches
    | inr differs ↦ unused (λ service uses. elim uses [
      | directly refers' ↦
          let e : own ≡ service = some_injective (sym refers ∙ refers') in rw (← e) differs
      | by_locality loc none_own m _ ↦
          absurd (let e : none ≡ some own = sym none_own ∙ refers in cc)
    ])
  ]
  | inl missing ↦ elim (used_by_localities obj lis backend.localities) [
    | used service is matches ↦ used service (by_locality is.loc missing is.among is.refers) matches
    | unused rest ↦ unused (λ service uses. elim uses [
      | directly refers ↦ absurd (let e : none ≡ some service = sym missing ∙ refers in cc)
      | by_locality loc _ m refers ↦ rest service (record { loc = loc; among = m; refers = refers })
    ])
  ]
]

pub is_slice_of→IsSliceOf :
    (obj : ObjectMeta) (lis : GrpcListener) (service : ServiceRef)
    → is_slice_of obj lis service ≡ true
    → IsSliceOf obj lis service
is_slice_of→IsSliceOf obj lis service e =
    let (one, two) =
      &&-true (text_eq obj.namespace (service_namespace service lis))
        (text_eq (label service_name_label obj.labels) service.name) e in
    record {
      labelled = text_eq→eq (label service_name_label obj.labels) service.name two;
      namespaced = text_eq→eq obj.namespace (service_namespace service lis) one;
    }
