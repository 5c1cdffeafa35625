-- ===== src/Propagation/FirstResponses.antt =====
-- gtc/cache.go: what a first response carries.
use grpc_traffic_controller.Prelude.{
  ◌≡◌, refl, inl, inr, Text, List, some, true, text_eq, text_eq→eq, Bool-cases,
}
use grpc_traffic_controller.Errors.{ok}
use grpc_traffic_controller.Envoy.{Library, Any}
use grpc_traffic_controller.Kubernetes.{Listers}
use grpc_traffic_controller.Resources.{ResolveResponse}
use grpc_traffic_controller.Resources.Loop.{resources_of}
use grpc_traffic_controller.Watches.{ResourceRef}
use grpc_traffic_controller.ConfigWatcher.{Request, config_resolver, first_request, is_known}
use grpc_traffic_controller.ConfigWatcher.Lifetime.{asks_for}
use grpc_traffic_controller.ConfigWatcher.Resolvers.{config_resolver-IsResponse}
use grpc_traffic_controller.Propagation.{received, answer}
use grpc_traffic_controller.Propagation.Answers.{received-eq-answer}
use grpc_traffic_controller.Propagation.Effects.{&&-true}
use grpc_traffic_controller.Propagation.System.{first_content}
use grpc_traffic_controller.Errors.Loops.{Forall₂, nil, cons}

received_known :
    {R : Text → Any × Text → Type 0} (names : List Text) (outs : List (Any × Text)) (n : Text)
    → Forall₂ R names outs
    → is_known n names ≡ true
    → (x : Any) × (received names (resources_of outs) n ≡ some x)
unfolding received is_known
received_known _ _ n nil asked = absurd (cc)
received_known _ _ n (cons {x} {y} {xs} {ys} r rs) asked = elim (Bool-cases (text_eq x n)) [
  | inl is ↦ (y.0, rw is refl)
  | inr isnt ↦ let (z, found) = received_known xs ys n rs (rw isnt at asked) in (z, rw isnt found)
]

-- A first response carries, for every resource that the request asks for, what the watch would answer to a
-- change of that resource, with the caches as they are; and there is such an answer. The names are resolved.
pub first_content-eq-answer :
    (lib : Library) (listers : Listers) (req : Request) (resp : ResolveResponse) (ref : ResourceRef)
    → config_resolver lib listers (first_request (config_resolver lib listers) req) ≡ ok resp
    → asks_for req ref ≡ true
    → (x : Any) × (first_content req resp ref ≡ some x) × (answer lib listers req ref ≡ some x)
first_content-eq-answer lib listers req resp ref resolved asks =
    let (typed, named) =
      &&-true (text_eq req.type_url ref.type_url) (is_known ref.resource_name req.resource_names)
        asks in
    let is =
      config_resolver-IsResponse lib listers (first_request (config_resolver lib listers) req) resp
        resolved in
    let (x, found) = received_known req.resource_names is.outs ref.resource_name is.all named in
    let found' : received req.resource_names resp.resources ref.resource_name ≡ some x =
      rw is.resources found in
    let same : record { type_url = req.type_url; resource_name = ref.resource_name } ≡ ref = λ i.
      record {
        type_url = text_eq→eq req.type_url ref.type_url typed i;
        resource_name = ref.resource_name;
      } in
    (
      x,
      rw typed found',
      rw (← same) (received-eq-answer lib listers req resp ref.resource_name x resolved found'),
    )
