-- ===== src/Propagation/Effects.antt =====
-- gtc/notify.go and the resolvers: a change of the caches that changes what a resource is resolved to is
-- announced for that resource.
use grpc_traffic_controller.Prelude.{
  ℕ, pos, ◌≡◌, refl, sym, ◌∙◌, inl, inr, Text, some, Bool, true, false, ◌&&◌, text_eq, text_eq→eq,
  In, get_elem?,
}
use grpc_traffic_controller.Api.{GrpcListener, Route, Backend}
use grpc_traffic_controller.Errors.{Result, ok, err, panic}
use grpc_traffic_controller.Envoy.{Library, Any}
use grpc_traffic_controller.Kubernetes.{Listers}
use grpc_traffic_controller.Names.{
  ParsedBackendName, parse_backend_name, backend_name_text, backend_name, parse_listener_name,
  listener_name,
}
use grpc_traffic_controller.Names.RoundTrip.{listener_name-parse_listener_name}
use grpc_traffic_controller.Clusters.Find.{HasBackend}
use grpc_traffic_controller.Watches.{ResourceRef}
use grpc_traffic_controller.Notifications.{handle_listener}
use grpc_traffic_controller.Notifications.Listener.{
  itself, its_cluster, its_endpoints, handle_listener_iff,
}
use grpc_traffic_controller.Propagation.Answers.{one_of}
use grpc_traffic_controller.Propagation.Caches.{IsListenerChange, IsCanonical}

pub one_of-some :
    (r : Result (Any × Text)) (y : Any) → one_of r ≡ some y → (out : Any × Text) × (r ≡ ok out)
one_of-some (ok out) y e = (out, refl)
one_of-some (err e') y e = absurd (cc)
one_of-some panic y e = absurd (cc)

pub &&-true : (a b : Bool) → (a && b) ≡ true → (a ≡ true) × (b ≡ true)
&&-true true true e = (refl, refl)
&&-true true false e = absurd (cc)
&&-true false b e = absurd (cc)

-- Whether a key is that of a listener.
abbrev pub is_key_of : GrpcListener → (namespace name : Text) → Bool
is_key_of lis namespace name = text_eq lis.namespace namespace && text_eq lis.name name

module _ (lib : Library) (before after : Listers) (lis : GrpcListener)
    (changed : IsListenerChange lis before after) where
  -- What is stored under the key of the listener, if anything is, is the listener.
  stored_is :
      (namespace name : Text) (l : GrpcListener)
      → is_key_of lis namespace name ≡ true
      → after.get_listener namespace name ≡ inr l
      → lis ≡ l
  stored_is namespace name l key found =
      let (one, two) = &&-true (text_eq lis.namespace namespace) (text_eq lis.name name) key in
      let e₁ : lis.namespace ≡ namespace = text_eq→eq lis.namespace namespace one in
      let e₂ : lis.name ≡ name = text_eq→eq lis.name name two in
      let found' : after.get_listener lis.namespace lis.name ≡ inr l = rw (e₁, e₂) found in
      elim changed.stored [
        | inl is ↦ let e : inr lis ≡ inr l = sym is ∙ found' in cc
        | inr (x, is) ↦ absurd (let e : inl x ≡ inr l = sym is ∙ found' in cc)
      ]

  -- The name of a backend of the listener, as the server makes it.
  pub record IsPlaced (name : Text) : Type 0 where
    r : ℕ
    i : ℕ
    route : Route
    backend : Backend
    in_routes : get_elem? lis.spec.routes r ≡ some route
    in_backends : get_elem? route.backends i ≡ some backend
    named : name ≡ backend_name lis.namespace lis.name (pos r) (pos i)

  pub placed :
      (ref : ResourceRef) (p : ParsedBackendName) (l : GrpcListener) (backend : Backend)
      → IsCanonical ref
      → parse_backend_name ref.resource_name ≡ ok p
      → is_key_of lis p.namespace p.listener_name ≡ true
      → after.get_listener p.namespace p.listener_name ≡ inr l
      → HasBackend l p backend
      → IsPlaced ref.resource_name
  unfolding backend_name_text
  placed ref p l backend canonical read key found has =
      let (one, two) =
        &&-true (text_eq lis.namespace p.namespace) (text_eq lis.name p.listener_name) key in
      let e₁ : lis.namespace ≡ p.namespace = text_eq→eq lis.namespace p.namespace one in
      let e₂ : lis.name ≡ p.listener_name = text_eq→eq lis.name p.listener_name two in
      let same : lis ≡ l = stored_is p.namespace p.listener_name l key found in
      record {
        r = has.r;
        i = has.i;
        route = has.route;
        backend = backend;
        in_routes = rw same has.in_routes;
        in_backends = has.in_backends;
        named = rw (e₁, e₂, ← has.at_route, ← has.at_backend) (canonical p read);
      }

  -- A resource of a type that is given under the key of the listener is announced with it.
  pub endpoints_announced :
      (ref : ResourceRef)
      → text_eq lib.endpoint_type ref.type_url ≡ true
      → IsPlaced ref.resource_name
      → In ref (handle_listener lib (some lis))
  endpoints_announced ref typed at =
      let e = text_eq→eq lib.endpoint_type ref.type_url typed in
      (handle_listener_iff lib lis ref).1 (
        its_endpoints at.r at.i at.route at.backend at.in_routes at.in_backends
          (λ j. record { type_url = sym e j; resource_name = at.named j }))

  pub cluster_announced :
      (ref : ResourceRef)
      → text_eq lib.cluster_type ref.type_url ≡ true
      → IsPlaced ref.resource_name
      → In ref (handle_listener lib (some lis))
  cluster_announced ref typed at =
      let e = text_eq→eq lib.cluster_type ref.type_url typed in
      (handle_listener_iff lib lis ref).1 (
        its_cluster at.r at.i at.route at.backend at.in_routes at.in_backends
          (λ j. record { type_url = sym e j; resource_name = at.named j }))

  pub listener_announced :
      (ref : ResourceRef) (p : Text × Text)
      → text_eq lib.listener_type ref.type_url ≡ true
      → parse_listener_name ref.resource_name ≡ ok p
      → is_key_of lis p.0 p.1 ≡ true
      → In ref (handle_listener lib (some lis))
  listener_announced ref p typed read key =
      let (one, two) = &&-true (text_eq lis.namespace p.0) (text_eq lis.name p.1) key in
      let e₁ : lis.namespace ≡ p.0 = text_eq→eq lis.namespace p.0 one in
      let e₂ : lis.name ≡ p.1 = text_eq→eq lis.name p.1 two in
      let e = text_eq→eq lib.listener_type ref.type_url typed in
      let named : ref.resource_name ≡ listener_name lis.namespace lis.name =
        rw (e₁, e₂) (sym (listener_name-parse_listener_name ref.resource_name p.0 p.1 read)) in
      (handle_listener_iff lib lis ref).1
        (itself (λ j. record { type_url = sym e j; resource_name = named j }))
