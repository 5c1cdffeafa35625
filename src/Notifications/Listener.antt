-- ===== src/Notifications/Listener.antt =====
-- gtc/notify.go: what is announced when a listener changes.
use grpc_traffic_controller.Prelude.{
  ℕ, zero, suc, ◌+◌, ◌≡◌, refl, ◌↔◌, inl, inr, List, [], ◌∷◌, some, arith, get_elem?, In, here,
  there, In-append, In-append_left, In-append_right,
}
use mathlib.Core.Path.{subst}
use grpc_traffic_controller.Api.{GrpcListener, Route, Backend}
use grpc_traffic_controller.Envoy.{Library}
use grpc_traffic_controller.Watches.{ResourceRef}
use grpc_traffic_controller.Notifications.{
  cluster_ref, endpoint_ref, listener_ref, backend_refs, route_refs, handle_listener,
}

module _ (lib : Library) (lis : GrpcListener) where
  -- The resources of a listener: itself, and the cluster and the endpoints of each of its backends.
  pub data IsResourceOf (ref : ResourceRef) : Type 0 where
    itself : ref ≡ listener_ref lib lis → IsResourceOf ref
    its_cluster :
        (r i : ℕ) (route : Route) (backend : Backend)
        → get_elem? lis.spec.routes r ≡ some route
        → get_elem? route.backends i ≡ some backend
        → ref ≡ cluster_ref lib lis.namespace lis.name r i
        → IsResourceOf ref
    its_endpoints :
        (r i : ℕ) (route : Route) (backend : Backend)
        → get_elem? lis.spec.routes r ≡ some route
        → get_elem? route.backends i ≡ some backend
        → ref ≡ endpoint_ref lib lis.namespace lis.name r i
        → IsResourceOf ref

  -- One of two names of the backend at a place.
  data IsNamed (r i : ℕ) (ref : ResourceRef) : Type 0 where
    as_cluster : ref ≡ cluster_ref lib lis.namespace lis.name r i → IsNamed r i ref
    as_endpoints : ref ≡ endpoint_ref lib lis.namespace lis.name r i → IsNamed r i ref

  record IsBackendRef (r start : ℕ) (bs : List Backend) (ref : ResourceRef) : Type 0 where
    i : ℕ
    number : ℕ
    backend : Backend
    at : get_elem? bs i ≡ some backend
    counted : number ≡ start + i
    named : IsNamed r number ref

  backend_refs_sound :
      (r start : ℕ) (bs : List Backend) (ref : ResourceRef)
      → In ref (backend_refs lib lis r start bs)
      → IsBackendRef r start bs ref
  unfolding backend_refs
  backend_refs_sound r start [] ref m = elim m [ ]
  backend_refs_sound r start (b ∷ bs) ref (here e) = record {
    i = 0;
    number = start;
    backend = b;
    at = refl;
    counted = omega arith;
    named = as_cluster e;
  }
  backend_refs_sound r start (b ∷ bs) ref (there (here e)) = record {
    i = 0;
    number = start;
    backend = b;
    at = refl;
    counted = omega arith;
    named = as_endpoints e;
  }
  backend_refs_sound r start (b ∷ bs) ref (there (there m)) =
      let rest = backend_refs_sound r (suc start) bs ref m in
      let counted = rest.counted in
      record {
        i = suc rest.i;
        number = rest.number;
        backend = rest.backend;
        at = rest.at;
        counted = omega arith;
        named = rest.named;
      }

  backend_refs_complete :
      (r start i number : ℕ) (bs : List Backend) (backend : Backend) (ref : ResourceRef)
      → get_elem? bs i ≡ some backend
      → number ≡ start + i
      → IsNamed r number ref
      → In ref (backend_refs lib lis r start bs)
  unfolding backend_refs
  backend_refs_complete r start i number [] backend ref at counted named = absurd (cc)
  backend_refs_complete r start zero number (b ∷ bs) backend ref at counted named =
      let same : number ≡ start = omega arith in
      elim named [
        | as_cluster e ↦ here (rw (← same) e)
        | as_endpoints e ↦ there (here (rw (← same) e))
      ]
  backend_refs_complete r start (suc i) number (b ∷ bs) backend ref at counted named =
      there
        (there (backend_refs_complete r (suc start) i number bs backend ref at (omega arith) named))

  record IsRouteRef (start : ℕ) (rs : List Route) (ref : ResourceRef) : Type 0 where
    r : ℕ
    number : ℕ
    i : ℕ
    route : Route
    backend : Backend
    at_route : get_elem? rs r ≡ some route
    at_backend : get_elem? route.backends i ≡ some backend
    counted : number ≡ start + r
    named : IsNamed number i ref

  route_refs_sound :
      (start : ℕ) (rs : List Route) (ref : ResourceRef)
      → In ref (route_refs lib lis start rs)
      → IsRouteRef start rs ref
  unfolding route_refs
  route_refs_sound start [] ref m = elim m [ ]
  route_refs_sound start (route ∷ rs) ref m =
      elim (In-append (backend_refs lib lis start 0 route.backends) m) [
        | inl m ↦
            let b = backend_refs_sound start 0 route.backends ref m in
            let counted = b.counted in
            let same : b.number ≡ b.i = omega arith in
            record {
              r = 0;
              number = start;
              i = b.i;
              route = route;
              backend = b.backend;
              at_route = refl;
              at_backend = b.at;
              counted = omega arith;
              named = subst (λ n. IsNamed start n ref) same b.named;
            }
        | inr m ↦
            let rest = route_refs_sound (suc start) rs ref m in
            let counted = rest.counted in
            record {
              r = suc rest.r;
              number = rest.number;
              i = rest.i;
              route = rest.route;
              backend = rest.backend;
              at_route = rest.at_route;
              at_backend = rest.at_backend;
              counted = omega arith;
              named = rest.named;
            }
      ]

  route_refs_complete :
      (start r number i : ℕ) (rs : List Route) (route : Route) (backend : Backend)
      (ref : ResourceRef)
      → get_elem? rs r ≡ some route
      → get_elem? route.backends i ≡ some backend
      → number ≡ start + r
      → IsNamed number i ref
      → In ref (route_refs lib lis start rs)
  unfolding route_refs
  route_refs_complete start r number i [] route backend ref at_r at_i counted named = absurd (cc)
  route_refs_complete start zero number i (first ∷ rs) route backend ref at_r at_i counted named =
      let same : number ≡ start = omega arith in
      let at : first ≡ route = ground arith in
      In-append_left _ (
        backend_refs_complete start 0 i i first.backends backend ref (rw at at_i) (omega arith)
          (subst (λ n. IsNamed n i ref) same named))
  route_refs_complete start (suc r) number i (first ∷ rs) route backend ref at_r at_i counted
        named =
      In-append_right (backend_refs lib lis start 0 first.backends) (
        route_refs_complete (suc start) r number i rs route backend ref at_r at_i (omega arith)
          named)

  of_named :
      (r i : ℕ) (route : Route) (backend : Backend) (ref : ResourceRef)
      → get_elem? lis.spec.routes r ≡ some route
      → get_elem? route.backends i ≡ some backend
      → IsNamed r i ref
      → IsResourceOf ref
  of_named r i route backend ref at_r at_i (as_cluster e) =
      its_cluster r i route backend at_r at_i e
  of_named r i route backend ref at_r at_i (as_endpoints e) =
      its_endpoints r i route backend at_r at_i e

  handle_listener_sound :
      (ref : ResourceRef) → In ref (handle_listener lib (some lis)) → IsResourceOf ref
  unfolding handle_listener
  handle_listener_sound ref (here e) = itself e
  handle_listener_sound ref (there m) =
      let b = route_refs_sound 0 lis.spec.routes ref m in
      let counted = b.counted in
      let same : b.number ≡ b.r = omega arith in
      of_named b.r b.i b.route b.backend ref b.at_route b.at_backend
        (subst (λ n. IsNamed n b.i ref) same b.named)

  handle_listener_complete :
      (ref : ResourceRef) → IsResourceOf ref → In ref (handle_listener lib (some lis))
  unfolding handle_listener
  handle_listener_complete ref (itself e) = here e
  handle_listener_complete ref (its_cluster r i route backend at_r at_i e) = there (
      route_refs_complete 0 r r i lis.spec.routes route backend ref at_r at_i (omega arith)
        (as_cluster e))
  handle_listener_complete ref (its_endpoints r i route backend at_r at_i e) = there (
      route_refs_complete 0 r r i lis.spec.routes route backend ref at_r at_i (omega arith)
        (as_endpoints e))

  -- A change of a listener is announced for exactly the listener itself, and the cluster and the
  -- endpoints of each backend that it has.
  pub handle_listener_iff :
      (ref : ResourceRef) → (In ref (handle_listener lib (some lis))) ↔ IsResourceOf ref
  handle_listener_iff ref = (handle_listener_sound ref, handle_listener_complete ref)
