-- ===== src/Clusters/Find.antt =====
-- gtc/cluster.go: what findBackendSpec finds, and where it does not return.
use grpc_traffic_controller.Prelude.{
  ℕ, ℤ, pos, negsuc, ◌≤◌, ◌≡◌, refl, inl, inr, ◌↔◌, Text, some, arith, length, get_elem?,
  get_elem?-lt, length-le_of_none, Option-cases,
}
use grpc_traffic_controller.Api.{GrpcListener, Route, Backend}
use grpc_traffic_controller.Errors.{ok, err, panic, route_not_found, backend_not_found}
use grpc_traffic_controller.Names.{ParsedBackendName}
use grpc_traffic_controller.Clusters.{find_backend_spec}

-- The backend that a listener has at two indices.
pub record HasBackend (listener : GrpcListener) (ref : ParsedBackendName) (b : Backend)
    : Type 0 where
  pub r : ℕ
  pub i : ℕ
  pub route : Route
  pub at_route : ref.route_id ≡ pos r
  pub at_backend : ref.backend_id ≡ pos i
  pub in_routes : get_elem? listener.spec.routes r ≡ some route
  pub in_backends : get_elem? route.backends i ≡ some b

-- A negative index, which no test catches: of a route, or of a backend of a route that exists.
pub data HasNegativeId (listener : GrpcListener) (ref : ParsedBackendName) : Type 0 where
  of_route : (n : ℕ) → ref.route_id ≡ negsuc n → HasNegativeId listener ref
  of_backend :
      (r n : ℕ) (route : Route)
      → ref.route_id ≡ pos r
      → get_elem? listener.spec.routes r ≡ some route
      → ref.backend_id ≡ negsuc n
      → HasNegativeId listener ref

module _ (ns name : Text) (lis : GrpcListener) where
  abbrev ref_of : ℤ → ℤ → ParsedBackendName
  ref_of rid bid = record { namespace = ns; listener_name = name; route_id = rid; backend_id = bid }

  find-some :
      (r i : ℕ) (route : Route) (b : Backend)
      → get_elem? lis.spec.routes r ≡ some route
      → get_elem? route.backends i ≡ some b
      → find_backend_spec (ref_of (pos r) (pos i)) lis ≡ ok b
  unfolding find_backend_spec
  find-some r i route b hr hb =
      ground (arith, get_elem?-lt lis.spec.routes r route hr, get_elem?-lt route.backends i b hb)

  data Found (r i : ℕ) : Type 0 where
    no_route :
        length lis.spec.routes ≤ r
        → find_backend_spec (ref_of (pos r) (pos i)) lis ≡ err (route_not_found (pos r) lis)
        → Found r i
    no_backend :
        (route : Route)
        → get_elem? lis.spec.routes r ≡ some route
        → length route.backends ≤ i
        → find_backend_spec (ref_of (pos r) (pos i)) lis
          ≡ err (backend_not_found (pos r) (pos i) lis)
        → Found r i
    found :
        (route : Route) (b : Backend)
        → get_elem? lis.spec.routes r ≡ some route
        → get_elem? route.backends i ≡ some b
        → Found r i

  Found-total : (r i : ℕ) → Found r i
  unfolding find_backend_spec
  Found-total r i = elim (Option-cases (get_elem? lis.spec.routes r)) [
    | inl missing ↦
        no_route (length-le_of_none lis.spec.routes r missing)
          (ground (arith, length-le_of_none lis.spec.routes r missing))
    | inr (route, at) ↦ elim (Option-cases (get_elem? route.backends i)) [
      | inl missing ↦ no_backend route at (length-le_of_none route.backends i missing) (
          ground (
            arith,
            get_elem?-lt lis.spec.routes r route at,
            length-le_of_none route.backends i missing,
          ))
      | inr (b, at_b) ↦ found route b at at_b
    ]
  ]

  find-ok :
      (rid bid : ℤ) (b : Backend)
      → find_backend_spec (ref_of rid bid) lis ≡ ok b
      → HasBackend lis (ref_of rid bid) b
  find-ok (negsuc n) bid b e = unfold find_backend_spec in cc
  find-ok (pos r) (negsuc n) b e = absurd (
      unfold find_backend_spec in
      ground
        (arith, Option-cases (get_elem? lis.spec.routes r), length-le_of_none lis.spec.routes r))
  find-ok (pos r) (pos i) b e = elim (Found-total r i) [
    | no_route _ failed ↦ cc
    | no_backend _ _ _ failed ↦ cc
    | found route b' at at_b ↦ record {
      r = r;
      i = i;
      route = route;
      at_route = refl;
      at_backend = refl;
      in_routes = at;
      in_backends =
          let same = find-some r i route b' at at_b in let eq : b' ≡ b = cc in rw (← eq) at_b;
    }
  ]

  find-panic :
      (rid bid : ℤ)
      → find_backend_spec (ref_of rid bid) lis ≡ panic
      → HasNegativeId lis (ref_of rid bid)
  find-panic (negsuc n) bid e = of_route n refl
  find-panic (pos r) (negsuc n) e = elim (Option-cases (get_elem? lis.spec.routes r)) [
    | inl missing ↦
        unfold find_backend_spec in
        absurd (ground (arith, length-le_of_none lis.spec.routes r missing))
    | inr (route, at) ↦ of_backend r n route refl at refl
  ]
  find-panic (pos r) (pos i) e = elim (Found-total r i) [
    | no_route _ failed ↦ cc
    | no_backend _ _ _ failed ↦ cc
    | found route b' at at_b ↦ let same = find-some r i route b' at at_b in cc
  ]

-- A backend is found exactly when both indices are those of a route of the listener and of a backend
-- of that route, and it is the backend there.
pub find_backend_spec-eq-ok_iff :
    (lis : GrpcListener) (ref : ParsedBackendName) (b : Backend)
    → (find_backend_spec ref lis ≡ ok b) ↔ HasBackend lis ref b
find_backend_spec-eq-ok_iff lis ref b =
    (find-ok ref.namespace ref.listener_name lis ref.route_id ref.backend_id b, back)
  where
    back : HasBackend lis ref b → find_backend_spec ref lis ≡ ok b
    back h =
        unfold find_backend_spec in
        ground (
          arith,
          get_elem?-lt lis.spec.routes h.r h.route h.in_routes,
          get_elem?-lt h.route.backends h.i b h.in_backends,
        )

-- The call panics exactly when the route index is negative, or the route exists and the backend index
-- is negative; every other pair of indices gives a backend or an error.
pub find_backend_spec-eq-panic_iff :
    (lis : GrpcListener) (ref : ParsedBackendName)
    → (find_backend_spec ref lis ≡ panic) ↔ HasNegativeId lis ref
find_backend_spec-eq-panic_iff lis ref =
    (find-panic ref.namespace ref.listener_name lis ref.route_id ref.backend_id, back)
  where
    back : HasNegativeId lis ref → find_backend_spec ref lis ≡ panic
    back (of_route n e) = unfold find_backend_spec in ground arith
    back (of_backend r n route e at e') =
        unfold find_backend_spec in ground (arith, get_elem?-lt lis.spec.routes r route at)
