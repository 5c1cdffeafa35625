-- ===== src/Tests/Endpoints.antt =====
-- The endpoints of the sample's slice, for a client in zone a.
use grpc_traffic_controller.Prelude.{
  filter, ◌≡◌, ◌↔◌, refl, Text, codes, List, [], ◌∷◌, Option, none, some, pos, ℤ, ℕ, to_uint32,
}
use mathlib.Core.List.{Perm}
use grpc_traffic_controller.Errors.{ok}
use grpc_traffic_controller.Errors.Loops.{Forall₂}
use grpc_traffic_controller.Envoy.{LbEndpoint, LocalityLbEndpoints, ClusterLoadAssignment}
use grpc_traffic_controller.Names.{ParsedBackendName}
use grpc_traffic_controller.Endpoints.{make_load_assignment, resolve_endpoint}
use grpc_traffic_controller.Endpoints.Resolve.{IsAssignmentFor, resolve_endpoint-eq-ok_iff}
use grpc_traffic_controller.Endpoints.Slices.{
  EndpointData, lookup_k8s_port, flat_lb_endpoints, make_service_endpoints, current_zone,
}
use grpc_traffic_controller.Endpoints.Members.{IsEndpoints, is_near, is_far}
use grpc_traffic_controller.Endpoints.Ports.{First, lookup_k8s_port-eq-some_iff}
use grpc_traffic_controller.Endpoints.Groups.{served, make_service_endpoints-perm}
use grpc_traffic_controller.Endpoints.Groups.Priorities.{ByZone, make_service_endpoints-ByZone}
use grpc_traffic_controller.Endpoints.Assignments.{IsLocalityOf, make_load_assignment-Forall₂}
use grpc_traffic_controller.Tests.Samples.{
  lib, listers, lis, service, slice, node, spread, value_or,
}

lookup_k8s_port-eq-some_iff_example :
    (lookup_k8s_port service.port slice.ports ≡ some 8080)
    ↔ ((number : ℤ) × First service.port slice.ports number × (8080 ≡ to_uint32 number))
lookup_k8s_port-eq-some_iff_example = lookup_k8s_port-eq-some_iff service.port slice.ports 8080

abbrev localities : List LocalityLbEndpoints
localities =
    record {
      locality = record { zone = codes "a"; sub_zone = codes "greeter-0" };
      load_balancing_weight = 1;
      priority = 0;
      lb_endpoints = record { address = codes "10.0.0.2"; port_value = 8080 } ∷ [];
    }
    ∷ record {
      locality = record { zone = codes "a"; sub_zone = codes "greeter-1" };
      load_balancing_weight = 1;
      priority = 1;
      lb_endpoints = record { address = codes "10.0.0.1"; port_value = 8080 } ∷ [];
    }
    ∷ []

makes_localities : make_service_endpoints lib (some node) service (slice ∷ []) ≡ ok localities
unfolding make_service_endpoints grpc_traffic_controller.Prelude.text_eq
    grpc_traffic_controller.Prelude.equal_fold grpc_traffic_controller.Go.Strconv.format
makes_localities = refl

make_service_endpoints-perm_example :
    (eps : List LbEndpoint) × (flat_lb_endpoints service.port (slice ∷ []) ≡ ok eps)
    × Perm (served localities) eps
make_service_endpoints-perm_example =
    make_service_endpoints-perm lib (some node) service (slice ∷ []) localities makes_localities

zone_of : current_zone (some node) ≡ ok (codes "a")
unfolding current_zone
zone_of = refl

make_service_endpoints-ByZone_example :
    (ds : List EndpointData) × IsEndpoints service.port (slice ∷ []) ds
    × ByZone (filter (is_near lib (codes "a")) ds) (filter (is_far lib (codes "a")) ds) localities
make_service_endpoints-ByZone_example =
    make_service_endpoints-ByZone lib (codes "a") (some node) service (slice ∷ []) localities
      zone_of makes_localities

abbrev second : ParsedBackendName
second = record {
  namespace = codes "default";
  listener_name = codes "echo";
  route_id = pos 0;
  backend_id = pos 1;
}

abbrev assigned : ClusterLoadAssignment × List Text
assigned =
    value_or (record { cluster_name = []; endpoints = [] }, [])
      (make_load_assignment lib listers (some node) second lis spread)

assigns :
    make_load_assignment lib listers (some node) second lis spread ≡ ok (assigned.0, assigned.1)
unfolding make_load_assignment
    grpc_traffic_controller.Endpoints.Slices.make_flat_locality_lb_endpoints
    grpc_traffic_controller.Prelude.text_eq
assigns = refl

make_load_assignment-Forall₂_example :
    Forall₂ (IsLocalityOf lib listers lis) spread.localities assigned.0.endpoints
make_load_assignment-Forall₂_example =
    make_load_assignment-Forall₂ lib listers lis (some node) second spread assigned.0 assigned.1
      refl assigns

resolve_endpoint-eq-ok_iff_example :
    (resolve_endpoint lib listers
        (some node)
        (codes "Endpoint")
        (codes "default/echo/route/0/backend/1")
      ≡ ok (record { type_url = codes "Endpoint"; value = codes "bytes" }, codes "733"))
    ↔ IsAssignmentFor lib listers
        (some node)
        (codes "Endpoint")
        (codes "default/echo/route/0/backend/1")
        (record { type_url = codes "Endpoint"; value = codes "bytes" })
        (codes "733")
resolve_endpoint-eq-ok_iff_example =
    resolve_endpoint-eq-ok_iff lib listers (some node) (codes "Endpoint")
      (codes "default/echo/route/0/backend/1") _ (codes "733")
