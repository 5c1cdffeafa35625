-- ===== src/Names.antt =====
-- gtc/resource.go, and parseListenerName and listenerName of gtc/listener.go: the names of xDS resources.
pub mod RoundTrip
pub mod Accepted
use grpc_traffic_controller.Prelude.{
  ℤ, Text, codes, List, [], ◌∷◌, ◌++◌, Option, some, none, split, cut, and_then,
}
use grpc_traffic_controller.Go.Path.{join_path}
use grpc_traffic_controller.Go.Strconv.{itoa, atoi}
use grpc_traffic_controller.Errors.{
  Error, malformed_resource_name, malformed_listener_resource_name, Result, ok, err,
}

unfoldable pub route_config_name : (namespace name : Text) → Text
route_config_name namespace name = join_path (namespace ∷ name ∷ codes "routeconfig" ∷ [])

unfoldable pub v_host_name : (namespace name : Text) → Text
v_host_name namespace name = join_path (namespace ∷ name ∷ codes "vhost" ∷ [])

unfoldable pub backend_name : (namespace name : Text) (route_id backend_id : ℤ) → Text
backend_name namespace name route_id backend_id =
    join_path
      (namespace ∷ name ∷ codes "route" ∷ itoa route_id ∷ codes "backend" ∷ itoa backend_id ∷ [])

-- namespace/name/route/<route_id>/backend/<backend_id>
pub record ParsedBackendName : Type 0 where
  pub namespace : Text
  pub listener_name : Text
  pub route_id : ℤ
  pub backend_id : ℤ

-- parsedBackendName.String
unfoldable pub backend_name_text : ParsedBackendName → Text
unfolding backend_name
backend_name_text p = backend_name p.namespace p.listener_name p.route_id p.backend_id

-- The parts of a name; an error of strconv.Atoi is `none`.
pub parse_parts : List Text → Option ParsedBackendName
parse_parts (namespace ∷ name ∷ _ ∷ route ∷ _ ∷ backend ∷ []) = and_then (atoi route) λ route_id.
    and_then (atoi backend) λ backend_id. some (record {
      namespace = namespace;
      listener_name = name;
      route_id = route_id;
      backend_id = backend_id;
    })
parse_parts _ = none

abbrev or_malformed {ℓ} : {A : Type ℓ} → Error → Option A → Result A
or_malformed e none = err e
or_malformed e (some a) = ok a

unfoldable pub parse_backend_name : Text → Result ParsedBackendName
unfolding parse_parts
parse_backend_name resource_name =
    or_malformed (malformed_resource_name resource_name) (parse_parts (split b'/' resource_name))

unfoldable pub parse_listener_name : Text → Result (Text × Text)
parse_listener_name resource_name =
    or_malformed (malformed_listener_resource_name resource_name) (cut b'/' resource_name)

unfoldable pub listener_name : (namespace name : Text) → Text
listener_name namespace name = namespace ++ (codes "/" ++ name)
