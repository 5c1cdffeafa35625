-- ===== src/Kubernetes.antt =====
-- What the source reads of Kubernetes, which is not part of this repository: endpoint slices, and the
-- listers over the informers' caches as a record of parameters.
use grpc_traffic_controller.Prelude.{
  ℤ, Text, Bool, List, Option, ◌⊎◌, [], ◌∷◌, if◌then◌else◌, text_eq,
}
use grpc_traffic_controller.Errors.{Error}
use grpc_traffic_controller.Api.{GrpcListener}

-- discovery.k8s.io/v1 EndpointPort
pub record EndpointPort : Type 0 where
  pub name : Option Text
  pub port : Option ℤ

-- Endpoint: its addresses, Conditions.Ready, Zone, and the names of Hints.ForZones
pub record Endpoint : Type 0 where
  pub addresses : List Text
  pub ready : Option Bool
  pub zone : Option Text
  pub hints : Option (List Text)

pub record EndpointSlice : Type 0 where
  pub namespace : Text
  pub labels : List (Text × Text)
  pub resource_version : Text
  pub endpoints : List Endpoint
  pub ports : List EndpointPort

-- m[key], which is the empty text where the key is missing
unfoldable pub label : Text → List (Text × Text) → Text
label key [] = []
label key ((k, v) ∷ more) = if text_eq k key then v else label key more

-- labels.Requirement with the operator Equals and one value
pub record Requirement : Type 0 where
  pub key : Text
  pub value : Text

pub record Listers : Type 0 where
  -- GRPCListeners(namespace).Get(name)
  pub get_listener : (namespace name : Text) → Error ⊎ GrpcListener
  -- List(labels.Everything())
  pub list_listeners : Error ⊎ List GrpcListener
  -- labels.NewRequirement(key, selection.Equals, []string{value})
  pub new_requirement : (key value : Text) → Error ⊎ Requirement
  -- EndpointSlices(namespace).List(labels.NewSelector().Add(requirement))
  pub list_slices : (namespace : Text) → Requirement → Error ⊎ List EndpointSlice
