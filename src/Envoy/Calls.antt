-- ===== src/Envoy/Calls.antt =====
-- The constants and functions of go-control-plane, protobuf and the hash that the source calls, and the
-- case tables of Unicode.
use grpc_traffic_controller.Prelude.{ℕ, ℤ, Text, Option, ◌⊎◌}
use grpc_traffic_controller.Errors.{Error}
use grpc_traffic_controller.Envoy.Filters.{Duration, Any}
use grpc_traffic_controller.Envoy.Resources.{Resource, Message}

pub record Library : Type 0 where
  -- wellknown.Router and wellknown.Fault
  pub router_name : Text
  pub fault_name : Text
  -- resource.ListenerType, ClusterType and EndpointType
  pub listener_type : Text
  pub cluster_type : Text
  pub endpoint_type : Text
  -- typev3.FractionalPercent_DenominatorType_value
  pub denominator_value : Text → Option ℕ
  -- the tables of Unicode behind unicode.SimpleFold: one rune for each class of runes that differ in case
  pub fold_rune : ℕ → ℕ
  -- durationpb.New
  pub new_duration : ℤ → Duration
  -- anypb.New
  pub new_any : Message → Error ⊎ Any
  -- proto.MarshalOptions{Deterministic: true}.Marshal
  pub marshal : Resource → Error ⊎ Text
  -- the base64 text of the SHA-256 sum of what was written
  pub digest : Text → Text
