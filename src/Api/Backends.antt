-- ===== src/Api/Backends.antt =====
-- The backends of types.go: services, localities and their policies.
use grpc_traffic_controller.Prelude.{ℕ, ℤ, Text, List, Option}
use grpc_traffic_controller.Api.Interceptors.{Interceptor}

pub record PortRef : Type 0 where
  pub number : ℤ
  pub name : Text

pub record ServiceRef : Type 0 where
  pub name : Text
  pub namespace : Text
  pub port : PortRef

pub record Locality : Type 0 where
  pub weight : ℕ
  pub priority : ℕ
  pub service : Option ServiceRef

pub record RingHashConfig : Type 0 where
  pub min_ring_size : ℕ
  pub max_ring_size : ℕ

pub record Backend : Type 0 where
  pub weight : ℕ
  pub max_requests : Option ℕ
  pub lb_policy : Text
  pub ring_hash_config : Option RingHashConfig
  pub interceptors : List Interceptor
  pub service : Option ServiceRef
  pub localities : List Locality
