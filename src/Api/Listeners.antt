-- ===== src/Api/Listeners.antt =====
-- The listener of types.go: its routes, and their retry and hash policies. Of the object's metadata
-- the controller reads the namespace, the name and the resource version.
use grpc_traffic_controller.Prelude.{ℕ, ℤ, Text, Bool, List, Option}
use grpc_traffic_controller.Api.Interceptors.{Interceptor}
use grpc_traffic_controller.Api.Matchers.{RouteMatcher}
use grpc_traffic_controller.Api.Backends.{Backend}

pub record RetryBackoff : Type 0 where
  pub base_interval : ℤ
  pub max_interval : Option ℤ

pub record RetryPolicy : Type 0 where
  pub retry_on : List Text
  pub num_retries : Option ℕ
  pub backoff : Option RetryBackoff

pub record HashPolicy : Type 0 where
  pub metadata : Text
  pub channel : Option Bool
  pub terminal : Bool

pub record Route : Type 0 where
  pub matcher : Option RouteMatcher
  pub interceptors : List Interceptor
  pub hash_policy : List HashPolicy
  pub max_stream_duration : Option ℤ
  pub grpc_timeout_header_max : Option ℤ
  pub retry : Option RetryPolicy
  pub backends : List Backend

pub record GrpcListenerSpec : Type 0 where
  pub max_stream_duration : Option ℤ
  pub interceptors : List Interceptor
  pub retry : Option RetryPolicy
  pub routes : List Route

pub record GrpcListener : Type 0 where
  pub namespace : Text
  pub name : Text
  pub resource_version : Text
  pub spec : GrpcListenerSpec
