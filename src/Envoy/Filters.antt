-- ===== src/Envoy/Filters.antt =====
-- The messages of interceptors: fractions, fault injection and HTTP filters.
use grpc_traffic_controller.Prelude.{ℕ, ℤ, Text, Option}

-- durationpb.Duration
pub record Duration : Type 0 where
  pub seconds : ℤ
  pub nanos : ℤ

-- anypb.Any
pub record Any : Type 0 where
  pub type_url : Text
  pub value : Text

-- The denominator is a value of the enumeration DenominatorType.
pub record FractionalPercent : Type 0 where
  pub numerator : ℕ
  pub denominator : ℕ

pub data FaultDelaySpecifier : Type 0 where
  fixed_delay : Duration → FaultDelaySpecifier
  header_delay : FaultDelaySpecifier

pub record FaultDelay : Type 0 where
  pub specifier : FaultDelaySpecifier
  pub percentage : Option FractionalPercent

pub data FaultAbortErrorType : Type 0 where
  grpc_status : ℕ → FaultAbortErrorType
  header_abort : FaultAbortErrorType

pub record FaultAbort : Type 0 where
  pub error_type : FaultAbortErrorType
  pub percentage : Option FractionalPercent

pub record HttpFault : Type 0 where
  pub delay : Option FaultDelay
  pub abort : Option FaultAbort
  pub max_active_faults : Option ℕ

pub record HttpFilter : Type 0 where
  pub name : Text
  pub typed_config : Any
