-- ===== src/Api/Interceptors.antt =====
-- api/gtc/v1alpha1/interceptor.go
use grpc_traffic_controller.Prelude.{ℕ, ℤ, List, Option}
use grpc_traffic_controller.Api.Matchers.{Fraction, HeaderMatcher}

pub record MetadataFault : Type 0 where

pub record FaultDelay : Type 0 where
  pub fixed : Option ℤ
  pub metadata : Option MetadataFault
  pub percentage : Option Fraction

pub record FaultAbort : Type 0 where
  pub code : Option ℕ
  pub metadata : Option MetadataFault
  pub percentage : Option Fraction

pub record FaultInterceptor : Type 0 where
  pub delay : Option FaultDelay
  pub abort : Option FaultAbort
  pub max_active_faults : Option ℕ
  pub headers : List HeaderMatcher

pub record Interceptor : Type 0 where
  pub fault : Option FaultInterceptor
