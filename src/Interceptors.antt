-- ===== src/Interceptors.antt =====
-- gtc/interceptor.go: fault injection filters, for a listener and as overrides of a route or backend.
pub mod Faults
pub mod Filters
use grpc_traffic_controller.Prelude.{
  Text, List, [], ◌∷◌, ◌++◌, Option, some, none, if◌then◌else◌, text_eq,
}
use grpc_traffic_controller.Api.{Interceptor, FaultInterceptor, FaultDelay, FaultAbort, Fraction}
use grpc_traffic_controller.Errors.{
  ◌>>=◌, Result, ok, err, malformed_filter, malformed_filter_override, malformed_delay_fault_filter,
  malformed_abort_fault_filter,
}
use grpc_traffic_controller.Errors.Loops.{map_from}
use grpc_traffic_controller.Envoy
use grpc_traffic_controller.Envoy.{
  Library, Any, HttpFilter, HttpFault, FractionalPercent, FaultDelaySpecifier, fixed_delay,
  header_delay, FaultAbortErrorType, grpc_status, header_abort, router, http_fault,
}
use grpc_traffic_controller.Resolver.{must_any, make_fractional_percent}

-- m[name] = cfg, for a map with one entry for each key
unfoldable pub set_override {ℓ} : {V : Type ℓ} → Text → V → List (Text × V) → List (Text × V)
set_override name cfg [] = (name, cfg) ∷ []
set_override name cfg ((key, old) ∷ more) =
    if text_eq key name then (name, cfg) ∷ more else (key, old) ∷ set_override name cfg more

module _ (lib : Library) where
  make_percentage : Option Fraction → Result (Option FractionalPercent)
  make_percentage none = ok none
  make_percentage (some p) = do percent ← make_fractional_percent lib p; ok (some percent)

  -- The first of the alternatives that is set.
  delay_specifier : FaultDelay → Result FaultDelaySpecifier
  delay_specifier d = elim d.fixed [
    | some duration ↦ ok (fixed_delay (lib.new_duration duration))
    | none ↦ elim d.metadata [ some _ ↦ ok header_delay | none ↦ err malformed_delay_fault_filter ]
  ]

  make_fault_delay : Option FaultDelay → Result (Option Envoy.FaultDelay)
  make_fault_delay none = ok none
  make_fault_delay (some d) = do
    specifier ← delay_specifier d
    percentage ← make_percentage d.percentage
    ok (some (record { specifier = specifier; percentage = percentage }))

  abort_error_type : FaultAbort → Result FaultAbortErrorType
  abort_error_type a = elim a.code [
    | some code ↦ ok (grpc_status code)
    | none ↦ elim a.metadata [ some _ ↦ ok header_abort | none ↦ err malformed_abort_fault_filter ]
  ]

  make_fault_abort : Option FaultAbort → Result (Option Envoy.FaultAbort)
  make_fault_abort none = ok none
  make_fault_abort (some a) = do
    error_type ← abort_error_type a
    percentage ← make_percentage a.percentage
    ok (some (record { error_type = error_type; percentage = percentage }))

  -- The headers of the interceptor are not read.
  unfoldable pub make_fault_filter : FaultInterceptor → Result HttpFault
  unfolding make_fault_delay make_fault_abort delay_specifier abort_error_type make_percentage
  make_fault_filter fault = do
    delay ← make_fault_delay fault.delay
    abort ← make_fault_abort fault.abort
    ok (record { delay = delay; abort = abort; max_active_faults = fault.max_active_faults })

  fault_config : FaultInterceptor → Result Any
  fault_config fault = do
    fault_filter ← make_fault_filter fault
    must_any lib (http_fault fault_filter)

  fault_or_malformed : Option FaultInterceptor → Result HttpFilter
  fault_or_malformed none = err malformed_filter
  fault_or_malformed (some fault) = do
    config ← fault_config fault
    ok (record { name = lib.fault_name; typed_config = config })

  unfoldable pub make_filter : Interceptor → Result HttpFilter
  unfolding fault_config fault_or_malformed
  make_filter interceptor = fault_or_malformed interceptor.fault

  -- The router filter is made first, and always set last.
  unfoldable pub make_filters : List Interceptor → Result (List HttpFilter)
  make_filters interceptors = do
    config ← must_any lib router
    filters ← map_from (λ _. make_filter) 0 interceptors
    ok (filters ++ record { name = lib.router_name; typed_config = config } ∷ [])

  override_or_malformed : Option FaultInterceptor → Result (Text × Any)
  override_or_malformed none = err malformed_filter_override
  override_or_malformed (some fault) = do config ← fault_config fault; ok (lib.fault_name, config)

  unfoldable pub make_filter_override : Interceptor → Result (Text × Any)
  unfolding fault_config override_or_malformed
  make_filter_override interceptor = override_or_malformed interceptor.fault

  collect_overrides : List (Text × Any) → List Interceptor → Result (List (Text × Any))
  collect_overrides overrides [] = ok overrides
  collect_overrides overrides (spec ∷ more) = do
    (name, config) ← make_filter_override spec
    collect_overrides (set_override name config overrides) more

  unfoldable pub make_filter_overrides : List Interceptor → Result (List (Text × Any))
  unfolding collect_overrides
  make_filter_overrides = collect_overrides []
