-- ===== src/Tests/Interceptors.antt =====
-- The filters of the sample's interceptors.
use grpc_traffic_controller.Prelude.{
  ◌≡◌, ◌↔◌, refl, Text, codes, List, [], ◌∷◌, Option, none, some, pos,
}
use grpc_traffic_controller.Errors.{Result, ok}
use grpc_traffic_controller.Envoy.{HttpFault, HttpFilter, Any, fixed_delay}
use grpc_traffic_controller.Interceptors.{make_fault_filter, make_filters, make_filter_overrides}
use grpc_traffic_controller.Interceptors.Faults.{IsFilterOf, make_fault_filter-eq-ok_iff}
use grpc_traffic_controller.Interceptors.Filters.{IsChainOf, make_filters-IsChainOf}
use grpc_traffic_controller.Tests.Samples.{lib, faults, interceptor, value_or}

abbrev fault_filter : HttpFault
fault_filter = record {
  delay = some (record {
    specifier = fixed_delay (record { seconds = pos 2; nanos = pos 0 });
    percentage = some (record { numerator = 10; denominator = 0 });
  });
  abort = none;
  max_active_faults = some 3;
}

makes_filter : make_fault_filter lib faults ≡ ok fault_filter
unfolding make_fault_filter grpc_traffic_controller.Resolver.make_fractional_percent
    grpc_traffic_controller.Prelude.text_eq grpc_traffic_controller.Prelude.to_upper
makes_filter = refl

make_fault_filter-eq-ok_iff_example :
    (make_fault_filter lib faults ≡ ok fault_filter) ↔ IsFilterOf lib faults fault_filter
make_fault_filter-eq-ok_iff_example = make_fault_filter-eq-ok_iff lib faults fault_filter

abbrev chain : List HttpFilter
chain = value_or [] (make_filters lib (interceptor ∷ []))

makes_chain : make_filters lib (interceptor ∷ []) ≡ ok chain
unfolding make_filters grpc_traffic_controller.Resolver.must_any
    grpc_traffic_controller.Errors.Loops.map_from grpc_traffic_controller.Interceptors.make_filter
    make_fault_filter grpc_traffic_controller.Resolver.make_fractional_percent
    grpc_traffic_controller.Prelude.text_eq grpc_traffic_controller.Prelude.to_upper
makes_chain = refl

make_filters-IsChainOf_example : IsChainOf lib (interceptor ∷ []) chain
make_filters-IsChainOf_example = make_filters-IsChainOf lib (interceptor ∷ []) chain makes_chain

abbrev overrides : List (Text × Any)
overrides = value_or [] (make_filter_overrides lib (interceptor ∷ interceptor ∷ []))

makes_overrides : make_filter_overrides lib (interceptor ∷ interceptor ∷ []) ≡ ok overrides
unfolding make_filter_overrides grpc_traffic_controller.Interceptors.make_filter_override
    make_fault_filter grpc_traffic_controller.Resolver.make_fractional_percent
    grpc_traffic_controller.Prelude.text_eq grpc_traffic_controller.Prelude.to_upper
    grpc_traffic_controller.Resolver.must_any
makes_overrides = refl
