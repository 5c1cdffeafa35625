-- ===== src/TestRuntime/Builders.antt =====
-- pkg/testruntime/builder.go: objects built by options. An option is a function on the object that it
-- changes.
use grpc_traffic_controller.Prelude.{ℕ, ℤ, Text, List, [], ◌∷◌, some, none, true, false, Bool}
use grpc_traffic_controller.Api.{
  Interceptor, Backend, ServiceRef, Locality, RingHashConfig, MetadataMatcher, RouteMatcher,
  Fraction, Route, RetryPolicy, HashPolicy, GrpcListener,
}

-- for _, opt := range opts { opt(&c) }
unfoldable pub apply_all {ℓ} : {A : Type ℓ} → List (A → A) → A → A
apply_all [] a = a
apply_all (opt ∷ opts) a = apply_all opts (opt a)

abbrev pub BackendOption : Type 0
BackendOption = Backend → Backend

abbrev pub with_max_requests : ℕ → BackendOption
with_max_requests req c = record c { max_requests = some req }

abbrev pub with_service_ref : ServiceRef → BackendOption
with_service_ref s c = record c { service = some s }

abbrev pub with_localities : List Locality → BackendOption
with_localities l c = record c { localities = l }

abbrev pub with_backend_interceptor_overrides : List Interceptor → BackendOption
with_backend_interceptor_overrides is c = record c { interceptors = is }

abbrev pub with_backend_ring_hash_config : RingHashConfig → BackendOption
with_backend_ring_hash_config config c = record c { ring_hash_config = some config }

abbrev pub with_backend_lb_policy : Text → BackendOption
with_backend_lb_policy p c = record c { lb_policy = p }

abbrev pub new_backend : Backend
new_backend = record {
  weight = 1;
  max_requests = none;
  lb_policy = [];
  ring_hash_config = none;
  interceptors = [];
  service = none;
  localities = [];
}

unfoldable pub build_backend : List BackendOption → Backend
unfolding apply_all
build_backend opts = apply_all opts new_backend

abbrev pub LocalityOption : Type 0
LocalityOption = Locality → Locality

abbrev pub with_locality_weight : ℕ → LocalityOption
with_locality_weight weight l = record l { weight = weight }

abbrev pub with_locality_priority : ℕ → LocalityOption
with_locality_priority priority l = record l { priority = priority }

abbrev pub with_locality_service_ref : ServiceRef → LocalityOption
with_locality_service_ref s l = record l { service = some s }

abbrev pub new_locality : Locality
new_locality = record { weight = 1; priority = 0; service = none }

unfoldable pub build_locality : List LocalityOption → Locality
unfolding apply_all
build_locality opts = apply_all opts new_locality

abbrev new_metadata_matcher : Text → MetadataMatcher
new_metadata_matcher name = record {
  name = name;
  exact = none;
  regex = none;
  range = none;
  present = none;
  prefix = none;
  suffix = none;
  invert = false;
}

abbrev pub metadata_invert_match : MetadataMatcher → MetadataMatcher
metadata_invert_match m = record m { invert = true }

abbrev pub metadata_exact_match : (name value : Text) → MetadataMatcher
metadata_exact_match name value = record (new_metadata_matcher name) { exact = some value }

abbrev pub metadata_present_match : (name : Text) → Bool → MetadataMatcher
metadata_present_match name present = record (new_metadata_matcher name) { present = some present }

abbrev pub metadata_prefix_match : (name prefix : Text) → MetadataMatcher
metadata_prefix_match name prefix = record (new_metadata_matcher name) { prefix = some prefix }

abbrev pub metadata_suffix_match : (name suffix : Text) → MetadataMatcher
metadata_suffix_match name suffix = record (new_metadata_matcher name) { suffix = some suffix }

abbrev pub RouteMatcherOption : Type 0
RouteMatcherOption = RouteMatcher → RouteMatcher

abbrev pub with_method_matcher : (namespace service method : Text) → RouteMatcherOption
with_method_matcher namespace service method m = record m {
  method = some (record { namespace = namespace; service = service; method = method });
}

abbrev pub with_fraction_matcher : Fraction → RouteMatcherOption
with_fraction_matcher fr m = record m { fraction = some fr }

abbrev pub with_service_matcher : (namespace service : Text) → RouteMatcherOption
with_service_matcher namespace service m = record m {
  service = some (record { namespace = namespace; service = service });
}

abbrev pub with_namespace_matcher : Text → RouteMatcherOption
with_namespace_matcher namespace m = record m { namespace = some namespace }

abbrev pub with_metadata_matchers : List MetadataMatcher → RouteMatcherOption
with_metadata_matchers mms m = record m { metadata = mms }

abbrev pub new_route_matcher : RouteMatcher
new_route_matcher = record {
  method = none;
  service = none;
  namespace = none;
  metadata = [];
  fraction = none;
}

unfoldable pub build_route_matcher : List RouteMatcherOption → RouteMatcher
unfolding apply_all
build_route_matcher opts = apply_all opts new_route_matcher

abbrev pub RouteOption : Type 0
RouteOption = Route → Route

abbrev pub with_route_matcher : RouteMatcher → RouteOption
with_route_matcher m r = record r { matcher = some m }

abbrev pub with_route_max_stream_duration : ℤ → RouteOption
with_route_max_stream_duration d r = record r { max_stream_duration = some d }

abbrev pub with_backends : List Backend → RouteOption
with_backends backends r = record r { backends = backends }

abbrev pub with_route_interceptor_overrides : List Interceptor → RouteOption
with_route_interceptor_overrides overrides r = record r { interceptors = overrides }

abbrev pub with_route_retry : RetryPolicy → RouteOption
with_route_retry retry r = record r { retry = some retry }

abbrev pub with_route_hash_policy : List HashPolicy → RouteOption
with_route_hash_policy ps r = record r { hash_policy = ps }

abbrev pub new_route : Route
new_route = record {
  matcher = none;
  interceptors = [];
  hash_policy = [];
  max_stream_duration = none;
  grpc_timeout_header_max = none;
  retry = none;
  backends = [];
}

unfoldable pub build_route : List RouteOption → Route
unfolding apply_all
build_route opts = apply_all opts new_route

abbrev pub ListenerOption : Type 0
ListenerOption = GrpcListener → GrpcListener

abbrev pub with_interceptors : List Interceptor → ListenerOption
with_interceptors fs s = record s { spec = record s.spec { interceptors = fs } }

abbrev pub with_routes : List Route → ListenerOption
with_routes rs s = record s { spec = record s.spec { routes = rs } }

abbrev pub with_max_stream_duration : ℤ → ListenerOption
with_max_stream_duration d s = record s { spec = record s.spec { max_stream_duration = some d } }

abbrev pub with_listener_retry : RetryPolicy → ListenerOption
with_listener_retry r s = record s { spec = record s.spec { retry = some r } }

abbrev pub new_grpc_listener : (name namespace : Text) → GrpcListener
new_grpc_listener name namespace = record {
  namespace = namespace;
  name = name;
  resource_version = [];
  spec = record { max_stream_duration = none; interceptors = []; retry = none; routes = [] };
}

unfoldable pub build_grpc_listener : (name namespace : Text) → List ListenerOption → GrpcListener
unfolding apply_all
build_grpc_listener name namespace opts = apply_all opts (new_grpc_listener name namespace)
