-- ===== src/Tests/TestRuntime.antt =====
-- Objects that options build, and the counts of a few calls.
use grpc_traffic_controller.Prelude.{
  map, List, none, ◌≡◌, ◌<◌, ◌↔◌, refl, Text, codes, List, [], ◌∷◌, some, none, true, inl, inr,
  arith, if◌then◌else◌, text_eq,
}
use grpc_traffic_controller.Api.{Backend}
use grpc_traffic_controller.TestRuntime.Builders.{
  with_max_requests, with_backend_lb_policy, with_service_ref, build_backend,
}
use grpc_traffic_controller.TestRuntime.Settings.{
  Setting, max_requests_to, service_to, lb_policy_to, option_of, last_set, max_requests_in,
  service_in, localities_in, interceptors_in, ring_hash_in, lb_policy_in, build_backend-eq,
}
use grpc_traffic_controller.TestRuntime.Calls.{
  Call, make_call, count_by_backend_id, assert_one_backend_got_all_calls,
}
use grpc_traffic_controller.TestRuntime.Counts.{answered_by, assert_one_backend_iff}
use grpc_traffic_controller.Tests.Samples.{service}

-- The last option wins.
abbrev built : Backend
built = record {
  weight = 1;
  max_requests = some 2;
  lb_policy = codes "ringhash";
  ring_hash_config = none;
  interceptors = [];
  service = some service;
  localities = [];
}

builds :
    build_backend (
      with_max_requests 1
      ∷ with_backend_lb_policy (codes "ringhash")
      ∷ with_service_ref service
      ∷ with_max_requests 2
      ∷ [])
    ≡ built
unfolding build_backend
builds = refl

abbrev settings : List Setting
settings =
    max_requests_to 1
    ∷ lb_policy_to (codes "ringhash")
    ∷ service_to service
    ∷ max_requests_to 2
    ∷ []

build_backend-eq_example : build_backend (map option_of settings) ≡ record {
  weight = 1;
  max_requests = last_set max_requests_in settings none;
  lb_policy = last_set lb_policy_in settings [];
  ring_hash_config = last_set ring_hash_in settings none;
  interceptors = last_set interceptors_in settings [];
  service = last_set service_in settings none;
  localities = last_set localities_in settings [];
}
build_backend-eq_example = build_backend-eq settings

abbrev calls : List Call
calls =
    make_call (codes "xds:///echo") (inr (codes "a"))
    ∷ make_call (codes "xds:///echo") (inl (codes "unavailable"))
    ∷ make_call (codes "xds:///echo") (inr (codes "a"))
    ∷ []

some_calls : 0 < 2
some_calls = omega arith

assert_one_backend_iff_example :
    (assert_one_backend_got_all_calls 2 (count_by_backend_id calls []) ≡ true)
    ↔ ((id : Text) × ((k : Text) → answered_by k calls ≡ (if text_eq id k then 2 else 0)))
assert_one_backend_iff_example = assert_one_backend_iff 2 calls some_calls

passes : assert_one_backend_got_all_calls 2 (count_by_backend_id calls []) ≡ true
unfolding assert_one_backend_got_all_calls count_by_backend_id text_eq
passes = refl
