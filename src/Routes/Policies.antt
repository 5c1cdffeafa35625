-- ===== src/Routes/Policies.antt =====
-- gtc/route.go: makeRetryPolicy and makeHashPolicy.
pub mod Hashing
use grpc_traffic_controller.Prelude.{
  ℕ, codes, List, [], ◌∷◌, Option, some, none, Bool, false, if◌then◌else◌, text_eq, join,
}
use grpc_traffic_controller.Api.{RetryPolicy, RetryBackoff, HashPolicy}
use grpc_traffic_controller.Errors.{Result, ok, err, malformed_hash_policy}
use grpc_traffic_controller.Errors.Loops.{map_from}
use grpc_traffic_controller.Envoy
use grpc_traffic_controller.Envoy.{Library, header, filter_state}
use grpc_traffic_controller.Resolver.{make_duration}

-- One retry, unless the policy says otherwise.
abbrev num_retries_or_one : Option ℕ → ℕ
num_retries_or_one none = 1
num_retries_or_one (some n) = n

module _ (lib : Library) where
  abbrev make_backoff : Option RetryBackoff → Option Envoy.RetryBackOff
  make_backoff none = none
  make_backoff (some b) = some (record {
    base_interval = lib.new_duration b.base_interval;
    max_interval = make_duration lib b.max_interval;
  })

  unfoldable pub make_retry_policy : RetryPolicy → Envoy.RetryPolicy
  make_retry_policy spec = record {
    retry_on = join (codes ",") spec.retry_on;
    num_retries = num_retries_or_one spec.num_retries;
    retry_back_off = make_backoff spec.backoff;
  }

-- policy.Channel != nil && *policy.Channel
abbrev pub is_set : Option Bool → Bool
is_set none = false
is_set (some b) = b

unfoldable pub make_one_hash_policy : HashPolicy → Result Envoy.HashPolicy
make_one_hash_policy policy =
    if text_eq policy.metadata []
    then if is_set policy.channel
      then ok (record {
        specifier = filter_state (codes "io.grpc.channel_id");
        terminal = policy.terminal;
      })
      else err malformed_hash_policy
    else ok (record { specifier = header policy.metadata; terminal = policy.terminal })

-- No policy gives no result, which the loop gives too.
unfoldable pub make_hash_policy : List HashPolicy → Result (List Envoy.HashPolicy)
make_hash_policy [] = ok []
make_hash_policy (p ∷ ps) = map_from (λ _. make_one_hash_policy) 0 (p ∷ ps)
