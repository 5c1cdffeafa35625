-- ===== src/Envoy/Routes.antt =====
-- The messages of a route configuration.
use grpc_traffic_controller.Prelude.{ℕ, ℤ, Text, Bool, List, Option}
use grpc_traffic_controller.Envoy.Filters.{Duration, Any, FractionalPercent}

pub data PathSpecifier : Type 0 where
  path : Text → PathSpecifier
  prefix : Text → PathSpecifier

-- The engine is always GoogleRE2, with no option set.
pub record RegexMatcher : Type 0 where
  pub regex : Text

pub data HeaderMatchSpecifier : Type 0 where
  exact_match : Text → HeaderMatchSpecifier
  safe_regex_match : RegexMatcher → HeaderMatchSpecifier
  range_match : (start end : ℤ) → HeaderMatchSpecifier
  present_match : Bool → HeaderMatchSpecifier
  prefix_match : Text → HeaderMatchSpecifier
  suffix_match : Text → HeaderMatchSpecifier

pub record HeaderMatcher : Type 0 where
  pub name : Text
  pub invert_match : Bool
  pub specifier : HeaderMatchSpecifier

pub record RouteMatch : Type 0 where
  pub path_specifier : PathSpecifier
  pub runtime_fraction : Option FractionalPercent
  pub headers : List HeaderMatcher

pub record RetryBackOff : Type 0 where
  pub base_interval : Duration
  pub max_interval : Option Duration

pub record RetryPolicy : Type 0 where
  pub retry_on : Text
  pub num_retries : ℕ
  pub retry_back_off : Option RetryBackOff

pub data HashPolicySpecifier : Type 0 where
  header : (header_name : Text) → HashPolicySpecifier
  filter_state : (key : Text) → HashPolicySpecifier

pub record HashPolicy : Type 0 where
  pub specifier : HashPolicySpecifier
  pub terminal : Bool

pub record ClusterWeight : Type 0 where
  pub name : Text
  pub weight : ℕ
  pub typed_per_filter_config : List (Text × Any)

pub record WeightedCluster : Type 0 where
  pub total_weight : ℕ
  pub clusters : List ClusterWeight

pub record MaxStreamDuration : Type 0 where
  pub max_stream_duration : Option Duration
  pub grpc_timeout_header_max : Option Duration

pub record RouteAction : Type 0 where
  pub hash_policy : List HashPolicy
  pub retry_policy : Option RetryPolicy
  pub max_stream_duration : MaxStreamDuration
  pub weighted_clusters : WeightedCluster

pub record Route : Type 0 where
  pub match : RouteMatch
  pub typed_per_filter_config : List (Text × Any)
  pub action : RouteAction

pub record VirtualHost : Type 0 where
  pub name : Text
  pub domains : List Text
  pub routes : List Route
  pub retry_policy : Option RetryPolicy

pub record RouteConfiguration : Type 0 where
  pub name : Text
  pub validate_clusters : Bool
  pub virtual_hosts : List VirtualHost
