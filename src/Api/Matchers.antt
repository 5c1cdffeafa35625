-- ===== src/Api/Matchers.antt =====
-- api/gtc/v1alpha1/matcher.go, and the matchers of types.go.
use grpc_traffic_controller.Prelude.{ℕ, ℤ, Text, Bool, List, [], ◌∷◌, ◌++◌, Option}
use grpc_traffic_controller.Go.Path.{join_path}

pub record Fraction : Type 0 where
  pub numerator : ℕ
  pub denominator : Text

pub record RegexMatcher : Type 0 where
  pub regex : Text
  pub engine : Text

-- start inclusive, end exclusive
pub record RangeMatcher : Type 0 where
  pub start : ℤ
  pub end : ℤ

pub record HeaderMatcher : Type 0 where
  pub name : Text
  pub exact : Option Text
  pub regex : Option RegexMatcher
  pub range : Option RangeMatcher
  pub present : Option Bool
  pub prefix : Option Text
  pub suffix : Option Text
  pub invert : Bool

pub record PathMatcher : Type 0 where
  pub prefix : Text
  pub path : Text
  pub regex : Option RegexMatcher

pub record MetadataMatcher : Type 0 where
  pub name : Text
  pub exact : Option Text
  pub regex : Option RegexMatcher
  pub range : Option RangeMatcher
  pub present : Option Bool
  pub prefix : Option Text
  pub suffix : Option Text
  pub invert : Bool

pub record MethodMatcher : Type 0 where
  pub namespace : Text
  pub service : Text
  pub method : Text

-- MethodMatcher.Path
unfoldable pub method_path : MethodMatcher → Text
method_path mm = b'/' ∷ join_path ((mm.namespace ++ (b'.' ∷ mm.service)) ∷ mm.method ∷ [])

pub record ServiceMatcher : Type 0 where
  pub namespace : Text
  pub service : Text

-- ServiceMatcher.Prefix
unfoldable pub service_prefix : ServiceMatcher → Text
service_prefix sm = b'/' ∷ (sm.namespace ++ (b'.' ∷ sm.service))

pub record RouteMatcher : Type 0 where
  pub method : Option MethodMatcher
  pub service : Option ServiceMatcher
  pub namespace : Option Text
  pub metadata : List MetadataMatcher
  pub fraction : Option Fraction
