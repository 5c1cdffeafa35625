-- ===== src/Routes/Matchers.antt =====
-- gtc/route.go: makeRouteMatch, makeMetadataMatcher and makeRegexMatcher.
pub mod Accepted
use grpc_traffic_controller.Prelude.{codes, [], ◌∷◌, Option, some, none, if◌then◌else◌, text_eq}
use grpc_traffic_controller.Api.{
  Route, RouteMatcher, MetadataMatcher, RegexMatcher, Fraction, method_path, service_prefix,
}
use grpc_traffic_controller.Errors.{
  ◌>>=◌, Result, ok, err, invalid_header_matcher, unsupported_engine, blank_regex,
}
use grpc_traffic_controller.Errors.Loops.{map_from}
use grpc_traffic_controller.Envoy
use grpc_traffic_controller.Envoy.{
  Library, FractionalPercent, PathSpecifier, path, prefix, HeaderMatchSpecifier, exact_match,
  safe_regex_match, range_match, present_match, prefix_match, suffix_match, RouteMatch,
}
use grpc_traffic_controller.Resolver.{make_fractional_percent}

abbrev pub match_all : RouteMatch
match_all = record { path_specifier = prefix (codes "/"); runtime_fraction = none; headers = [] }

unfoldable pub make_regex_matcher : RegexMatcher → Result Envoy.RegexMatcher
make_regex_matcher spec =
    if text_eq spec.engine (codes "re2")
    then if text_eq spec.regex [] then err blank_regex else ok (record { regex = spec.regex })
    else err (unsupported_engine spec.engine)

-- The first of the alternatives that is set, in the order of the source's switch.
unfoldable pub header_match_specifier : MetadataMatcher → Result HeaderMatchSpecifier
unfolding make_regex_matcher
header_match_specifier spec = elim spec.exact [
  | some exact ↦ ok (exact_match exact)
  | none ↦ elim spec.regex [
    | some regex ↦ do regex_matcher ← make_regex_matcher regex; ok (safe_regex_match regex_matcher)
    | none ↦ elim spec.range [
      | some range ↦ ok (range_match range.start range.end)
      | none ↦ elim spec.present [
        | some present ↦ ok (present_match present)
        | none ↦ elim spec.prefix [
          | some start ↦ ok (prefix_match start)
          | none ↦ elim spec.suffix [
            | some end ↦ ok (suffix_match end)
            | none ↦ err invalid_header_matcher
          ]
        ]
      ]
    ]
  ]
]

unfoldable pub make_metadata_matcher : MetadataMatcher → Result Envoy.HeaderMatcher
unfolding header_match_specifier
make_metadata_matcher spec = do
  specifier ← header_match_specifier spec
  ok (record { name = spec.name; invert_match = spec.invert; specifier = specifier })

-- The most specific alternative that is set: a method, a service, a namespace, or every path.
unfoldable pub path_specifier : RouteMatcher → PathSpecifier
path_specifier m = elim m.method [
  | some method ↦ path (method_path method)
  | none ↦ elim m.service [
    | some service ↦ prefix (service_prefix service)
    | none ↦ elim m.namespace [
      | some namespace ↦ prefix (b'/' ∷ namespace)
      | none ↦ prefix (codes "/")
    ]
  ]
]

module _ (lib : Library) where
  unfoldable pub runtime_fraction : Option Fraction → Result (Option FractionalPercent)
  runtime_fraction none = ok none
  runtime_fraction (some f) = do fraction ← make_fractional_percent lib f; ok (some fraction)

  unfoldable pub matcher_match : Option RouteMatcher → Result RouteMatch
  unfolding runtime_fraction
  matcher_match none = ok match_all
  matcher_match (some m) = do
    fraction ← runtime_fraction m.fraction
    headers ← map_from (λ _. make_metadata_matcher) 0 m.metadata
    ok (record {
      path_specifier = path_specifier m;
      runtime_fraction = fraction;
      headers = headers;
    })

  unfoldable pub make_route_match : Route → Result RouteMatch
  unfolding matcher_match
  make_route_match spec = matcher_match spec.matcher
