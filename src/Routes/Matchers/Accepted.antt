-- ===== src/Routes/Matchers/Accepted.antt =====
-- gtc/route.go: which metadata matchers are accepted, and what they become.
use grpc_traffic_controller.Prelude.{
  ◌≡◌, refl, ◌↔◌, ◌≢◌, ◌∙◌, ap, inl, inr, Text, codes, [], ◌∷◌, Option, some, none, Bool, arith,
  Option-cases, text_eq_iff,
}
use grpc_traffic_controller.Api.{
  MetadataMatcher, RegexMatcher, RangeMatcher, Route, RouteMatcher, MethodMatcher, ServiceMatcher,
  method_path, service_prefix,
}
use grpc_traffic_controller.Errors.{ok, ◌>>=◌, bind_ok}
use grpc_traffic_controller.Errors.Loops.{map_from, Forall₂, map_from-Forall₂, Forall₂-map_from}
use grpc_traffic_controller.Envoy
use grpc_traffic_controller.Envoy.{
  Library, HeaderMatchSpecifier, exact_match, safe_regex_match, range_match, present_match,
  prefix_match, suffix_match, RouteMatch, PathSpecifier, path, prefix as prefix_path,
}
use grpc_traffic_controller.Routes.Matchers.{
  match_all, make_regex_matcher, header_match_specifier, make_metadata_matcher, path_specifier,
  runtime_fraction, matcher_match, make_route_match,
}

-- A regex of the engine re2 that is not blank.
pub record IsRegex (spec : RegexMatcher) : Type 0 where
  pub engine_is : spec.engine ≡ codes "re2"
  pub not_blank : spec.regex ≢ []

-- The alternative of a metadata matcher that counts: the first that is set.
pub data Chosen (m : MetadataMatcher) : HeaderMatchSpecifier → Type 0 where
  exact : (t : Text) → m.exact ≡ some t → Chosen m (exact_match t)
  regex :
      (x : RegexMatcher)
      → m.exact ≡ none
      → m.regex ≡ some x
      → IsRegex x
      → Chosen m (safe_regex_match (record { regex = x.regex }))
  range :
      (x : RangeMatcher)
      → m.exact ≡ none
      → m.regex ≡ none
      → m.range ≡ some x
      → Chosen m (range_match x.start x.end)
  present :
      (b : Bool)
      → m.exact ≡ none
      → m.regex ≡ none
      → m.range ≡ none
      → m.present ≡ some b
      → Chosen m (present_match b)
  prefix :
      (t : Text)
      → m.exact ≡ none
      → m.regex ≡ none
      → m.range ≡ none
      → m.present ≡ none
      → m.prefix ≡ some t
      → Chosen m (prefix_match t)
  suffix :
      (t : Text)
      → m.exact ≡ none
      → m.regex ≡ none
      → m.range ≡ none
      → m.present ≡ none
      → m.prefix ≡ none
      → m.suffix ≡ some t
      → Chosen m (suffix_match t)

regex_sound :
    (x : RegexMatcher) (y : Envoy.RegexMatcher)
    → make_regex_matcher x ≡ ok y
    → IsRegex x × (y ≡ record { regex = x.regex })
unfolding make_regex_matcher
regex_sound x y e = (
  record {
    engine_is = ground (arith, text_eq_iff x.engine (codes "re2"));
    not_blank = λ blank. ground (arith, text_eq_iff x.regex []);
  },
  ground arith,
)

regex_complete :
    (x : RegexMatcher) → IsRegex x → make_regex_matcher x ≡ ok (record { regex = x.regex })
unfolding make_regex_matcher
regex_complete x h =
    ground
      (arith, text_eq_iff x.engine (codes "re2"), text_eq_iff x.regex [], h.engine_is, h.not_blank)

specifier_complete :
    (m : MetadataMatcher) (s : HeaderMatchSpecifier) → Chosen m s → header_match_specifier m ≡ ok s
unfolding header_match_specifier
specifier_complete m _ (exact t e) = ground arith
specifier_complete m _ (regex x e₁ e₂ is) = ground (arith, regex_complete x is)
specifier_complete m _ (range x e₁ e₂ e₃) = ground arith
specifier_complete m _ (present b e₁ e₂ e₃ e₄) = ground arith
specifier_complete m _ (prefix t e₁ e₂ e₃ e₄ e₅) = ground arith
specifier_complete m _ (suffix t e₁ e₂ e₃ e₄ e₅ e₆) = ground arith

specifier_sound :
    (m : MetadataMatcher) (s : HeaderMatchSpecifier) → header_match_specifier m ≡ ok s → Chosen m s
unfolding header_match_specifier
specifier_sound m s e = elim (Option-cases m.exact) [
  | inr (t, e₁) ↦ let same : exact_match t ≡ s = ground arith in rw (← same) (exact t e₁)
  | inl e₁ ↦ elim (Option-cases m.regex) [
    | inr (x, e₂) ↦
        let chain : (make_regex_matcher x >>= (λ y. ok (safe_regex_match y))) ≡ ok s =
          ground arith in
        bind_ok (make_regex_matcher x) chain λ y made e'.
          let (is, shape) = regex_sound x y made in
          let same : safe_regex_match (record { regex = x.regex }) ≡ s = ground arith in
          rw (← same) (regex x e₁ e₂ is)
    | inl e₂ ↦ elim (Option-cases m.range) [
      | inr (x, e₃) ↦
          let same : range_match x.start x.end ≡ s = ground arith in rw (← same) (range x e₁ e₂ e₃)
      | inl e₃ ↦ elim (Option-cases m.present) [
        | inr (b, e₄) ↦
            let same : present_match b ≡ s = ground arith in rw (← same) (present b e₁ e₂ e₃ e₄)
        | inl e₄ ↦ elim (Option-cases m.prefix) [
          | inr (t, e₅) ↦
              let same : prefix_match t ≡ s = ground arith in rw (← same) (prefix t e₁ e₂ e₃ e₄ e₅)
          | inl e₅ ↦ elim (Option-cases m.suffix) [
            | inr (t, e₆) ↦
                let same : suffix_match t ≡ s = ground arith in
                rw (← same) (suffix t e₁ e₂ e₃ e₄ e₅ e₆)
            | inl e₆ ↦ absurd (ground arith)
          ]
        ]
      ]
    ]
  ]
]

-- The header matcher that stands for a metadata matcher.
pub record IsHeaderMatcher (m : MetadataMatcher) (h : Envoy.HeaderMatcher) : Type 0 where
  pub named : h.name ≡ m.name
  pub inverted : h.invert_match ≡ m.invert
  pub chosen : Chosen m h.specifier

-- A metadata matcher is accepted exactly when one of its alternatives is set, and the first that is
-- set is not a regex that is blank or of another engine than re2; it becomes a header matcher with
-- its name, its inversion and that alternative.
pub make_metadata_matcher-eq-ok_iff :
    (m : MetadataMatcher) (h : Envoy.HeaderMatcher)
    → (make_metadata_matcher m ≡ ok h) ↔ IsHeaderMatcher m h
unfolding make_metadata_matcher
make_metadata_matcher-eq-ok_iff m h = (to, from)
  where
    to : make_metadata_matcher m ≡ ok h → IsHeaderMatcher m h
    to e = bind_ok (header_match_specifier m) e λ s made e₁.
        let same : s ≡ h.specifier = ground arith in
        record {
          named = ground arith;
          inverted = ground arith;
          chosen = rw same at (specifier_sound m s made);
        }

    from : IsHeaderMatcher m h → make_metadata_matcher m ≡ ok h
    from is = rw (specifier_complete m h.specifier is.chosen, ← is.named, ← is.inverted)

-- The path of a matcher: that of its method, or else of its service, or else of its namespace.
pub data ChosenPath (m : RouteMatcher) : PathSpecifier → Type 0 where
  by_method : (x : MethodMatcher) → m.method ≡ some x → ChosenPath m (path (method_path x))
  by_service :
      (x : ServiceMatcher)
      → m.method ≡ none
      → m.service ≡ some x
      → ChosenPath m (prefix_path (service_prefix x))
  by_namespace :
      (x : Text)
      → m.method ≡ none
      → m.service ≡ none
      → m.namespace ≡ some x
      → ChosenPath m (prefix_path (b'/' ∷ x))
  by_default :
      m.method ≡ none
      → m.service ≡ none
      → m.namespace ≡ none
      → ChosenPath m (prefix_path (codes "/"))

path_complete : (m : RouteMatcher) (p : PathSpecifier) → ChosenPath m p → p ≡ path_specifier m
unfolding path_specifier
path_complete m _ (by_method x e) = ground arith
path_complete m _ (by_service x e₁ e₂) = ground arith
path_complete m _ (by_namespace x e₁ e₂ e₃) = ground arith
path_complete m _ (by_default e₁ e₂ e₃) = ground arith

path_sound : (m : RouteMatcher) (p : PathSpecifier) → p ≡ path_specifier m → ChosenPath m p
unfolding path_specifier
path_sound m p e = elim (Option-cases m.method) [
  | inr (x, e₁) ↦ let same : path (method_path x) ≡ p = ground arith in rw (← same) (by_method x e₁)
  | inl e₁ ↦ elim (Option-cases m.service) [
    | inr (x, e₂) ↦
        let same : prefix_path (service_prefix x) ≡ p = ground arith in
        rw (← same) (by_service x e₁ e₂)
    | inl e₂ ↦ elim (Option-cases m.namespace) [
      | inr (x, e₃) ↦
          let same : prefix_path (b'/' ∷ x) ≡ p = ground arith in
          rw (← same) (by_namespace x e₁ e₂ e₃)
      | inl e₃ ↦
          let same : prefix_path (codes "/") ≡ p = ground arith in rw (← same) (by_default e₁ e₂ e₃)
    ]
  ]
]

module _ (lib : Library) where
  -- The match of an optional matcher: without one it is every path.
  pub data IsMatch : Option RouteMatcher → RouteMatch → Type 0 where
    every_path : IsMatch none match_all
    matching :
        (m : RouteMatcher) (r : RouteMatch)
        → ChosenPath m r.path_specifier
        → runtime_fraction lib m.fraction ≡ ok r.runtime_fraction
        → Forall₂ IsHeaderMatcher m.metadata r.headers
        → IsMatch (some m) r

  matcher_match_sound :
      (m : Option RouteMatcher) (r : RouteMatch) → matcher_match lib m ≡ ok r → IsMatch m r
  unfolding matcher_match
  matcher_match_sound none r e = let same : match_all ≡ r = ground arith in rw (← same) every_path
  matcher_match_sound (some m) r e = bind_ok (runtime_fraction lib m.fraction) e λ f found e₁.
      bind_ok (map_from (λ _. make_metadata_matcher) 0 m.metadata) e₁ λ hs made e₂.
        let eq_f : f ≡ r.runtime_fraction = ground arith in
        let eq_h : hs ≡ r.headers = ground arith in
        matching m r (path_sound m r.path_specifier (ground arith)) (found ∙ ap ok eq_f) (
          map_from-Forall₂ make_metadata_matcher make_metadata_matcher-eq-ok_iff 0 m.metadata
            r.headers (made ∙ ap ok eq_h))

  matcher_match_complete :
      (m : Option RouteMatcher) (r : RouteMatch) → IsMatch m r → matcher_match lib m ≡ ok r
  unfolding matcher_match
  matcher_match_complete _ _ every_path = refl
  matcher_match_complete _ _ (matching m r chosen fraction headers) = rw (
    fraction,
    Forall₂-map_from make_metadata_matcher make_metadata_matcher-eq-ok_iff 0 m.metadata r.headers
        headers,
    path_complete m r.path_specifier chosen,
  )

  -- A route's match is made exactly where its fraction has a known denominator and its metadata
  -- matchers are accepted; it has the path of the most specific of method, service and namespace, and
  -- one header matcher for each metadata matcher, in order. A route without a matcher matches every
  -- path.
  pub make_route_match-eq-ok_iff :
      (spec : Route) (r : RouteMatch) → (make_route_match lib spec ≡ ok r) ↔ IsMatch spec.matcher r
  unfolding make_route_match
  make_route_match-eq-ok_iff spec r =
      (matcher_match_sound spec.matcher r, matcher_match_complete spec.matcher r)
