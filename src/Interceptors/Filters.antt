-- ===== src/Interceptors/Filters.antt =====
-- gtc/interceptor.go: the chain of filters of a listener, and the overrides of a route or a backend.
use grpc_traffic_controller.Prelude.{
  ℕ, ◌≡◌, refl, ◌∙◌, ap, Text, List, [], ◌∷◌, ◌++◌, Option, some, none, arith, length, get_elem?,
  text_eq_refl,
}
use grpc_traffic_controller.Api.{Interceptor, FaultInterceptor}
use grpc_traffic_controller.Errors.{ok, bind_ok}
use grpc_traffic_controller.Errors.Loops.{map_from, length-map_from, get_elem?-map_from}
use grpc_traffic_controller.Envoy.{Library, Any, HttpFilter, router}
use grpc_traffic_controller.Resolver.{must_any}
use grpc_traffic_controller.Interceptors.{
  make_filter, make_filters, make_filter_override, make_filter_overrides, collect_overrides,
  set_override, override_or_malformed, fault_config,
}

module _ (lib : Library) where
  -- The chain of filters has one for each interceptor, in order, and then the router.
  pub record IsChainOf (interceptors : List Interceptor) (filters : List HttpFilter) : Type 0 where
    pub front : List HttpFilter
    pub last : HttpFilter
    pub split : filters ≡ front ++ last ∷ []
    pub router_named : last.name ≡ lib.router_name
    pub router_packed : must_any lib router ≡ ok last.typed_config
    pub count : length front ≡ length interceptors
    pub filter_at :
        (j : ℕ) (spec : Interceptor)
        → get_elem? interceptors j ≡ some spec
        → (f : HttpFilter) × (get_elem? front j ≡ some f) × (make_filter lib spec ≡ ok f)

  -- The filters that are made are one for each interceptor, in order, and then the router.
  pub make_filters-IsChainOf :
      (interceptors : List Interceptor) (filters : List HttpFilter)
      → make_filters lib interceptors ≡ ok filters
      → IsChainOf interceptors filters
  unfolding make_filters
  make_filters-IsChainOf interceptors filters e =
      bind_ok (must_any lib router) e λ config packed e₁.
        bind_ok (map_from (λ _. make_filter lib) 0 interceptors) e₁ λ front made e₂. record {
          front = front;
          last = record { name = lib.router_name; typed_config = config };
          split = ground arith;
          router_named = refl;
          router_packed = packed;
          count = length-map_from (λ _. make_filter lib) 0 interceptors front made;
          filter_at = λ j spec at.
              let (f, is, found) =
                get_elem?-map_from (λ _. make_filter lib) 0 interceptors front made j spec at in
              (f, found, is);
        }

  -- The last interceptor of a list, if there is one.
  abbrev pub last_of : List Interceptor → Option Interceptor → Option Interceptor
  last_of [] before = before
  last_of (i ∷ is) before = last_of is (some i)

  -- The overrides that an optional interceptor alone gives.
  abbrev pub OverridesOf : Option Interceptor → List (Text × Any) → Type 0
  OverridesOf none overrides = overrides ≡ []
  OverridesOf (some i) overrides =
      (config : Any) × (make_filter_override lib i ≡ ok (lib.fault_name, config))
      × (overrides ≡ (lib.fault_name, config) ∷ [])

  override_or_malformed-named :
      (fault : Option FaultInterceptor) (o : Text × Any)
      → override_or_malformed lib fault ≡ ok o
      → o.0 ≡ lib.fault_name
  unfolding override_or_malformed
  override_or_malformed-named none o e = cc
  override_or_malformed-named (some fault) o e =
      bind_ok (fault_config lib fault) e λ config _ e₁. ground arith

  override-named :
      (i : Interceptor) (o : Text × Any)
      → make_filter_override lib i ≡ ok o
      → ◌≡◌ {A = Text × Any} o (lib.fault_name, o.1)
  unfolding make_filter_override
  override-named i o e = let named = override_or_malformed-named i.fault o e in λ k. (named k, o.1)

  set-OverridesOf :
      (before : Option Interceptor) (overrides : List (Text × Any)) (config : Any)
      → OverridesOf before overrides
      → set_override lib.fault_name config overrides ≡ (lib.fault_name, config) ∷ []
  unfolding set_override
  set-OverridesOf none overrides config h = rw h
  set-OverridesOf (some i) overrides config (old, made, same) =
      rw (same, set_override, text_eq_refl lib.fault_name)

  collect-OverridesOf :
      (interceptors : List Interceptor) (before : Option Interceptor)
      (overrides result : List (Text × Any))
      → OverridesOf before overrides
      → collect_overrides lib overrides interceptors ≡ ok result
      → OverridesOf (last_of interceptors before) result
  unfolding collect_overrides
  collect-OverridesOf [] before overrides result h e =
      let same : overrides ≡ result = ground arith in rw (← same) h
  collect-OverridesOf (i ∷ is) before overrides result h e =
      bind_ok (make_filter_override lib i) e λ o made e₁.
        let named = override-named i o made in
        let set = set-OverridesOf before overrides o.1 h in
        collect-OverridesOf is (some i) (set_override o.0 o.1 overrides) result
          (
            o.1,
            made ∙ ap ok named,
            ap (λ (n : Text × Any). set_override n.0 o.1 overrides) named ∙ set,
          )
          e₁

  -- The overrides that are made of a route or a backend hold one entry, for the fault filter, if there is an
  -- interceptor, and it is that of the last one; without interceptors there is none.
  pub make_filter_overrides_lem :
      (interceptors : List Interceptor) (overrides : List (Text × Any))
      → make_filter_overrides lib interceptors ≡ ok overrides
      → OverridesOf (last_of interceptors none) overrides
  unfolding make_filter_overrides
  make_filter_overrides_lem interceptors overrides e =
      collect-OverridesOf interceptors none [] overrides refl e
