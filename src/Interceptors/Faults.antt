-- ===== src/Interceptors/Faults.antt =====
-- gtc/interceptor.go: which fault interceptors are accepted, and what the filter holds.
use grpc_traffic_controller.Prelude.{
  ℕ, ℤ, ◌≡◌, refl, ◌↔◌, inl, inr, Option, some, none, arith, ◌∙◌, to_upper, Option-cases, ap,
}
use grpc_traffic_controller.Api.{FaultInterceptor, FaultDelay, FaultAbort, Fraction, MetadataFault}
use grpc_traffic_controller.Errors.{ok, bind_ok}
use grpc_traffic_controller.Envoy
use grpc_traffic_controller.Envoy.{
  Library, HttpFault, FractionalPercent, FaultDelaySpecifier, fixed_delay, header_delay,
  FaultAbortErrorType, grpc_status, header_abort,
}
use grpc_traffic_controller.Resolver.{make_fractional_percent}
use grpc_traffic_controller.Interceptors.{
  make_fault_filter, make_percentage, make_fault_delay, make_fault_abort, delay_specifier,
  abort_error_type,
}

module _ (lib : Library) where
  -- The percentage of an optional fraction, whose denominator is read in upper case.
  pub data IsPercentage : Option Fraction → Option FractionalPercent → Type 0 where
    no_fraction : IsPercentage none none
    fraction :
        (p : Fraction) (d : ℕ)
        → lib.denominator_value (to_upper p.denominator) ≡ some d
        → IsPercentage (some p) (some (record { numerator = p.numerator; denominator = d }))

  -- A fixed delay comes before one that the call's metadata control.
  pub data IsDelay : FaultDelay → FaultDelaySpecifier → Type 0 where
    fixed :
        (d : FaultDelay) (duration : ℤ)
        → d.fixed ≡ some duration
        → IsDelay d (fixed_delay (lib.new_duration duration))
    from_metadata :
        (d : FaultDelay) (m : MetadataFault)
        → d.fixed ≡ none
        → d.metadata ≡ some m
        → IsDelay d header_delay

  -- A status code comes before one that the call's metadata control.
  pub data IsAbort : FaultAbort → FaultAbortErrorType → Type 0 where
    coded : (a : FaultAbort) (code : ℕ) → a.code ≡ some code → IsAbort a (grpc_status code)
    from_metadata :
        (a : FaultAbort) (m : MetadataFault)
        → a.code ≡ none
        → a.metadata ≡ some m
        → IsAbort a header_abort

  pub data IsFaultDelay : Option FaultDelay → Option Envoy.FaultDelay → Type 0 where
    no_delay : IsFaultDelay none none
    delay :
        (d : FaultDelay) (x : Envoy.FaultDelay)
        → IsDelay d x.specifier
        → IsPercentage d.percentage x.percentage
        → IsFaultDelay (some d) (some x)

  pub data IsFaultAbort : Option FaultAbort → Option Envoy.FaultAbort → Type 0 where
    no_abort : IsFaultAbort none none
    abort :
        (a : FaultAbort) (x : Envoy.FaultAbort)
        → IsAbort a x.error_type
        → IsPercentage a.percentage x.percentage
        → IsFaultAbort (some a) (some x)

  -- The filter that stands for a fault interceptor.
  pub record IsFilterOf (f : FaultInterceptor) (h : HttpFault) : Type 0 where
    pub delayed : IsFaultDelay f.delay h.delay
    pub aborted : IsFaultAbort f.abort h.abort
    pub bounded : h.max_active_faults ≡ f.max_active_faults

  IsPercentage-sound :
      (p : Option Fraction) (x : Option FractionalPercent)
      → make_percentage lib p ≡ ok x
      → IsPercentage p x
  unfolding make_percentage make_fractional_percent
  IsPercentage-sound none x e = let same : none ≡ x = ground arith in rw (← same) no_fraction
  IsPercentage-sound (some p) x e =
      elim (Option-cases (lib.denominator_value (to_upper p.denominator))) [
        | inl missing ↦ absurd (ground arith)
        | inr (d, found) ↦
            let same : some (record { numerator = p.numerator; denominator = d }) ≡ x =
              ground arith in
            rw (← same) (fraction p d found)
      ]

  percentage_complete :
      (p : Option Fraction) (x : Option FractionalPercent)
      → IsPercentage p x
      → make_percentage lib p ≡ ok x
  unfolding make_percentage make_fractional_percent
  percentage_complete _ _ no_fraction = refl
  percentage_complete _ _ (fraction p d found) = ground arith

  IsDelay-sound :
      (d : FaultDelay) (x : FaultDelaySpecifier) → delay_specifier lib d ≡ ok x → IsDelay d x
  unfolding delay_specifier
  IsDelay-sound d x e = elim (Option-cases d.fixed) [
    | inr (duration, set) ↦
        let same : fixed_delay (lib.new_duration duration) ≡ x = ground arith in
        rw (← same) (fixed d duration set)
    | inl unset ↦ elim (Option-cases d.metadata) [
      | inl missing ↦ absurd (ground arith)
      | inr (m, set) ↦
          let same : header_delay ≡ x = ground arith in
          rw (← same) (IsDelay.from_metadata d m unset set)
    ]
  ]

  delay_complete :
      (d : FaultDelay) (x : FaultDelaySpecifier) → IsDelay d x → delay_specifier lib d ≡ ok x
  unfolding delay_specifier
  delay_complete _ _ (fixed d duration set) = ground arith
  delay_complete _ _ (from_metadata d m unset set) = ground arith

  abort_sound :
      (a : FaultAbort) (x : FaultAbortErrorType) → abort_error_type lib a ≡ ok x → IsAbort a x
  unfolding abort_error_type
  abort_sound a x e = elim (Option-cases a.code) [
    | inr (code, set) ↦
        let same : grpc_status code ≡ x = ground arith in rw (← same) (coded a code set)
    | inl unset ↦ elim (Option-cases a.metadata) [
      | inl missing ↦ absurd (ground arith)
      | inr (m, set) ↦
          let same : header_abort ≡ x = ground arith in
          rw (← same) (IsAbort.from_metadata a m unset set)
    ]
  ]

  abort_complete :
      (a : FaultAbort) (x : FaultAbortErrorType) → IsAbort a x → abort_error_type lib a ≡ ok x
  unfolding abort_error_type
  abort_complete _ _ (coded a code set) = ground arith
  abort_complete _ _ (from_metadata a m unset set) = ground arith

  fault_delay_sound :
      (d : Option FaultDelay) (x : Option Envoy.FaultDelay)
      → make_fault_delay lib d ≡ ok x
      → IsFaultDelay d x
  unfolding make_fault_delay
  fault_delay_sound none x e = let same : none ≡ x = ground arith in rw (← same) no_delay
  fault_delay_sound (some d) x e = bind_ok (delay_specifier lib d) e λ s made e₁.
      bind_ok (make_percentage lib d.percentage) e₁ λ p found e₂.
        let same : some (record { specifier = s; percentage = p }) ≡ x = ground arith in
        rw (← same) (delay d _ (IsDelay-sound d s made) (IsPercentage-sound d.percentage p found))

  fault_abort_sound :
      (a : Option FaultAbort) (x : Option Envoy.FaultAbort)
      → make_fault_abort lib a ≡ ok x
      → IsFaultAbort a x
  unfolding make_fault_abort
  fault_abort_sound none x e = let same : none ≡ x = ground arith in rw (← same) no_abort
  fault_abort_sound (some a) x e = bind_ok (abort_error_type lib a) e λ s made e₁.
      bind_ok (make_percentage lib a.percentage) e₁ λ p found e₂.
        let same : some (record { error_type = s; percentage = p }) ≡ x = ground arith in
        rw (← same) (abort a _ (abort_sound a s made) (IsPercentage-sound a.percentage p found))

  fault_delay_complete :
      (d : Option FaultDelay) (x : Option Envoy.FaultDelay)
      → IsFaultDelay d x
      → make_fault_delay lib d ≡ ok x
  unfolding make_fault_delay
  fault_delay_complete _ _ no_delay = refl
  fault_delay_complete _ _ (delay d x is percent) =
      rw (delay_complete d x.specifier is, percentage_complete d.percentage x.percentage percent)

  fault_abort_complete :
      (a : Option FaultAbort) (x : Option Envoy.FaultAbort)
      → IsFaultAbort a x
      → make_fault_abort lib a ≡ ok x
  unfolding make_fault_abort
  fault_abort_complete _ _ no_abort = refl
  fault_abort_complete _ _ (abort a x is percent) =
      rw (abort_complete a x.error_type is, percentage_complete a.percentage x.percentage percent)

  -- A fault interceptor gives a filter exactly when the filter has its delay and its abort, those that are
  -- set, a fixed value before metadata, with percentages of known denominators, and its bound of active
  -- faults; whatever its headers are, although its documentation says that the filter matches on them.
  pub make_fault_filter-eq-ok_iff :
      (f : FaultInterceptor) (h : HttpFault) → (make_fault_filter lib f ≡ ok h) ↔ IsFilterOf f h
  unfolding make_fault_filter
  make_fault_filter-eq-ok_iff f h = (to, from)
    where
      to : make_fault_filter lib f ≡ ok h → IsFilterOf f h
      to e = bind_ok (make_fault_delay lib f.delay) e λ d delays e₁.
          bind_ok (make_fault_abort lib f.abort) e₁ λ a aborts e₂.
            let eq_d : d ≡ h.delay = ground arith in
            let eq_a : a ≡ h.abort = ground arith in
            record {
              delayed = fault_delay_sound f.delay h.delay (delays ∙ ap ok eq_d);
              aborted = fault_abort_sound f.abort h.abort (aborts ∙ ap ok eq_a);
              bounded = ground arith;
            }

      from : IsFilterOf f h → make_fault_filter lib f ≡ ok h
      from is = rw (
        fault_delay_complete f.delay h.delay is.delayed,
        fault_abort_complete f.abort h.abort is.aborted,
        ← is.bounded,
      )
