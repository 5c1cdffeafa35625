-- ===== src/Errors.antt =====
-- The errors of the gtc package, and what a call comes to: a value, an error, or a Go panic (an index
-- out of range, a nil pointer). An error of a library that the source calls is `external`.
pub mod Loops
use grpc_traffic_controller.Prelude.{ℤ, Text, ◌≡◌, refl, sym, ◌∙◌, ◌⊎◌, inl, inr, arith}
use grpc_traffic_controller.Api.{GrpcListener}

pub data Error : Type 0 where
  malformed_resource_name : Text → Error
  malformed_listener_resource_name : Text → Error
  unsupported_resource_type : Text → Error
  route_not_found : (want_route_id : ℤ) → GrpcListener → Error
  backend_not_found : (route_id want_backend_id : ℤ) → GrpcListener → Error
  unsupported_denominator : Text → Error
  malformed_filter : Error
  malformed_filter_override : Error
  malformed_delay_fault_filter : Error
  malformed_abort_fault_filter : Error
  invalid_header_matcher : Error
  unsupported_engine : Text → Error
  blank_regex : Error
  malformed_hash_policy : Error
  unsupported_backend : Error
  no_desired_port : Error
  external : Text → Error

pub data Result {ℓ} (A : Type ℓ) : Type ℓ where
  ok : A → Result A
  err : Error → Result A
  panic : Result A

infixl 5 ◌>>=◌
abbrev pub ◌>>=◌ {ℓ κ} : {A : Type ℓ} {B : Type κ} → Result A → (A → Result B) → Result B
panic >>= next = panic
ok value >>= next = next value
err e >>= next = err e

-- A library call that reports an error or returns a value.
abbrev pub lift {ℓ} : {A : Type ℓ} → Error ⊎ A → Result A
lift (inl e) = err e
lift (inr a) = ok a

-- The same, handed to what needs it.
pub bind_ok {ℓ κ μ} :
    {A : Type ℓ} {B : Type κ} {P : Type μ} {b : B} (m : Result A) {f : A → Result B}
    → (m >>= f) ≡ ok b
    → ((a : A) → m ≡ ok a → f a ≡ ok b → P)
    → P
bind_ok (ok a) h k = k a refl h
bind_ok (err e) h k = absurd (cc)
bind_ok panic h k = absurd (cc)

-- The value of a bind that succeeds, with the equations of both parts.
pub >>=-eq-ok {ℓ κ} :
    {A : Type ℓ} {B : Type κ} (call : Result A) (next : A → Result B) {out : B}
    → (call >>= next) ≡ ok out
    → (value : A) × (call ≡ ok value) × (next value ≡ ok out)
>>=-eq-ok call next returns =
    bind_ok call returns λ value called continued. (value, called, continued)

pub lift-eq-ok {ℓ} : {A : Type ℓ} (m : Error ⊎ A) {a : A} → lift m ≡ ok a → m ≡ inr a
lift-eq-ok (inl e) h = cc
lift-eq-ok (inr a) h = ground arith

-- What a call comes to, with its equation.
pub data Outcome {ℓ} {A : Type ℓ} (m : Result A) : Type ℓ where
  is_ok : (a : A) → m ≡ ok a → Outcome m
  is_err : (e : Error) → m ≡ err e → Outcome m
  is_panic : m ≡ panic → Outcome m

pub Result-cases {ℓ} : {A : Type ℓ} (m : Result A) → Outcome m
Result-cases (ok a) = is_ok a refl
Result-cases (err e) = is_err e refl
Result-cases panic = is_panic refl

pub ok_injective {ℓ} : {A : Type ℓ} {r : Result A} {a b : A} → r ≡ ok a → r ≡ ok b → a ≡ b
ok_injective {A} {r} {a} {b} e e' = let same : ok a ≡ ok b = sym e ∙ e' in cc
