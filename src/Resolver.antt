-- ===== src/Resolver.antt =====
-- gtc/xds.go: the conversions that several resolvers share.
use grpc_traffic_controller.Prelude.{ℕ, ℤ, Text, Option, some, none, to_upper}
use grpc_traffic_controller.Api.{Fraction}
use grpc_traffic_controller.Errors.{
  Error, Result, ok, err, panic, lift, ◌>>=◌, unsupported_denominator,
}
use grpc_traffic_controller.Envoy.{Library, Any, FractionalPercent, Duration, Message, Resource}
use mathlib.Core.Logic.{◌⊎◌, inl, inr}

module _ (lib : Library) where
  abbrev pub make_duration : Option ℤ → Option Duration
  make_duration none = none
  make_duration (some d) = some (lib.new_duration d)

  abbrev panic_on_error {ℓ} : {A : Type ℓ} → Error ⊎ A → Result A
  panic_on_error (inl e) = panic
  panic_on_error (inr a) = ok a

  unfoldable pub must_any : Message → Result Any
  must_any msg = panic_on_error (lib.new_any msg)

  percent_of : Fraction → Option ℕ → Result FractionalPercent
  percent_of p none = err (unsupported_denominator p.denominator)
  percent_of p (some d) = ok (record { numerator = p.numerator; denominator = d })

  unfoldable pub make_fractional_percent : Fraction → Result FractionalPercent
  unfolding percent_of
  make_fractional_percent p = percent_of p (lib.denominator_value (to_upper p.denominator))

  unfoldable pub encode_resource : Text → Resource → Result Any
  encode_resource typ r = do
    marshaled ← lift (lib.marshal r)
    ok (record { type_url = typ; value = marshaled })
