-- ===== src/Routes/Policies/Hashing.antt =====
-- gtc/route.go: which hash policies are accepted, and what they become.
use grpc_traffic_controller.Prelude.{
  ◌≡◌, codes, List, [], ◌∷◌, Option, some, none, Bool, true, text_eq, ◌↔◌, ◌≢◌, inl, inr,
  Bool-cases, text_eq→eq, text_eq_iff, arith,
}
use grpc_traffic_controller.Api.{HashPolicy}
use grpc_traffic_controller.Errors.{ok}
use grpc_traffic_controller.Errors.Loops.{map_from, Forall₂, map_from-Forall₂, Forall₂-map_from}
use grpc_traffic_controller.Envoy
use grpc_traffic_controller.Envoy.{header, filter_state}
use grpc_traffic_controller.Routes.Policies.{is_set, make_one_hash_policy, make_hash_policy}

-- A policy by a metadata key comes before one by the channel.
pub data IsHashPolicy : HashPolicy → Envoy.HashPolicy → Type 0 where
  by_metadata :
      (p : HashPolicy) (x : Envoy.HashPolicy)
      → p.metadata ≢ []
      → x ≡ record { specifier = header p.metadata; terminal = p.terminal }
      → IsHashPolicy p x
  by_channel :
      (p : HashPolicy) (x : Envoy.HashPolicy)
      → p.metadata ≡ []
      → p.channel ≡ some true
      → x ≡ record { specifier = filter_state (codes "io.grpc.channel_id"); terminal = p.terminal }
      → IsHashPolicy p x

is_set-eq-true : (b : Option Bool) → is_set b ≡ true → b ≡ some true
is_set-eq-true none e = cc
is_set-eq-true (some b) e = ground arith

make_one_hash_policy-eq-ok_iff :
    (p : HashPolicy) (x : Envoy.HashPolicy) → (make_one_hash_policy p ≡ ok x) ↔ IsHashPolicy p x
unfolding make_one_hash_policy
make_one_hash_policy-eq-ok_iff p x = (to, from)
  where
    to : make_one_hash_policy p ≡ ok x → IsHashPolicy p x
    to e = elim (Bool-cases (text_eq p.metadata [])) [
      | inl empty ↦ elim (Bool-cases (is_set p.channel)) [
        | inl set ↦
            by_channel p x (text_eq→eq p.metadata [] empty) (is_set-eq-true p.channel set)
              (ground arith)
        | inr unset ↦ absurd (ground arith)
      ]
      | inr keyed ↦ by_metadata p x (λ h. ground (arith, text_eq_iff p.metadata [])) (ground arith)
    ]

    from : IsHashPolicy p x → make_one_hash_policy p ≡ ok x
    from (by_metadata _ _ keyed same) = ground (arith, text_eq_iff p.metadata [])
    from (by_channel _ _ empty set same) = ground (arith, text_eq_iff p.metadata [])

-- The hash policies of a route are made exactly where each policy has a metadata key or asks for the
-- channel, and are then one for each policy, in order: by its key, or else by the channel's id.
pub make_hash_policy-eq-ok_iff :
    (ps : List HashPolicy) (xs : List Envoy.HashPolicy)
    → (make_hash_policy ps ≡ ok xs) ↔ Forall₂ IsHashPolicy ps xs
unfolding make_hash_policy map_from
make_hash_policy-eq-ok_iff [] xs = (
  map_from-Forall₂ make_one_hash_policy make_one_hash_policy-eq-ok_iff 0 [] xs,
  Forall₂-map_from make_one_hash_policy make_one_hash_policy-eq-ok_iff 0 [] xs,
)
make_hash_policy-eq-ok_iff (p ∷ ps) xs = (
  map_from-Forall₂ make_one_hash_policy make_one_hash_policy-eq-ok_iff 0 (p ∷ ps) xs,
  Forall₂-map_from make_one_hash_policy make_one_hash_policy-eq-ok_iff 0 (p ∷ ps) xs,
)
