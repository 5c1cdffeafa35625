-- ===== src/Resources/Loop.antt =====
-- What the shared loop of the resolvers comes to.
use grpc_traffic_controller.Prelude.{
  ℕ, suc, ◌≡◌, refl, ◌∙◌, Text, List, [], ◌∷◌, ◌++◌, append_assoc, append-nil, map, arith,
}
use grpc_traffic_controller.Errors.{Result, ok, >>=-eq-ok}
use grpc_traffic_controller.Errors.Loops.{map_from}
use grpc_traffic_controller.Envoy.{Any}
use grpc_traffic_controller.Resources.{ResolveResponse, resolve_names}

abbrev pub written_by : List (Any × Text) → Text
written_by [] = []
written_by ((_, v) ∷ more) = v ++ written_by more

abbrev pub resources_of : List (Any × Text) → List Any
resources_of = map (λ o. o.0)

pub resolve_names_lem :
    (resolve : Text → Result (Any × Text)) (i : ℕ) (names : List Text) (r r' : ResolveResponse)
    → resolve_names resolve names r ≡ ok r'
    → (outs : List (Any × Text)) × (map_from (λ _. resolve) i names ≡ ok outs)
      × (r' ≡ record {
        type_url = r.type_url;
        resources = r.resources ++ resources_of outs;
        written = r.written ++ written_by outs;
      })
unfolding resolve_names map_from
resolve_names_lem resolve i [] r r' e =
    ([], refl, ground (arith, append-nil r.resources, append-nil r.written))
resolve_names_lem resolve i (name ∷ names) r r' e =
    let ((resource, v), here, rest) = >>=-eq-ok (resolve name) _ e in
    let (outs, more, same) = resolve_names_lem resolve (suc i) names _ r' rest in
    ((resource, v) ∷ outs, rw (here, more), same ∙ simp append_assoc)
