-- ===== src/Tests/Serving.antt =====
-- A client that asks for the clusters of the sample listener.
use grpc_traffic_controller.Prelude.{
  ◌≡◌, ◌↔◌, sym, ◌∙◌, All, filter_map, ◌⊎◌, refl, Text, codes, List, [], ◌∷◌, ◌++◌, Option, none,
  some, pos, ℕ, In, here, there, inr, Bool, true, false, ◌&&◌, ◌||◌, not, ◌==◌,
}
use grpc_traffic_controller.Errors.{ok, err, panic, malformed_resource_name}
use grpc_traffic_controller.Resources.{ResolveRequest, ResolveResponse, ResourceResolver}
use grpc_traffic_controller.Watches.{ResourceRef}
use grpc_traffic_controller.ConfigWatcher.{
  config_resolver, Request, CacheResponse, Event, changed, cancelled, closed, serve_changes,
  change_request, first_request, serve,
}
use grpc_traffic_controller.ConfigWatcher.First.{IsOpening, IsCalmFirst, serve-eq-ok}
use grpc_traffic_controller.ConfigWatcher.Serving.{
  IsCalm, answer_to, before_end, serve_changes-eq-ok_iff, serve_changes-skip,
}
use grpc_traffic_controller.ConfigWatcher.Resolvers.{IsResponse, config_resolver-IsResponse}
use grpc_traffic_controller.Tests.Samples.{lib, listers, node, value_or}

abbrev resolve : ResourceResolver
resolve = config_resolver lib listers

abbrev req : Request
req = record {
  type_url = codes "Cluster";
  resource_names =
      codes "default/echo/route/0/backend/0" ∷ codes "default/echo/route/0/backend/1" ∷ [];
  node = some node;
}

abbrev second : ResourceRef
second = record {
  type_url = codes "Cluster";
  resource_name = codes "default/echo/route/0/backend/1";
}

abbrev gone : ResourceRef
gone = record { type_url = codes "Cluster"; resource_name = codes "default/echo" }

abbrev events : List Event
events =
    changed gone resolve true
    ∷ changed second resolve true
    ∷ cancelled
    ∷ changed second resolve true
    ∷ []

abbrev answer : CacheResponse
answer = record {
  req = req;
  resp = record {
    type_url = codes "Cluster";
    resources = record { type_url = codes "Cluster"; value = codes "bytes" } ∷ [];
    written = codes "7";
  };
}

resolves_second : resolve (change_request resolve req second) ≡ ok answer.resp
unfolding config_resolver grpc_traffic_controller.Prelude.text_eq
    grpc_traffic_controller.Clusters.resolve_clusters
    grpc_traffic_controller.Resources.resolve_names grpc_traffic_controller.Names.parse_backend_name
    grpc_traffic_controller.Prelude.split grpc_traffic_controller.Go.Strconv.atoi
    grpc_traffic_controller.Clusters.find_backend_spec
    grpc_traffic_controller.Resolver.encode_resource
resolves_second = refl

fails :
    resolve (change_request resolve req gone) ≡ err (malformed_resource_name (codes "default/echo"))
unfolding config_resolver grpc_traffic_controller.Prelude.text_eq
    grpc_traffic_controller.Clusters.resolve_clusters
    grpc_traffic_controller.Resources.resolve_names grpc_traffic_controller.Names.parse_backend_name
    grpc_traffic_controller.Prelude.split
fails = refl

calm : All (IsCalm req) (before_end req events)
calm = (
  λ panics. let never : err _ ≡ panic = sym fails ∙ panics in cc,
  (λ panics. let never : ok _ ≡ panic = sym resolves_second ∙ panics in cc, tt),
)

answers_events : answer ∷ [] ≡ filter_map (answer_to req) (before_end req events)
unfolding filter_map
answers_events = rw (fails, resolves_second) refl

serve_changes-eq-ok_iff_example : (serve_changes req events ≡ ok (answer ∷ [])) ↔ (
    (All (IsCalm req) (before_end req events))
    × (answer ∷ [] ≡ filter_map (answer_to req) (before_end req events)))
serve_changes-eq-ok_iff_example = serve_changes-eq-ok_iff req events (answer ∷ [])

serve_changes-skip_example :
    serve_changes req (changed second resolve true ∷ changed gone resolve true ∷ closed ∷ [])
    ≡ serve_changes req (changed second resolve true ∷ closed ∷ [])
serve_changes-skip_example =
    serve_changes-skip req (changed second resolve true ∷ []) (closed ∷ []) gone resolve true
      (malformed_resource_name (codes "default/echo")) fails

abbrev both : ResolveResponse
both = value_or answer.resp (resolve (first_request resolve req))

resolves_both : resolve (first_request resolve req) ≡ ok both
unfolding config_resolver grpc_traffic_controller.Prelude.text_eq
    grpc_traffic_controller.Clusters.resolve_clusters
    grpc_traffic_controller.Resources.resolve_names grpc_traffic_controller.Names.parse_backend_name
    grpc_traffic_controller.Prelude.split grpc_traffic_controller.Go.Strconv.atoi
    grpc_traffic_controller.Clusters.find_backend_spec
    grpc_traffic_controller.Resolver.encode_resource
resolves_both = refl

config_resolver-IsResponse_example : IsResponse lib listers (first_request resolve req) both
config_resolver-IsResponse_example =
    config_resolver-IsResponse lib listers (first_request resolve req) both resolves_both

calm_first : IsCalmFirst resolve (codes "default/echo/route/0/backend/0" ∷ []) req true
calm_first differs panics = let never : ok both ≡ panic = sym resolves_both ∙ panics in cc

serve-eq-ok_example :
    (first : List CacheResponse) × IsOpening resolve
      (codes "default/echo/route/0/backend/0" ∷ [])
      req
      true
      first
    × (serve resolve (codes "default/echo/route/0/backend/0" ∷ []) req true events
        ≡ ok (first ++ filter_map (answer_to req) (before_end req events)))
serve-eq-ok_example =
    serve-eq-ok resolve (codes "default/echo/route/0/backend/0" ∷ []) req true events calm_first
      calm
