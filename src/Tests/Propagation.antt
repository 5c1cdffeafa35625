-- ===== src/Tests/Propagation.antt =====
-- A client that asks for a cluster, and a change of its listener on its way to it.
use grpc_traffic_controller.Prelude.{
  ℕ, ◌≡◌, ◌≢◌, ◌⊎◌, refl, sym, ◌∙◌, ap, Text, codes, List, [], ◌∷◌, ◌++◌, Option, none, some, pos,
  In, here, there, inl, inr, Bool, true, false, ◌&&◌, ◌||◌, if◌then◌else◌, text_eq, text_eq→eq,
  Bool-cases, arith,
}
use grpc_traffic_controller.Api.{GrpcListener}
use grpc_traffic_controller.Errors.{ok, external}
use grpc_traffic_controller.Envoy.{Library, Any, Resource, cluster, ring_hash, round_robin}
use grpc_traffic_controller.Kubernetes.{Listers}
use grpc_traffic_controller.Names.{ParsedBackendName, parse_backend_name, backend_name_text}
use grpc_traffic_controller.Resources.{ResolveResponse}
use grpc_traffic_controller.Watches.{ResourceRef}
use grpc_traffic_controller.ConfigWatcher.{Request, config_resolver, first_request, change_request}
use grpc_traffic_controller.Propagation.{listener_changed, answer, handle_event}
use grpc_traffic_controller.Propagation.Caches.{
  IsCache, IsChange, IsListenerChange, of_listener, IsCanonical,
}
use grpc_traffic_controller.ConfigWatcher.Lifetime.{asks_for}
use grpc_traffic_controller.Propagation.System.{first_content}
use grpc_traffic_controller.Propagation.FirstResponses.{first_content-eq-answer}
use grpc_traffic_controller.Propagation.Coverage.{IsMissed, change_announced}
use grpc_traffic_controller.Tests.Samples
use grpc_traffic_controller.Tests.Samples.{node, route, backend, lis}

-- Clusters are encoded as the name of their policy.
abbrev policy_text : Resource → Text
policy_text (cluster c) = elim c.lb_policy [
  | ring_hash ↦ codes "ring"
  | round_robin ↦ codes "round"
]
policy_text _ = codes "bytes"

abbrev pub lib : Library
lib = record Samples.lib { marshal = λ r. inr (policy_text r) }

-- The sample's listener with its first backend only, under some policy.
abbrev balanced : Text → GrpcListener
balanced policy = record lis {
  spec = record lis.spec {
    routes = record route { backends = record backend { lb_policy = policy } ∷ [] } ∷ [];
  };
}

abbrev pub holding : GrpcListener → Listers
holding l = record {
  get_listener = λ namespace name.
      if text_eq l.namespace namespace && text_eq l.name name
      then inr l
      else inl (external (codes "not found"));
  list_listeners = inr (l ∷ []);
  new_requirement = λ key value. inr (record { key = key; value = value });
  list_slices = λ namespace requirement. inr [];
}

pub holding-IsCache : (l : GrpcListener) → IsCache (holding l)
holding-IsCache l = record {
  all = l ∷ [];
  listed = refl;
  complete = λ namespace name lis' found.
      elim (Bool-cases (text_eq l.namespace namespace && text_eq l.name name)) [
        | inl e ↦ let found' : inr l ≡ inr lis' = rw e at found in here (cc)
        | inr e ↦
            absurd
              (let found' : inl (external (codes "not found")) ≡ inr lis' = rw e at found in cc)
      ];
  keyed = λ namespace name lis' found. elim (Bool-cases (text_eq l.namespace namespace)) [
    | inr e ↦
        absurd (let found' : inl (external (codes "not found")) ≡ inr lis' = rw e at found in cc)
    | inl e ↦ elim (Bool-cases (text_eq l.name name)) [
      | inr e' ↦
          absurd
            (let found' : inl (external (codes "not found")) ≡ inr lis' = rw (e, e') at found in cc)
      | inl e' ↦
          let found' : inr l ≡ inr lis' = rw (e, e') at found in
          let same : l ≡ lis' = cc in
          (
            rw (← same) (text_eq→eq l.namespace namespace e),
            rw (← same) (text_eq→eq l.name name e'),
          )
    ]
  ];
  required = λ key value r made. (ground arith, ground arith);
}

abbrev pub before : GrpcListener
before = balanced (codes "")

abbrev pub after : GrpcListener
after = balanced (codes "ringhash")

pub listener_changes : IsListenerChange after (holding before) (holding after)
unfolding grpc_traffic_controller.Prelude.text_eq
listener_changes = record {
  others = λ namespace name e. rw e refl;
  stored = inl refl;
  same_requirements = λ key value. refl;
  same_slices = λ namespace r. refl;
}

abbrev pub changes : IsChange (holding before) (holding after) (listener_changed after)
changes = of_listener after listener_changes

abbrev pub place : ResourceRef
place = record {
  type_url = codes "Cluster";
  resource_name = codes "default/echo/route/0/backend/0";
}

abbrev pub its_listener : ResourceRef
its_listener = record { type_url = codes "Listener"; resource_name = codes "default/echo" }

abbrev pub its_endpoints : ResourceRef
its_endpoints = record {
  type_url = codes "ClusterLoadAssignment";
  resource_name = codes "default/echo/route/0/backend/0";
}

abbrev pub requests : ℕ → Request
requests v = record {
  type_url = codes "Cluster";
  resource_names = place.resource_name ∷ [];
  node = some node;
}

abbrev pub known : ℕ → List Text
known v = []

abbrev ref_0 : ParsedBackendName
ref_0 = record {
  namespace = codes "default";
  listener_name = codes "echo";
  route_id = pos 0;
  backend_id = pos 0;
}

parses : parse_backend_name place.resource_name ≡ ok ref_0
unfolding parse_backend_name grpc_traffic_controller.Prelude.split
    grpc_traffic_controller.Go.Strconv.atoi
parses = refl

prints : backend_name_text ref_0 ≡ place.resource_name
unfolding backend_name_text grpc_traffic_controller.Go.Path.join_path
    grpc_traffic_controller.Go.Strconv.itoa text_eq
prints = refl

pub place-IsCanonical : IsCanonical place
place-IsCanonical p read =
    let same : ok ref_0 ≡ ok p = sym parses ∙ read in
    let same' : ref_0 ≡ p = cc in rw (← same') (sym prints)

abbrev pub encoded : Text → Any
encoded policy = record { type_url = codes "Cluster"; value = policy }

abbrev pub response : Text → ResolveResponse
response policy = record {
  type_url = codes "Cluster";
  resources = encoded policy ∷ [];
  written = codes "7";
}

pub resolves_before :
    config_resolver lib
      (holding before)
      (first_request (config_resolver lib (holding before)) (requests 1))
    ≡ ok (response (codes "round"))
unfolding config_resolver text_eq grpc_traffic_controller.Clusters.resolve_clusters
    grpc_traffic_controller.Resources.resolve_names parse_backend_name
    grpc_traffic_controller.Prelude.split grpc_traffic_controller.Go.Strconv.atoi
    grpc_traffic_controller.Clusters.find_backend_spec
    grpc_traffic_controller.Resolver.encode_resource grpc_traffic_controller.Clusters.make_cluster
resolves_before = refl

pub resolves_after :
    config_resolver lib
      (holding after)
      (change_request (config_resolver lib (holding after)) (requests 1) place)
    ≡ ok (response (codes "ring"))
unfolding config_resolver text_eq grpc_traffic_controller.Clusters.resolve_clusters
    grpc_traffic_controller.Resources.resolve_names parse_backend_name
    grpc_traffic_controller.Prelude.split grpc_traffic_controller.Go.Strconv.atoi
    grpc_traffic_controller.Clusters.find_backend_spec
    grpc_traffic_controller.Resolver.encode_resource grpc_traffic_controller.Clusters.make_cluster
resolves_after = refl

answer-before : answer lib (holding before) (requests 1) place ≡ some (encoded (codes "round"))
unfolding answer config_resolver text_eq grpc_traffic_controller.Clusters.resolve_clusters
    grpc_traffic_controller.Resources.resolve_names parse_backend_name
    grpc_traffic_controller.Prelude.split grpc_traffic_controller.Go.Strconv.atoi
    grpc_traffic_controller.Clusters.find_backend_spec
    grpc_traffic_controller.Resolver.encode_resource grpc_traffic_controller.Clusters.make_cluster
answer-before = refl

pub answer-after : answer lib (holding after) (requests 1) place ≡ some (encoded (codes "ring"))
unfolding answer config_resolver text_eq grpc_traffic_controller.Clusters.resolve_clusters
    grpc_traffic_controller.Resources.resolve_names parse_backend_name
    grpc_traffic_controller.Prelude.split grpc_traffic_controller.Go.Strconv.atoi
    grpc_traffic_controller.Clusters.find_backend_spec
    grpc_traffic_controller.Resolver.encode_resource grpc_traffic_controller.Clusters.make_cluster
answer-after = refl

abbrev pub announced : List ResourceRef
announced = its_listener ∷ place ∷ its_endpoints ∷ []

pub handles : handle_event lib (holding after) (listener_changed after) ≡ ok announced
unfolding handle_event grpc_traffic_controller.Names.listener_name
    grpc_traffic_controller.Names.backend_name grpc_traffic_controller.Go.Path.join_path
    grpc_traffic_controller.Go.Strconv.itoa text_eq
handles = refl

change_announced_example :
    (answer lib (holding before) (requests 1) place ≡ some (encoded (codes "ring")))
    ⊎ (In place announced ⊎ IsMissed lib place changes)
change_announced_example =
    change_announced lib (holding before) (holding after) (requests 1) place
      (encoded (codes "ring")) (listener_changed after) announced changes (holding-IsCache before)
      (holding-IsCache after) place-IsCanonical answer-after handles

asks_place : asks_for (requests 1) place ≡ true
unfolding grpc_traffic_controller.Prelude.text_eq grpc_traffic_controller.ConfigWatcher.is_known
asks_place = refl

first_content-eq-answer_example :
    (x : Any) × (first_content (requests 1) (response (codes "round")) place ≡ some x)
    × (answer lib (holding before) (requests 1) place ≡ some x)
first_content-eq-answer_example =
    first_content-eq-answer lib (holding before) (requests 1) (response (codes "round")) place
      resolves_before asks_place
