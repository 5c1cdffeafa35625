-- ===== src/ConfigWatcher.antt =====
-- gtc/cache.go: the goroutine that serves one watch of a client.
pub mod Diff
pub mod Serving
pub mod First
pub mod Lifetime
pub mod Resolvers
use grpc_traffic_controller.Prelude.{
  ℕ, Text, List, [], ◌∷◌, ◌++◌, Option, Bool, true, false, ◌||◌, not, if◌then◌else◌, text_eq,
}
use grpc_traffic_controller.Errors.{◌>>=◌, Result, ok, err, panic}
use grpc_traffic_controller.Envoy.{Library, Any, Node}
use grpc_traffic_controller.Kubernetes.{Listers}
use grpc_traffic_controller.Resources.{
  ResolveRequest, ResolveResponse, ResourceResolver, resolve_by_type, version_info,
}
use grpc_traffic_controller.Listeners.{resolve_listeners}
use grpc_traffic_controller.Clusters.{resolve_clusters}
use grpc_traffic_controller.Endpoints.{resolve_endpoints}
use grpc_traffic_controller.Watches.{ResourceRef, Watcher, Watches, new_watcher, watch, release}

-- The resolver of newConfigWatcher.
unfoldable pub config_resolver : Library → Listers → ResourceResolver
unfolding resolve_by_type
config_resolver lib listers = resolve_by_type (
    (lib.listener_type, resolve_listeners lib listers)
    ∷ (lib.cluster_type, resolve_clusters lib listers)
    ∷ (lib.endpoint_type, resolve_endpoints lib listers)
    ∷ [])

-- the fields of cache.Request that are read
pub record Request : Type 0 where
  pub type_url : Text
  pub resource_names : List Text
  pub node : Option Node

-- cacheResponse: the request that it answers, and what was resolved
pub record CacheResponse : Type 0 where
  pub req : Request
  pub resp : ResolveResponse

pub record DiscoveryResponse : Type 0 where
  pub type_url : Text
  pub resources : List Any
  pub version_info : Text

-- cacheResponse.GetDiscoveryResponse and GetVersion
unfoldable pub get_discovery_response : Library → CacheResponse → DiscoveryResponse
unfolding version_info
get_discovery_response lib c = record {
  type_url = c.resp.type_url;
  resources = c.resp.resources;
  version_info = version_info lib c.resp;
}

unfoldable pub get_version : Library → CacheResponse → Text
unfolding version_info
get_version lib c = version_info lib c.resp

-- a key of the map that streamState.GetKnownResourceNames gives
unfoldable pub is_known : Text → List Text → Bool
is_known n [] = false
is_known n (k ∷ ks) = text_eq k n || is_known n ks

-- hasResourceDiff; the known names are those for the request's type
unfoldable pub has_resource_diff : (known : List Text) → (names : List Text) → Bool
unfolding is_known
has_resource_diff known [] = false
has_resource_diff known (n ∷ ns) =
    if not (is_known n known) then true else has_resource_diff known ns

-- the loop over initialReq.ResourceNames
unfoldable pub watch_names : (type_url : Text) → List Text → Watcher × Watches → Watcher × Watches
watch_names type_url [] s = s
watch_names type_url (n ∷ ns) s =
    watch_names type_url ns (watch (record { type_url = type_url; resource_name = n }) s)

-- What the two `select` statements find: the context is done, a resource has changed or the channel
-- is closed. A change comes with what the resolver gives as the caches are when the loop meets it. Where
-- a response is to be sent, `taken` says whether the channel takes it; the context is done otherwise, and
-- the loop goes on.
pub data Event : Type 0 where
  cancelled : Event
  closed : Event
  changed : (ref : ResourceRef) (resolve : ResourceResolver) (taken : Bool) → Event

abbrev pub sent_if : Bool → CacheResponse → List CacheResponse → List CacheResponse
sent_if taken r rest = if taken then r ∷ rest else rest

module _ (resolve : ResourceResolver) where
  -- A request for one resource that has changed, of the type that it has.
  abbrev pub change_request : Request → ResourceRef → ResolveRequest
  change_request req ref = record {
    resource_names = ref.resource_name ∷ [];
    type_url = ref.type_url;
    node_info = req.node;
  }

  abbrev pub first_request : Request → ResolveRequest
  first_request req = record {
    resource_names = req.resource_names;
    type_url = req.type_url;
    node_info = req.node;
  }

-- The loop of configWatcher.watch: the responses that are sent, in order. An error is logged and the loop
-- goes on; the events end where the loop still waits.
unfoldable pub serve_changes : Request → List Event → Result (List CacheResponse)
serve_changes req [] = ok []
serve_changes req (cancelled ∷ more) = ok []
serve_changes req (closed ∷ more) = ok []
serve_changes req (changed ref resolve taken ∷ more) =
    let later = serve_changes req more in
    elim (resolve (change_request resolve req ref)) [
      | ok resp ↦ do rest ← later; ok (sent_if taken (record { req = req; resp = resp }) rest)
      | err e ↦ later
      | panic ↦ panic
    ]

-- The first response, if a resource is not known to the client; an error is dropped.
unfoldable pub serve_first :
    ResourceResolver → (known : List Text) → Request → (taken : Bool) → Result (List CacheResponse)
unfolding has_resource_diff
serve_first resolve known req taken =
    if has_resource_diff known req.resource_names
    then elim (resolve (first_request resolve req)) [
      | ok resp ↦ ok (sent_if taken (record { req = req; resp = resp }) [])
      | err e ↦ ok []
      | panic ↦ panic
    ]
    else ok []

-- configWatcher.watch, between the first and the last call on the watches; the resolver given is that of
-- the first response
unfoldable pub serve :
    ResourceResolver
    → (known : List Text) → Request
    → (taken : Bool) → List Event
    → Result (List CacheResponse)
unfolding serve_first serve_changes
serve resolve known req taken events = do
  first ← serve_first resolve known req taken
  rest ← serve_changes req events
  ok (first ++ rest)

-- What the goroutine does to the watches when it starts, and when it ends.
unfoldable pub start_watch : ℕ → Request → Watches → Watcher × Watches
unfolding watch_names
start_watch number req ws = watch_names req.type_url req.resource_names (new_watcher number, ws)

abbrev pub end_watch : Watcher × Watches → Watcher × Watches
end_watch = release
