-- ===== src/Resources.antt =====
-- gtc/resolver.go: requests, responses and the choice of a resolver by type URL. The hash is what was
-- written to it; `Library.digest` makes the version of that.
pub mod Loop
use grpc_traffic_controller.Prelude.{Text, List, [], ◌∷◌, ◌++◌, Option, if◌then◌else◌, text_eq}
use grpc_traffic_controller.Errors.{◌>>=◌, Result, ok, err, unsupported_resource_type}
use grpc_traffic_controller.Envoy.{Library, Any, Node}

-- A pointer to the node that asks.
pub record ResolveRequest : Type 0 where
  pub resource_names : List Text
  pub type_url : Text
  pub node_info : Option Node

pub record ResolveResponse : Type 0 where
  pub type_url : Text
  pub resources : List Any
  pub written : Text

-- The slots of the slice are filled one after another.
abbrev pub new_resolve_response : Text → ResolveResponse
new_resolve_response type_url = record { type_url = type_url; resources = []; written = [] }

unfoldable pub use_resource_version : Text → ResolveResponse → ResolveResponse
use_resource_version v r = record r { written = r.written ++ v }

unfoldable pub version_info : Library → ResolveResponse → Text
version_info lib r = lib.digest r.written

-- The interface resourceResolver.
abbrev pub ResourceResolver : Type 0
ResourceResolver = ResolveRequest → Result ResolveResponse

-- resourceTypeResolver is a map by type URL.
unfoldable pub resolve_by_type : List (Text × ResourceResolver) → ResourceResolver
resolve_by_type [] req = err (unsupported_resource_type req.type_url)
resolve_by_type ((key, handler) ∷ more) req =
    if text_eq key req.type_url then handler req else resolve_by_type more req

-- The loop that the resolvers share: each name gives a resource, and versions that are written.
unfoldable pub resolve_names :
    (Text → Result (Any × Text)) → List Text → ResolveResponse → Result ResolveResponse
unfolding use_resource_version
resolve_names resolve [] response = ok response
resolve_names resolve (name ∷ names) response = do
  (resource, versions) ← resolve name
  resolve_names resolve names (
      use_resource_version versions
        (record response { resources = response.resources ++ resource ∷ [] }))
