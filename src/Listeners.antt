-- ===== src/Listeners.antt =====
-- gtc/listener.go: resolving listeners.
pub mod Resolve
use grpc_traffic_controller.Prelude.{Text}
use grpc_traffic_controller.Errors.{◌>>=◌, Result, ok, lift}
use grpc_traffic_controller.Envoy
use grpc_traffic_controller.Envoy.{Library, Any, http_connection_manager, listener}
use grpc_traffic_controller.Kubernetes.{Listers}
use grpc_traffic_controller.Names.{parse_listener_name}
use grpc_traffic_controller.Resolver.{must_any, make_duration, encode_resource}
use grpc_traffic_controller.Interceptors.{make_filters}
use grpc_traffic_controller.Routes.{make_route_config}
use grpc_traffic_controller.Resources.{ResourceResolver, new_resolve_response, resolve_names}

module _ (lib : Library) (listers : Listers) where
  -- The listener, and its resource version.
  unfoldable pub make_listener : (resource_name : Text) → Result (Envoy.Listener × Text)
  make_listener resource_name = do
    (namespace, name) ← parse_listener_name resource_name
    lis ← lift (listers.get_listener namespace name)
    filters ← make_filters lib lis.spec.interceptors
    route_config ← make_route_config lib resource_name lis
    api_listener ← must_any lib (
        http_connection_manager (record {
          max_stream_duration = make_duration lib lis.spec.max_stream_duration;
          route_config = route_config;
          http_filters = filters;
        }))
    ok (record { name = resource_name; api_listener = api_listener }, lis.resource_version)

  -- one round of listenerHandler.resolveResource
  unfoldable pub resolve_listener : (type_url resource_name : Text) → Result (Any × Text)
  unfolding make_listener
  resolve_listener type_url resource_name = do
    (made, version) ← make_listener resource_name
    resource ← encode_resource lib type_url (listener made)
    ok (resource, version)

  -- listenerHandler.resolveResource
  unfoldable pub resolve_listeners : ResourceResolver
  unfolding resolve_listener
  resolve_listeners req =
      resolve_names (resolve_listener req.type_url) req.resource_names
        (new_resolve_response lib.listener_type)
