-- ===== src/Listeners/Resolve.antt =====
-- gtc/listener.go: when a listener is resolved.
use grpc_traffic_controller.Prelude.{◌≡◌, ◌↔◌, refl, sym, inr, Text, List, arith}
use grpc_traffic_controller.Api.{GrpcListener}
use grpc_traffic_controller.Errors.{ok, bind_ok, lift, lift-eq-ok}
use grpc_traffic_controller.Envoy.{
  Library, Any, HttpFilter, RouteConfiguration, http_connection_manager, listener,
}
use grpc_traffic_controller.Kubernetes.{Listers}
use grpc_traffic_controller.Names.{parse_listener_name, listener_name}
use grpc_traffic_controller.Names.RoundTrip.{listener_name-parse_listener_name}
use grpc_traffic_controller.Interceptors.Filters.{IsChainOf, make_filters-IsChainOf}
use grpc_traffic_controller.Routes.Config.{IsConfigOf, make_route_config-IsConfigOf}
use grpc_traffic_controller.Resolver.{must_any, make_duration, encode_resource}
use grpc_traffic_controller.Interceptors.{make_filters}
use grpc_traffic_controller.Routes.{make_route_config}
use grpc_traffic_controller.Listeners.{make_listener, resolve_listener}

module _ (lib : Library) (listers : Listers) (type_url resource_name : Text) where
  -- What the resource of a listener name is: the listener of the cluster under that name, whose
  -- connection manager has its filters, and its routes under the requested name.
  pub record IsListenerFor (resource : Any) (version : Text) : Type 0 where
    pub namespace : Text
    pub name : Text
    pub lis : GrpcListener
    pub filters : List HttpFilter
    pub route_config : RouteConfiguration
    pub api_listener : Any
    pub read : parse_listener_name resource_name ≡ ok (namespace, name)
    pub listed : listers.get_listener namespace name ≡ inr lis
    pub filtered : make_filters lib lis.spec.interceptors ≡ ok filters
    pub routed : make_route_config lib resource_name lis ≡ ok route_config
    pub managed :
        must_any lib (
          http_connection_manager (record {
            max_stream_duration = make_duration lib lis.spec.max_stream_duration;
            route_config = route_config;
            http_filters = filters;
          }))
        ≡ ok api_listener
    pub encoded :
        encode_resource lib type_url
          (listener (record { name = resource_name; api_listener = api_listener }))
        ≡ ok resource
    pub versioned : version ≡ lis.resource_version

  resolve_listener_sound :
      (resource : Any) (version : Text)
      → resolve_listener lib listers type_url resource_name ≡ ok (resource, version)
      → IsListenerFor resource version
  unfolding resolve_listener make_listener
  resolve_listener_sound resource version e =
      bind_ok (make_listener lib listers resource_name) e λ made making e₁.
        bind_ok (parse_listener_name resource_name) making λ name read e₂.
          bind_ok (lift (listers.get_listener name.0 name.1)) e₂ λ lis listed e₃.
            bind_ok (make_filters lib lis.spec.interceptors) e₃ λ filters filtered e₄.
              bind_ok (make_route_config lib resource_name lis) e₄ λ config routed e₅.
                bind_ok (must_any lib (http_connection_manager _)) e₅ λ api managed e₆.
                  bind_ok (encode_resource lib type_url (listener made.0)) e₁ λ packed encoded e₇.
                    let same : record { name = resource_name; api_listener = api } ≡ made.0 =
                      ground arith in
                    record {
                      namespace = name.0;
                      name = name.1;
                      lis = lis;
                      filters = filters;
                      route_config = config;
                      api_listener = api;
                      read = read;
                      listed = lift-eq-ok _ listed;
                      filtered = filtered;
                      routed = routed;
                      managed = managed;
                      encoded = rw (same, encoded) (ground arith);
                      versioned = ground arith;
                    }

  -- What a client is given for a listener's name: the packed message of a listener of that name, whose
  -- connection manager runs one filter for each interceptor and then the router, and routes by one virtual
  -- host for that name with one route for each of the listener's.
  pub record IsServed (resource : Any) (version : Text) : Type 0 where
    pub namespace : Text
    pub name : Text
    pub lis : GrpcListener
    pub filters : List HttpFilter
    pub route_config : RouteConfiguration
    pub api_listener : Any
    pub printed : resource_name ≡ listener_name namespace name
    pub listed : listers.get_listener namespace name ≡ inr lis
    pub chained : IsChainOf lib lis.spec.interceptors filters
    pub routed : IsConfigOf lib resource_name lis route_config
    pub managed :
        must_any lib (
          http_connection_manager (record {
            max_stream_duration = make_duration lib lis.spec.max_stream_duration;
            route_config = route_config;
            http_filters = filters;
          }))
        ≡ ok api_listener
    pub encoded :
        encode_resource lib type_url
          (listener (record { name = resource_name; api_listener = api_listener }))
        ≡ ok resource
    pub versioned : version ≡ lis.resource_version

  -- A name is resolved to a resource and a version exactly when these are the encoded listener that the
  -- name stands for, under the requested name, and the resource version of that listener.
  pub resolve_listener-eq-ok_iff :
      (resource : Any) (version : Text)
      → (resolve_listener lib listers type_url resource_name ≡ ok (resource, version))
        ↔ IsListenerFor resource version
  unfolding resolve_listener make_listener
  resolve_listener-eq-ok_iff resource version = (
    resolve_listener_sound resource version,
    λ h. rw (h.read, h.listed, h.filtered, h.routed, h.managed, h.encoded, h.versioned) refl,
  )

  -- A listener name that is resolved is that of a listener in the cache, and gives its packed message, under
  -- the requested name: a connection manager with one filter for each interceptor, in order, and then the
  -- router, and with one virtual host for the requested name, which has one route for each of the
  -- listener's, in order; with the resource version of the listener.
  pub resolve_listener-IsServed :
      (resource : Any) (version : Text)
      → resolve_listener lib listers type_url resource_name ≡ ok (resource, version)
      → IsServed resource version
  resolve_listener-IsServed resource version e =
      let is = resolve_listener_sound resource version e in
      record {
        namespace = is.namespace;
        name = is.name;
        lis = is.lis;
        filters = is.filters;
        route_config = is.route_config;
        api_listener = is.api_listener;
        printed =
            sym (listener_name-parse_listener_name resource_name is.namespace is.name is.read);
        listed = is.listed;
        chained = make_filters-IsChainOf lib is.lis.spec.interceptors is.filters is.filtered;
        routed = make_route_config-IsConfigOf lib resource_name is.lis is.route_config is.routed;
        managed = is.managed;
        encoded = is.encoded;
        versioned = is.versioned;
      }
