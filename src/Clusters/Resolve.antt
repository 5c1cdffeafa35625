-- ===== src/Clusters/Resolve.antt =====
-- gtc/cluster.go: what a request for clusters is answered with.
use grpc_traffic_controller.Prelude.{◌≡◌, inr, ◌↔◌, Text, arith}
use grpc_traffic_controller.Api.{GrpcListener, Backend}
use grpc_traffic_controller.Errors.{ok, panic, bind_ok, lift, lift-eq-ok}
use grpc_traffic_controller.Envoy.{Library, Any, cluster}
use grpc_traffic_controller.Kubernetes.{Listers}
use grpc_traffic_controller.Names.{ParsedBackendName, parse_backend_name}
use grpc_traffic_controller.Resolver.{encode_resource}
use grpc_traffic_controller.Clusters.{find_backend_spec, make_cluster, resolve_cluster}
use grpc_traffic_controller.Clusters.Find.{
  HasBackend, HasNegativeId, find_backend_spec-eq-ok_iff, find_backend_spec-eq-panic_iff,
}

module _ (lib : Library) (listers : Listers) (type_url : Text) where
  -- How a name is resolved to a cluster: it is read as a backend's, the lister has its listener, the
  -- listener has its backend, and the cluster made of that is what is encoded.
  pub record IsClusterFor (resource_name : Text) (resource : Any) (version : Text) : Type 0 where
    pub ref : ParsedBackendName
    pub lis : GrpcListener
    pub backend : Backend
    pub value : Text
    pub read : parse_backend_name resource_name ≡ ok ref
    pub listed : listers.get_listener ref.namespace ref.listener_name ≡ inr lis
    pub found : HasBackend lis ref backend
    pub encoded : lib.marshal (cluster (make_cluster resource_name backend)) ≡ inr value
    pub packed : resource ≡ record { type_url = type_url; value = value }
    pub versioned : version ≡ lis.resource_version

  -- A name is resolved to a resource and a version exactly when these are the encoded cluster of the
  -- backend that it names, and the resource version of that backend's listener.
  pub resolve_cluster-eq-ok_iff :
      (resource_name : Text) (resource : Any) (version : Text)
      → (resolve_cluster lib listers type_url resource_name ≡ ok (resource, version))
        ↔ IsClusterFor resource_name resource version
  unfolding resolve_cluster encode_resource
  resolve_cluster-eq-ok_iff resource_name resource version = (to, from)
    where
      to :
          resolve_cluster lib listers type_url resource_name ≡ ok (resource, version)
          → IsClusterFor resource_name resource version
      to e = bind_ok (parse_backend_name resource_name) e λ ref read e₁.
          bind_ok (lift (listers.get_listener ref.namespace ref.listener_name)) e₁ λ lis listed e₂.
            bind_ok (find_backend_spec ref lis) e₂ λ backend found e₃.
              bind_ok (encode_resource lib type_url (cluster (make_cluster resource_name backend)))
                e₃
                λ packed packs e₄.
                  bind_ok (lift (lib.marshal (cluster (make_cluster resource_name backend)))) packs
                    λ value marshaled e₅. record {
                      ref = ref;
                      lis = lis;
                      backend = backend;
                      value = value;
                      read = read;
                      listed = lift-eq-ok _ listed;
                      found = (find_backend_spec-eq-ok_iff lis ref backend).0 found;
                      encoded = lift-eq-ok _ marshaled;
                      packed = ground arith;
                      versioned = ground arith;
                    }

      from :
          IsClusterFor resource_name resource version
          → resolve_cluster lib listers type_url resource_name ≡ ok (resource, version)
      from h = rw (
        h.read,
        h.listed,
        (find_backend_spec-eq-ok_iff h.lis h.ref h.backend).1 h.found,
        h.encoded,
        h.packed,
        h.versioned,
      )

  -- Where a name is read to a negative index that no test catches, resolving it panics.
  pub resolve_cluster-panic :
      (resource_name : Text) (ref : ParsedBackendName) (lis : GrpcListener)
      → parse_backend_name resource_name ≡ ok ref
      → listers.get_listener ref.namespace ref.listener_name ≡ inr lis
      → HasNegativeId lis ref
      → resolve_cluster lib listers type_url resource_name ≡ panic
  unfolding resolve_cluster
  resolve_cluster-panic resource_name ref lis read listed negative =
      rw (read, listed, (find_backend_spec-eq-panic_iff lis ref).1 negative)
