-- ===== src/Endpoints/Resolve.antt =====
-- gtc/endpoint.go: what a request for endpoints is answered with.
use grpc_traffic_controller.Prelude.{◌≡◌, ◌↔◌, refl, inr, Text, List, ◌++◌, Option, arith}
use grpc_traffic_controller.Api.{GrpcListener, Backend}
use grpc_traffic_controller.Errors.{ok, bind_ok, lift, lift-eq-ok}
use grpc_traffic_controller.Envoy.{Library, Any, Node, ClusterLoadAssignment, load_assignment}
use grpc_traffic_controller.Kubernetes.{Listers}
use grpc_traffic_controller.Names.{ParsedBackendName, parse_backend_name}
use grpc_traffic_controller.Resolver.{encode_resource}
use grpc_traffic_controller.Clusters.{find_backend_spec}
use grpc_traffic_controller.Clusters.Find.{HasBackend, find_backend_spec-eq-ok_iff}
use grpc_traffic_controller.Endpoints.{make_load_assignment, resolve_endpoint, concat_texts}

module _ (lib : Library) (listers : Listers) (asking : Option Node)
    (type_url resource_name : Text) where
  -- How a name is resolved to a load assignment: it is read as a backend's, the lister has its listener,
  -- the listener has its backend, and the assignment of that backend for the asking node is what is
  -- encoded; the listener's version is written first, and then those of the slices.
  pub record IsAssignmentFor (resource : Any) (version : Text) : Type 0 where
    pub ref : ParsedBackendName
    pub lis : GrpcListener
    pub backend : Backend
    pub assignment : ClusterLoadAssignment
    pub versions : List Text
    pub read : parse_backend_name resource_name ≡ ok ref
    pub listed : listers.get_listener ref.namespace ref.listener_name ≡ inr lis
    pub found : HasBackend lis ref backend
    pub assigned :
        make_load_assignment lib listers asking ref lis backend ≡ ok (assignment, versions)
    pub encoded : encode_resource lib type_url (load_assignment assignment) ≡ ok resource
    pub versioned : version ≡ lis.resource_version ++ concat_texts versions

  resolve_endpoint_sound :
      (resource : Any) (version : Text)
      → resolve_endpoint lib listers asking type_url resource_name ≡ ok (resource, version)
      → IsAssignmentFor resource version
  unfolding resolve_endpoint
  resolve_endpoint_sound resource version e =
      bind_ok (parse_backend_name resource_name) e λ ref read e₁.
        bind_ok (lift (listers.get_listener ref.namespace ref.listener_name)) e₁ λ lis listed e₂.
          bind_ok (find_backend_spec ref lis) e₂ λ backend found e₃.
            bind_ok (make_load_assignment lib listers asking ref lis backend) e₃ λ made assigned e₄.
              bind_ok (encode_resource lib type_url (load_assignment made.0)) e₄
                λ packed encoded e₅. record {
                  ref = ref;
                  lis = lis;
                  backend = backend;
                  assignment = made.0;
                  versions = made.1;
                  read = read;
                  listed = lift-eq-ok _ listed;
                  found = (find_backend_spec-eq-ok_iff lis ref backend).0 found;
                  assigned = assigned;
                  encoded = rw encoded (ground arith);
                  versioned = ground arith;
                }

  -- A name is resolved to a resource and a version exactly when these are the encoded load assignment of
  -- the backend that it names, for the asking node, and the versions of its listener and its slices.
  pub resolve_endpoint-eq-ok_iff :
      (resource : Any) (version : Text)
      → (resolve_endpoint lib listers asking type_url resource_name ≡ ok (resource, version))
        ↔ IsAssignmentFor resource version
  unfolding resolve_endpoint
  resolve_endpoint-eq-ok_iff resource version = (
    resolve_endpoint_sound resource version,
    λ h.
        rw
          (
            h.read,
            h.listed,
            (find_backend_spec-eq-ok_iff h.lis h.ref h.backend).1 h.found,
            h.assigned,
            h.encoded,
            h.versioned,
          )
          refl,
  )
