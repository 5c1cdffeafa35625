-- ===== src/Tests/Samples.antt =====
-- A library, a cluster and a listener for the tests.
use grpc_traffic_controller.Prelude.{
  leb, ◌+◌, pos, inl, inr, Text, codes, List, [], ◌∷◌, Option, some, none, true, false, ◌&&◌,
  if◌then◌else◌, text_eq,
}
use grpc_traffic_controller.Api.{
  GrpcListener, Route, Backend, ServiceRef, Interceptor, FaultInterceptor, MetadataMatcher,
}
use grpc_traffic_controller.Errors.{external, Result, ok}
use grpc_traffic_controller.Envoy.{Library, Node}
use grpc_traffic_controller.Kubernetes.{Listers, EndpointSlice, Endpoint}
use grpc_traffic_controller.Endpoints.{service_name_label}

abbrev pub lib : Library
lib = record {
  router_name = codes "router";
  fault_name = codes "fault";
  listener_type = codes "Listener";
  cluster_type = codes "Cluster";
  endpoint_type = codes "ClusterLoadAssignment";
  denominator_value = λ t. if text_eq t (codes "HUNDRED") then some 0 else none;
  fold_rune = λ c. if leb b'A' c && leb c b'Z' then c + 32 else c;
  new_duration = λ d. record { seconds = d; nanos = pos 0 };
  new_any = λ m. inr (record { type_url = codes "any"; value = [] });
  marshal = λ r. inr (codes "bytes");
  digest = λ t. t;
}

abbrev pub service : ServiceRef
service = record {
  name = codes "greeter";
  namespace = [];
  port = record { number = pos 8080; name = [] };
}

abbrev pub faults : FaultInterceptor
faults = record {
  delay = some (record {
    fixed = some (pos 2);
    metadata = none;
    percentage = some (record { numerator = 10; denominator = codes "hundred" });
  });
  abort = none;
  max_active_faults = some 3;
  headers = [];
}

abbrev pub interceptor : Interceptor
interceptor = record { fault = some faults }

abbrev pub backend : Backend
backend = record {
  weight = 3;
  max_requests = some 100;
  lb_policy = codes "";
  ring_hash_config = none;
  interceptors = interceptor ∷ [];
  service = some service;
  localities = [];
}

-- A backend of two localities.
abbrev pub spread : Backend
spread = record {
  weight = 4294967294;
  max_requests = none;
  lb_policy = codes "";
  ring_hash_config = none;
  interceptors = [];
  service = none;
  localities =
      record { weight = 80; priority = 0; service = some service }
      ∷ record { weight = 20; priority = 1; service = some service }
      ∷ [];
}

abbrev pub tenant : MetadataMatcher
tenant = record {
  name = codes "tenant";
  exact = some (codes "blue");
  regex = none;
  range = none;
  present = none;
  prefix = none;
  suffix = none;
  invert = false;
}

abbrev pub route : Route
route = record {
  matcher = some (record {
    method =
        some
          (record { namespace = codes "hello"; service = codes "Greeter"; method = codes "Say" });
    service = none;
    namespace = none;
    metadata = tenant ∷ [];
    fraction = some (record { numerator = 50; denominator = codes "Hundred" });
  });
  interceptors = [];
  hash_policy = record { metadata = codes "session"; channel = none; terminal = true } ∷ [];
  max_stream_duration = none;
  grpc_timeout_header_max = none;
  retry = none;
  backends = backend ∷ spread ∷ [];
}

abbrev pub lis : GrpcListener
lis = record {
  namespace = codes "default";
  name = codes "echo";
  resource_version = codes "7";
  spec = record {
    max_stream_duration = some (pos 30);
    interceptors = interceptor ∷ [];
    retry = none;
    routes = route ∷ [];
  };
}

abbrev pub ready_in : (addr : Text) → Option (List Text) → Endpoint
ready_in addr hints = record {
  addresses = addr ∷ [];
  ready = some true;
  zone = some (codes "a");
  hints = hints;
}

abbrev pub slice : EndpointSlice
slice = record {
  namespace = codes "default";
  labels = (service_name_label, codes "greeter") ∷ [];
  resource_version = codes "3";
  endpoints =
      ready_in (codes "10.0.0.1") none
      ∷ ready_in (codes "10.0.0.2") (some (codes "A" ∷ []))
      ∷ record { addresses = codes "10.0.0.3" ∷ []; ready = none; zone = none; hints = none }
      ∷ [];
  ports = record { name = some (codes "grpc"); port = some (pos 8080) } ∷ [];
}

abbrev pub listers : Listers
listers = record {
  get_listener = λ namespace name.
      if text_eq namespace (codes "default") && text_eq name (codes "echo")
      then inr lis
      else inl (external (codes "not found"));
  list_listeners = inr (lis ∷ []);
  new_requirement = λ key value. inr (record { key = key; value = value });
  list_slices = λ namespace requirement. inr (slice ∷ []);
}

abbrev pub node : Node
node = record { locality = some (record { zone = codes "a"; sub_zone = [] }) }

-- What a call returns, or a value in its place.
abbrev pub value_or {ℓ} : {A : Type ℓ} → A → Result A → A
value_or d (ok a) = a
value_or d _ = d
