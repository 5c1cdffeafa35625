-- ===== src/Envoy/Resources.antt =====
-- The resources: listeners, clusters and load assignments.
use grpc_traffic_controller.Prelude.{ℕ, Text, List, Option}
use grpc_traffic_controller.Envoy.Filters.{Duration, Any, HttpFault, HttpFilter}
use grpc_traffic_controller.Envoy.Routes.{RouteConfiguration}

pub record HttpConnectionManager : Type 0 where
  pub max_stream_duration : Option Duration
  pub route_config : RouteConfiguration
  pub http_filters : List HttpFilter

pub record Listener : Type 0 where
  pub name : Text
  pub api_listener : Any

pub data LbPolicy : Type 0 where
  round_robin ring_hash : LbPolicy

pub data DiscoveryType : Type 0 where
  eds : DiscoveryType

pub data ConfigSource : Type 0 where
  ads : ConfigSource

pub record EdsClusterConfig : Type 0 where
  pub eds_config : ConfigSource
  pub service_name : Text

-- one threshold
pub record Thresholds : Type 0 where
  pub max_requests : ℕ

-- The hash function is always XX_HASH.
pub record RingHashLbConfig : Type 0 where
  pub minimum_ring_size : ℕ
  pub maximum_ring_size : ℕ

pub record Cluster : Type 0 where
  pub name : Text
  pub lb_policy : LbPolicy
  pub discovery_type : DiscoveryType
  pub eds_cluster_config : EdsClusterConfig
  pub circuit_breakers : Option (List Thresholds)
  pub lb_config : Option RingHashLbConfig

-- The protocol of the socket address is always TCP.
pub record LbEndpoint : Type 0 where
  pub address : Text
  pub port_value : ℕ

pub record Locality : Type 0 where
  pub zone : Text
  pub sub_zone : Text

pub record LocalityLbEndpoints : Type 0 where
  pub locality : Locality
  pub load_balancing_weight : ℕ
  pub priority : ℕ
  pub lb_endpoints : List LbEndpoint

pub record ClusterLoadAssignment : Type 0 where
  pub cluster_name : Text
  pub endpoints : List LocalityLbEndpoints

pub data Resource : Type 0 where
  listener : Listener → Resource
  cluster : Cluster → Resource
  load_assignment : ClusterLoadAssignment → Resource

-- What is packed into an `Any`.
pub data Message : Type 0 where
  router : Message
  http_fault : HttpFault → Message
  http_connection_manager : HttpConnectionManager → Message

-- core.Node: the zone of its locality, if it has one
pub record Node : Type 0 where
  pub locality : Option Locality
