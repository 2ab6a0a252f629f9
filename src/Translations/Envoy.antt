-- ===== src/Translations/Envoy.antt =====
-- The Envoy resources (github.com/envoyproxy/go-control-plane) with the fields that the code sets.
-- Wrapped numbers and Booleans are always set; a packed configuration stands unpacked.
use lightpath.Prelude.{ℕ, String, Bool, List}

pub data LbPolicy : Type 0 where
  round_robin least_request ring_hash random maglev : LbPolicy

pub data RoutingPriority : Type 0 where
  default high : RoutingPriority

pub record Thresholds : Type 0 where
  pub priority : RoutingPriority
  pub max_connections : ℕ
  pub max_pending_requests : ℕ
  pub max_requests : ℕ
  pub max_retries : ℕ
  pub track_remaining : Bool

pub record OutlierDetection : Type 0 where
  pub interval : ℕ
  pub base_ejection_time : ℕ
  pub max_ejection_time : ℕ
  pub max_ejection_percent : ℕ
  pub consecutive_5xx : ℕ
  pub consecutive_gateway_failure : ℕ

pub data ClusterDiscovery : Type 0 where
  static strict_dns logical_dns eds original_dst : ClusterDiscovery

pub data ApiVersion : Type 0 where
  auto v2 v3 : ApiVersion

pub data ConfigSource : Type 0 where
  ads : ApiVersion → ConfigSource

pub record Cluster : Type 0 where
  pub name : String
  pub connect_timeout : ℕ
  pub discovery_type : ClusterDiscovery
  pub eds_config : ConfigSource
  pub lb_policy : LbPolicy
  pub circuit_breakers : List Thresholds
  pub outlier_detection : OutlierDetection

pub record SocketAddress : Type 0 where
  pub address : String
  pub port_value : ℕ

pub record TcpProxy : Type 0 where
  pub stat_prefix : String
  pub cluster : String
  pub idle_timeout : ℕ
  pub upstream_idle_timeout : ℕ
  pub max_connect_attempts : ℕ

pub record RouteAction : Type 0 where
  pub cluster : String
  pub idle_timeout : ℕ
  pub timeout : ℕ

pub record Route : Type 0 where
  pub name : String
  pub prefix : String
  pub action : RouteAction

pub record RetryPolicy : Type 0 where
  pub retry_on : String
  pub num_retries : ℕ
  pub per_try_timeout : ℕ
  pub per_try_idle_timeout : ℕ
  pub retry_host_predicate : List String

pub record VirtualHost : Type 0 where
  pub name : String
  pub domains : List String
  pub include_request_attempt_count : Bool
  pub routes : List Route
  pub retry_policy : RetryPolicy

pub data HeadersWithUnderscoresAction : Type 0 where
  allow reject_request drop_header : HeadersWithUnderscoresAction

pub record Http2ProtocolOptions : Type 0 where
  pub max_concurrent_streams : ℕ
  pub initial_stream_window_size : ℕ
  pub initial_connection_window_size : ℕ

-- An access log, with the fields of its JSON format.
pub record AccessLog : Type 0 where
  pub name : String
  pub json_format : List (String × String)

pub record HttpConnectionManager : Type 0 where
  pub stat_prefix : String
  pub common_idle_timeout : ℕ
  pub headers_with_underscores_action : HeadersWithUnderscoresAction
  pub http2_protocol_options : Http2ProtocolOptions
  pub stream_idle_timeout : ℕ
  pub request_timeout : ℕ
  pub http_filters : List String
  pub route_config_name : String
  pub virtual_hosts : List VirtualHost
  pub access_log : List AccessLog

pub data FilterConfig : Type 0 where
  tcp_proxy : TcpProxy → FilterConfig
  http_connection_manager : HttpConnectionManager → FilterConfig

pub record Filter : Type 0 where
  pub name : String
  pub config : FilterConfig

pub record FilterChain : Type 0 where
  pub filters : List Filter

pub record Listener : Type 0 where
  pub name : String
  pub address : SocketAddress
  pub per_connection_buffer_limit_bytes : ℕ
  pub bind_to_port : Bool
  pub filter_chains : List FilterChain

pub data HealthStatus : Type 0 where
  unknown healthy unhealthy draining timeout degraded : HealthStatus

pub record LbEndpoint : Type 0 where
  pub health_status : HealthStatus
  pub hostname : String
  pub address : SocketAddress

pub record LocalityLbEndpoints : Type 0 where
  pub zone : String
  pub sub_zone : String
  pub lb_endpoints : List LbEndpoint

pub record ClusterLoadAssignment : Type 0 where
  pub cluster_name : String
  pub endpoints : List LocalityLbEndpoints

-- The resources of a snapshot, under the version that it is given.
pub record Snapshot : Type 0 where
  pub version : String
  pub listeners : List Listener
  pub clusters : List Cluster
  pub endpoints : List ClusterLoadAssignment
