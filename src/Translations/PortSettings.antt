-- ===== src/Translations/PortSettings.antt =====
-- pkg/translations/portsettings.go and types.go. A duration is its number of nanoseconds.
pub mod Bounds
use lightpath.Prelude.{ℕ, String, Bool, Option, none, some, ◌==◌, string_eq, if◌then◌else◌}
use lightpath.Kube.{Service, ServicePort}
use lightpath.Wellknown.{
  access_log, access_log_default, app_protocol_http, app_protocol_redis, load_balancing_policy,
  load_balancing_policy_default, port_circuit_breaker_default_max_connections,
  port_circuit_breaker_default_max_connections_default,
  port_circuit_breaker_default_max_pending_requests,
  port_circuit_breaker_default_max_pending_requests_default,
  port_circuit_breaker_default_max_requests, port_circuit_breaker_default_max_requests_default,
  port_circuit_breaker_default_max_retries, port_circuit_breaker_default_max_retries_default,
  port_circuit_breaker_default_track_remaining,
  port_circuit_breaker_default_track_remaining_default, port_circuit_breaker_high_max_connections,
  port_circuit_breaker_high_max_connections_default, port_circuit_breaker_high_max_pending_requests,
  port_circuit_breaker_high_max_pending_requests_default, port_circuit_breaker_high_max_requests,
  port_circuit_breaker_high_max_requests_default, port_circuit_breaker_high_max_retries,
  port_circuit_breaker_high_max_retries_default, port_circuit_breaker_high_track_remaining,
  port_circuit_breaker_high_track_remaining_default, port_idle_timeout, port_idle_timeout_default,
  port_num_retries, port_num_retries_default, port_outlier_detection_base_ejection_time,
  port_outlier_detection_base_ejection_time_default, port_outlier_detection_consecutive_5xx,
  port_outlier_detection_consecutive_5xx_default,
  port_outlier_detection_consecutive_gateway_failure,
  port_outlier_detection_consecutive_gateway_failure_default, port_outlier_detection_interval,
  port_outlier_detection_interval_default, port_outlier_detection_max_ejection_percent,
  port_outlier_detection_max_ejection_percent_default, port_outlier_detection_max_ejection_time,
  port_outlier_detection_max_ejection_time_default, port_request_timeout,
  port_request_timeout_default, port_retry_enabled, port_retry_enabled_default, port_retry_on,
  port_retry_on_default, port_upstream_connect_timeout, port_upstream_connect_timeout_default,
  port_upstream_idle_timeout, port_upstream_idle_timeout_default, port_upstream_request_timeout,
  port_upstream_request_timeout_default,
}
use lightpath.Translations.Envoy.{LbPolicy, round_robin, least_request, ring_hash, random, maglev}
use lightpath.Translations.Helper.{
  get_uint32_config, get_duration_config, get_bool_config, get_string_config,
}

pub data Protocol : Type 0 where
  tcp http redis : Protocol

-- `pointer.StringDeref(port.AppProtocol, port.Name)`, and the switch on it.
unfoldable pub get_protocol : ServicePort → Protocol
get_protocol port =
    let app_protocol_or_port_name : String = elim port.app_protocol [
      | none ↦ port.name
      | some app_protocol ↦ app_protocol
    ] in
    if app_protocol_or_port_name == app_protocol_redis
    then redis
    else if app_protocol_or_port_name == app_protocol_http
    then http
    else tcp

unfoldable pub get_lb_policy : String → LbPolicy
get_lb_policy lb_policy =
    if lb_policy == "LEAST_REQUEST"
    then least_request
    else if lb_policy == "ROUND_ROBIN"
    then round_robin
    else if lb_policy == "MAGLEV"
    then maglev
    else if lb_policy == "RANDOM"
    then random
    else if lb_policy == "RING_HASH"
    then ring_hash
    else least_request

pub record PortSettings : Type 0 where
  pub protocol : Protocol
  pub idle_timeout : ℕ
  pub request_timeout : ℕ
  pub upstream_request_timeout : ℕ
  pub upstream_idle_timeout : ℕ
  pub upstream_connect_timeout : ℕ
  pub enable_retry : Bool
  pub retry_on : String
  pub num_retries : ℕ
  pub circuit_breaker_default_max_connections : ℕ
  pub circuit_breaker_default_max_pending_requests : ℕ
  pub circuit_breaker_default_max_requests : ℕ
  pub circuit_breaker_default_max_retries : ℕ
  pub circuit_breaker_default_track_remaining : Bool
  pub circuit_breaker_high_max_connections : ℕ
  pub circuit_breaker_high_max_pending_requests : ℕ
  pub circuit_breaker_high_max_requests : ℕ
  pub circuit_breaker_high_max_retries : ℕ
  pub circuit_breaker_high_track_remaining : Bool
  pub outlier_detection_interval : ℕ
  pub outlier_detection_base_ejection_time : ℕ
  pub outlier_detection_max_ejection_time : ℕ
  pub outlier_detection_max_ejection_percent : ℕ
  pub outlier_detection_consecutive_5xx : ℕ
  pub outlier_detection_consecutive_gateway_failure : ℕ
  pub access_log : Bool
  pub load_balancing_policy : LbPolicy

unfoldable pub get_port_setings : Service → ServicePort → PortSettings
get_port_setings svc port =
    let lb_policy =
      get_lb_policy
        (get_string_config svc port load_balancing_policy load_balancing_policy_default) in
    record {
      protocol = get_protocol port;
      idle_timeout = get_duration_config svc port port_idle_timeout port_idle_timeout_default;
      request_timeout =
          get_duration_config svc port port_request_timeout port_request_timeout_default;
      upstream_request_timeout =
          get_duration_config svc port port_upstream_request_timeout
            port_upstream_request_timeout_default;
      upstream_idle_timeout =
          get_duration_config svc port port_upstream_idle_timeout
            port_upstream_idle_timeout_default;
      upstream_connect_timeout =
          get_duration_config svc port port_upstream_connect_timeout
            port_upstream_connect_timeout_default;
      enable_retry = get_bool_config svc port port_retry_enabled port_retry_enabled_default;
      retry_on = get_string_config svc port port_retry_on port_retry_on_default;
      num_retries = get_uint32_config svc port port_num_retries port_num_retries_default;
      circuit_breaker_default_max_connections =
          get_uint32_config svc port port_circuit_breaker_default_max_connections
            port_circuit_breaker_default_max_connections_default;
      circuit_breaker_default_max_pending_requests =
          get_uint32_config svc port port_circuit_breaker_default_max_pending_requests
            port_circuit_breaker_default_max_pending_requests_default;
      circuit_breaker_default_max_requests =
          get_uint32_config svc port port_circuit_breaker_default_max_requests
            port_circuit_breaker_default_max_requests_default;
      circuit_breaker_default_max_retries =
          get_uint32_config svc port port_circuit_breaker_default_max_retries
            port_circuit_breaker_default_max_retries_default;
      circuit_breaker_default_track_remaining =
          get_bool_config svc port port_circuit_breaker_default_track_remaining
            port_circuit_breaker_default_track_remaining_default;
      circuit_breaker_high_max_connections =
          get_uint32_config svc port port_circuit_breaker_high_max_connections
            port_circuit_breaker_high_max_connections_default;
      circuit_breaker_high_max_pending_requests =
          get_uint32_config svc port port_circuit_breaker_high_max_pending_requests
            port_circuit_breaker_high_max_pending_requests_default;
      circuit_breaker_high_max_requests =
          get_uint32_config svc port port_circuit_breaker_high_max_requests
            port_circuit_breaker_high_max_requests_default;
      circuit_breaker_high_max_retries =
          get_uint32_config svc port port_circuit_breaker_high_max_retries
            port_circuit_breaker_high_max_retries_default;
      circuit_breaker_high_track_remaining =
          get_bool_config svc port port_circuit_breaker_high_track_remaining
            port_circuit_breaker_high_track_remaining_default;
      outlier_detection_interval =
          get_duration_config svc port port_outlier_detection_interval
            port_outlier_detection_interval_default;
      outlier_detection_base_ejection_time =
          get_duration_config svc port port_outlier_detection_base_ejection_time
            port_outlier_detection_base_ejection_time_default;
      outlier_detection_max_ejection_time =
          get_duration_config svc port port_outlier_detection_max_ejection_time
            port_outlier_detection_max_ejection_time_default;
      outlier_detection_max_ejection_percent =
          get_uint32_config svc port port_outlier_detection_max_ejection_percent
            port_outlier_detection_max_ejection_percent_default;
      outlier_detection_consecutive_5xx =
          get_uint32_config svc port port_outlier_detection_consecutive_5xx
            port_outlier_detection_consecutive_5xx_default;
      outlier_detection_consecutive_gateway_failure =
          get_uint32_config svc port port_outlier_detection_consecutive_gateway_failure
            port_outlier_detection_consecutive_gateway_failure_default;
      access_log = get_bool_config svc port access_log access_log_default;
      load_balancing_policy = lb_policy;
    }
