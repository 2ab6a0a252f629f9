-- ===== src/Translations/PortSettings/Bounds.antt =====
-- The numbers of the settings of a port, in the machine integers of the code.
use lightpath.Prelude.{◌^◌, ◌<◌, arith}
use lightpath.Prelude.Int.{u32_mod}
use lightpath.Kube.{Service, ServicePort}
use lightpath.Wellknown.{
  port_circuit_breaker_default_max_connections,
  port_circuit_breaker_default_max_connections_default,
  port_circuit_breaker_default_max_pending_requests,
  port_circuit_breaker_default_max_pending_requests_default,
  port_circuit_breaker_default_max_requests, port_circuit_breaker_default_max_requests_default,
  port_circuit_breaker_default_max_retries, port_circuit_breaker_default_max_retries_default,
  port_circuit_breaker_high_max_connections, port_circuit_breaker_high_max_connections_default,
  port_circuit_breaker_high_max_pending_requests,
  port_circuit_breaker_high_max_pending_requests_default, port_circuit_breaker_high_max_requests,
  port_circuit_breaker_high_max_requests_default, port_circuit_breaker_high_max_retries,
  port_circuit_breaker_high_max_retries_default, port_idle_timeout, port_idle_timeout_default,
  port_num_retries, port_num_retries_default, port_outlier_detection_base_ejection_time,
  port_outlier_detection_base_ejection_time_default, port_outlier_detection_consecutive_5xx,
  port_outlier_detection_consecutive_5xx_default,
  port_outlier_detection_consecutive_gateway_failure,
  port_outlier_detection_consecutive_gateway_failure_default, port_outlier_detection_interval,
  port_outlier_detection_interval_default, port_outlier_detection_max_ejection_percent,
  port_outlier_detection_max_ejection_percent_default, port_outlier_detection_max_ejection_time,
  port_outlier_detection_max_ejection_time_default, port_request_timeout,
  port_request_timeout_default, port_upstream_connect_timeout,
  port_upstream_connect_timeout_default, port_upstream_idle_timeout,
  port_upstream_idle_timeout_default, port_upstream_request_timeout,
  port_upstream_request_timeout_default,
}
use lightpath.Translations.Helper.Config.{get_uint32_config-lt, get_duration_config-bounds}
use lightpath.Translations.PortSettings.{PortSettings, get_port_setings}

-- The durations fit an `int64` of nanoseconds, the other numbers a `uint32`.
pub record IsBounded (port_settings : PortSettings) : Type 0 where
  pub idle_timeout-lt : port_settings.idle_timeout < 2 ^ 63
  pub request_timeout-lt : port_settings.request_timeout < 2 ^ 63
  pub upstream_request_timeout-lt : port_settings.upstream_request_timeout < 2 ^ 63
  pub upstream_idle_timeout-lt : port_settings.upstream_idle_timeout < 2 ^ 63
  pub upstream_connect_timeout-lt : port_settings.upstream_connect_timeout < 2 ^ 63
  pub outlier_detection_interval-lt : port_settings.outlier_detection_interval < 2 ^ 63
  pub outlier_detection_base_ejection_time-lt :
      port_settings.outlier_detection_base_ejection_time < 2 ^ 63
  pub outlier_detection_max_ejection_time-lt :
      port_settings.outlier_detection_max_ejection_time < 2 ^ 63
  pub num_retries-lt : port_settings.num_retries < u32_mod
  pub circuit_breaker_default_max_connections-lt :
      port_settings.circuit_breaker_default_max_connections < u32_mod
  pub circuit_breaker_default_max_pending_requests-lt :
      port_settings.circuit_breaker_default_max_pending_requests < u32_mod
  pub circuit_breaker_default_max_requests-lt :
      port_settings.circuit_breaker_default_max_requests < u32_mod
  pub circuit_breaker_default_max_retries-lt :
      port_settings.circuit_breaker_default_max_retries < u32_mod
  pub circuit_breaker_high_max_connections-lt :
      port_settings.circuit_breaker_high_max_connections < u32_mod
  pub circuit_breaker_high_max_pending_requests-lt :
      port_settings.circuit_breaker_high_max_pending_requests < u32_mod
  pub circuit_breaker_high_max_requests-lt :
      port_settings.circuit_breaker_high_max_requests < u32_mod
  pub circuit_breaker_high_max_retries-lt : port_settings.circuit_breaker_high_max_retries < u32_mod
  pub outlier_detection_max_ejection_percent-lt :
      port_settings.outlier_detection_max_ejection_percent < u32_mod
  pub outlier_detection_consecutive_5xx-lt :
      port_settings.outlier_detection_consecutive_5xx < u32_mod
  pub outlier_detection_consecutive_gateway_failure-lt :
      port_settings.outlier_detection_consecutive_gateway_failure < u32_mod

-- The settings of every port of every service are in bounds, whatever its annotations.
pub get_port_setings-IsBounded :
    (svc : Service) (port : ServicePort) → IsBounded (get_port_setings svc port)
unfolding get_port_setings
get_port_setings-IsBounded svc port = record {
  idle_timeout-lt =
      (get_duration_config-bounds svc port port_idle_timeout port_idle_timeout_default).0;
  request_timeout-lt =
      (get_duration_config-bounds svc port port_request_timeout port_request_timeout_default).0;
  upstream_request_timeout-lt =
      (get_duration_config-bounds svc port port_upstream_request_timeout
        port_upstream_request_timeout_default).0;
  upstream_idle_timeout-lt =
      (get_duration_config-bounds svc port port_upstream_idle_timeout
        port_upstream_idle_timeout_default).0;
  upstream_connect_timeout-lt =
      (get_duration_config-bounds svc port port_upstream_connect_timeout
        port_upstream_connect_timeout_default).0;
  outlier_detection_interval-lt =
      (get_duration_config-bounds svc port port_outlier_detection_interval
        port_outlier_detection_interval_default).0;
  outlier_detection_base_ejection_time-lt =
      (get_duration_config-bounds svc port port_outlier_detection_base_ejection_time
        port_outlier_detection_base_ejection_time_default).0;
  outlier_detection_max_ejection_time-lt =
      (get_duration_config-bounds svc port port_outlier_detection_max_ejection_time
        port_outlier_detection_max_ejection_time_default).0;
  num_retries-lt =
      get_uint32_config-lt svc port port_num_retries port_num_retries_default (omega arith);
  circuit_breaker_default_max_connections-lt =
      get_uint32_config-lt svc port port_circuit_breaker_default_max_connections
        port_circuit_breaker_default_max_connections_default (omega arith);
  circuit_breaker_default_max_pending_requests-lt =
      get_uint32_config-lt svc port port_circuit_breaker_default_max_pending_requests
        port_circuit_breaker_default_max_pending_requests_default (omega arith);
  circuit_breaker_default_max_requests-lt =
      get_uint32_config-lt svc port port_circuit_breaker_default_max_requests
        port_circuit_breaker_default_max_requests_default (omega arith);
  circuit_breaker_default_max_retries-lt =
      get_uint32_config-lt svc port port_circuit_breaker_default_max_retries
        port_circuit_breaker_default_max_retries_default (omega arith);
  circuit_breaker_high_max_connections-lt =
      get_uint32_config-lt svc port port_circuit_breaker_high_max_connections
        port_circuit_breaker_high_max_connections_default (omega arith);
  circuit_breaker_high_max_pending_requests-lt =
      get_uint32_config-lt svc port port_circuit_breaker_high_max_pending_requests
        port_circuit_breaker_high_max_pending_requests_default (omega arith);
  circuit_breaker_high_max_requests-lt =
      get_uint32_config-lt svc port port_circuit_breaker_high_max_requests
        port_circuit_breaker_high_max_requests_default (omega arith);
  circuit_breaker_high_max_retries-lt =
      get_uint32_config-lt svc port port_circuit_breaker_high_max_retries
        port_circuit_breaker_high_max_retries_default (omega arith);
  outlier_detection_max_ejection_percent-lt =
      get_uint32_config-lt svc port port_outlier_detection_max_ejection_percent
        port_outlier_detection_max_ejection_percent_default (omega arith);
  outlier_detection_consecutive_5xx-lt =
      get_uint32_config-lt svc port port_outlier_detection_consecutive_5xx
        port_outlier_detection_consecutive_5xx_default (omega arith);
  outlier_detection_consecutive_gateway_failure-lt =
      get_uint32_config-lt svc port port_outlier_detection_consecutive_gateway_failure
        port_outlier_detection_consecutive_gateway_failure_default (omega arith);
}
