-- ===== src/Wellknown.antt =====
-- pkg/wellknown/wellknown.go. A duration is its number of nanoseconds.
use lightpath.Prelude.{ℕ, ◌*◌, String, Bool, true, false}
use lightpath.Prelude.Int.{ℤ, pos}

-- `time.Second`
abbrev pub second : ℕ
second = 1000000000

abbrev pub lightpath_proxy_name : String
lightpath_proxy_name = "lightpath.cloud"

abbrev pub lightpath_proxy_enabled_label : String
lightpath_proxy_enabled_label = "lightpath.cloud/proxy"

abbrev pub lightpath_redirect_iptables : String
lightpath_redirect_iptables = "iptables"

abbrev pub lightpath_envoy_port : ℤ
lightpath_envoy_port = pos 1666

abbrev pub port_config_annotation_prefix : String
port_config_annotation_prefix = "config.lightpath.cloud/"

abbrev pub port_idle_timeout : String
port_idle_timeout = "idle-timeout"

abbrev pub port_idle_timeout_default : ℕ
port_idle_timeout_default = 300 * second

abbrev pub port_upstream_idle_timeout : String
port_upstream_idle_timeout = "upstream-idle-timeout"

abbrev pub port_upstream_idle_timeout_default : ℕ
port_upstream_idle_timeout_default = 15 * second

abbrev pub port_request_timeout : String
port_request_timeout = "request-timeout"

abbrev pub port_request_timeout_default : ℕ
port_request_timeout_default = 15 * second

abbrev pub port_upstream_request_timeout : String
port_upstream_request_timeout = "upstream-request-timeout"

abbrev pub port_upstream_request_timeout_default : ℕ
port_upstream_request_timeout_default = 5 * second

abbrev pub port_upstream_connect_timeout : String
port_upstream_connect_timeout = "upstream-connect-timeout"

abbrev pub port_upstream_connect_timeout_default : ℕ
port_upstream_connect_timeout_default = 5 * second

abbrev pub access_log : String
access_log = "access-log"

abbrev pub access_log_default : Bool
access_log_default = true

abbrev pub load_balancing_policy : String
load_balancing_policy = "lb-policy"

abbrev pub load_balancing_policy_default : String
load_balancing_policy_default = "LEAST_REQUEST"

abbrev pub port_retry_enabled : String
port_retry_enabled = "retry-enabled"

abbrev pub port_retry_on : String
port_retry_on = "retry-on"

abbrev pub port_num_retries : String
port_num_retries = "num-retries"

abbrev pub port_retry_enabled_default : Bool
port_retry_enabled_default = true

abbrev pub port_num_retries_default : ℕ
port_num_retries_default = 2

abbrev pub port_retry_on_default : String
port_retry_on_default = "5xx,reset,retriable-headers"

abbrev pub port_circuit_breaker_default_max_connections : String
port_circuit_breaker_default_max_connections = "circuit-breaker-default-max-connections"

abbrev pub port_circuit_breaker_default_max_connections_default : ℕ
port_circuit_breaker_default_max_connections_default = 1000000000

abbrev pub port_circuit_breaker_default_max_pending_requests : String
port_circuit_breaker_default_max_pending_requests = "circuit-breaker-default-max-pending-requests"

abbrev pub port_circuit_breaker_default_max_pending_requests_default : ℕ
port_circuit_breaker_default_max_pending_requests_default = 1000000000

abbrev pub port_circuit_breaker_default_max_requests : String
port_circuit_breaker_default_max_requests = "circuit-breaker-default-max-requests"

abbrev pub port_circuit_breaker_default_max_requests_default : ℕ
port_circuit_breaker_default_max_requests_default = 1000000000

abbrev pub port_circuit_breaker_default_max_retries : String
port_circuit_breaker_default_max_retries = "circuit-breaker-default-max-retries"

abbrev pub port_circuit_breaker_default_max_retries_default : ℕ
port_circuit_breaker_default_max_retries_default = 3

abbrev pub port_circuit_breaker_default_track_remaining : String
port_circuit_breaker_default_track_remaining = "circuit-breaker-default-track-remaining"

abbrev pub port_circuit_breaker_default_track_remaining_default : Bool
port_circuit_breaker_default_track_remaining_default = false

abbrev pub port_circuit_breaker_high_max_connections : String
port_circuit_breaker_high_max_connections = "circuit-breaker-high-max-connections"

abbrev pub port_circuit_breaker_high_max_connections_default : ℕ
port_circuit_breaker_high_max_connections_default = 1000000000

abbrev pub port_circuit_breaker_high_max_pending_requests : String
port_circuit_breaker_high_max_pending_requests = "circuit-breaker-high-max-pending-requests"

abbrev pub port_circuit_breaker_high_max_pending_requests_default : ℕ
port_circuit_breaker_high_max_pending_requests_default = 1000000000

abbrev pub port_circuit_breaker_high_max_requests : String
port_circuit_breaker_high_max_requests = "circuit-breaker-high-max-requests"

abbrev pub port_circuit_breaker_high_max_requests_default : ℕ
port_circuit_breaker_high_max_requests_default = 1000000000

abbrev pub port_circuit_breaker_high_max_retries : String
port_circuit_breaker_high_max_retries = "circuit-breaker-high-max-retries"

abbrev pub port_circuit_breaker_high_max_retries_default : ℕ
port_circuit_breaker_high_max_retries_default = 3

abbrev pub port_circuit_breaker_high_track_remaining : String
port_circuit_breaker_high_track_remaining = "circuit-breaker-high-track-remaining"

abbrev pub port_circuit_breaker_high_track_remaining_default : Bool
port_circuit_breaker_high_track_remaining_default = false

abbrev pub port_outlier_detection_interval : String
port_outlier_detection_interval = "outlier-detection-interval"

abbrev pub port_outlier_detection_interval_default : ℕ
port_outlier_detection_interval_default = 10 * second

abbrev pub port_outlier_detection_base_ejection_time : String
port_outlier_detection_base_ejection_time = "outlier-detection-base-ejection-time"

abbrev pub port_outlier_detection_base_ejection_time_default : ℕ
port_outlier_detection_base_ejection_time_default = 30 * second

abbrev pub port_outlier_detection_max_ejection_time : String
port_outlier_detection_max_ejection_time = "outlier-detection-max-ejection-time"

abbrev pub port_outlier_detection_max_ejection_time_default : ℕ
port_outlier_detection_max_ejection_time_default = 300 * second

abbrev pub port_outlier_detection_max_ejection_percent : String
port_outlier_detection_max_ejection_percent = "outlier-detection-max-ejection-percent"

abbrev pub port_outlier_detection_max_ejection_percent_default : ℕ
port_outlier_detection_max_ejection_percent_default = 10

abbrev pub port_outlier_detection_consecutive_5xx : String
port_outlier_detection_consecutive_5xx = "outlier-detection-consecutive-5xx"

abbrev pub port_outlier_detection_consecutive_5xx_default : ℕ
port_outlier_detection_consecutive_5xx_default = 5

abbrev pub port_outlier_detection_consecutive_gateway_failure : String
port_outlier_detection_consecutive_gateway_failure = "outlier-detection-consecutive-gateway-failure"

abbrev pub port_outlier_detection_consecutive_gateway_failure_default : ℕ
port_outlier_detection_consecutive_gateway_failure_default = 5

abbrev pub app_protocol_tcp : String
app_protocol_tcp = "tcp"

abbrev pub app_protocol_http : String
app_protocol_http = "http"

abbrev pub app_protocol_redis : String
app_protocol_redis = "lightpath.cloud/redis"
