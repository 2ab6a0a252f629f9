-- ===== src/Translations/Cluster.antt =====
-- pkg/translations/mapper_cluster.go
use lightpath.Prelude.{String, List, [], ◌∷◌, ◌++◌}
use lightpath.Kube.{Service, ServicePort}
use lightpath.Translations.Envoy.{Cluster, default, high, eds, ads, v3}
use lightpath.Translations.Helper.{get_cluster_name}
use lightpath.Translations.PortSettings.{PortSettings, get_port_setings}

-- The body of the loop over the IP families.
unfoldable pub gen_cluster : Service → ServicePort → PortSettings → String → Cluster
gen_cluster svc port port_settings ip_family = record {
  name = get_cluster_name svc.namespace svc.name ip_family port.target_port.int_val;
  connect_timeout = port_settings.upstream_connect_timeout;
  discovery_type = eds;
  eds_config = ads v3;
  lb_policy = port_settings.load_balancing_policy;
  circuit_breakers =
      record {
        priority = default;
        max_connections = port_settings.circuit_breaker_default_max_connections;
        max_pending_requests = port_settings.circuit_breaker_default_max_pending_requests;
        max_requests = port_settings.circuit_breaker_default_max_requests;
        max_retries = port_settings.circuit_breaker_default_max_retries;
        track_remaining = port_settings.circuit_breaker_default_track_remaining;
      }
      ∷ record {
        priority = high;
        max_connections = port_settings.circuit_breaker_high_max_connections;
        max_pending_requests = port_settings.circuit_breaker_high_max_pending_requests;
        max_requests = port_settings.circuit_breaker_high_max_requests;
        max_retries = port_settings.circuit_breaker_high_max_retries;
        track_remaining = port_settings.circuit_breaker_high_track_remaining;
      }
      ∷ [];
  outlier_detection = record {
    interval = port_settings.outlier_detection_interval;
    base_ejection_time = port_settings.outlier_detection_base_ejection_time;
    max_ejection_time = port_settings.outlier_detection_max_ejection_time;
    max_ejection_percent = port_settings.outlier_detection_max_ejection_percent;
    consecutive_5xx = port_settings.outlier_detection_consecutive_5xx;
    consecutive_gateway_failure = port_settings.outlier_detection_consecutive_gateway_failure;
  };
}

unfoldable pub cluster_loop :
    Service → ServicePort → PortSettings → List String → List Cluster → List Cluster
cluster_loop svc port port_settings [] buf = buf
cluster_loop svc port port_settings (ip_family ∷ rest) buf =
    cluster_loop svc port port_settings rest
      (buf ++ (gen_cluster svc port port_settings ip_family ∷ []))

unfoldable pub map_service_port_to_clusters : Service → ServicePort → List Cluster
unfolding cluster_loop
map_service_port_to_clusters svc port =
    let port_settings = get_port_setings svc port in
    cluster_loop svc port port_settings svc.spec.ip_families []
