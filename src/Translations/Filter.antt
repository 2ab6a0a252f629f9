-- ===== src/Translations/Filter.antt =====
-- pkg/translations/filter_tcp.go and filter_http.go. Packing a configuration does not fail.
use lightpath.Prelude.{◌*◌, String, true, List, [], ◌∷◌, if◌then◌else◌}
use lightpath.Wellknown.{second}
use lightpath.Translations.Envoy.{
  FilterChain, tcp_proxy, http_connection_manager, HttpConnectionManager, VirtualHost,
  reject_request,
}
use lightpath.Translations.PortSettings.{PortSettings}

unfoldable pub gen_tcp_filter_chain : PortSettings → String → List FilterChain
gen_tcp_filter_chain port_settings target_cluster_name =
    record {
      filters =
          record {
            name = "envoy.filters.network.tcp_proxy";
            config = tcp_proxy (record {
              stat_prefix = "source_tcp";
              cluster = target_cluster_name;
              idle_timeout = port_settings.idle_timeout;
              upstream_idle_timeout = port_settings.upstream_idle_timeout;
              max_connect_attempts = port_settings.num_retries;
            });
          }
          ∷ [];
    }
    ∷ []

abbrev pub stdout_access_log_config : List (String × String)
stdout_access_log_config =
    ("start_time", "%START_TIME%")
    ∷ ("method", "%REQ(:METHOD)%")
    ∷ ("authority", "%REQ(:AUTHORITY)%")
    ∷ ("path", "%REQ(X-ENVOY-ORIGINAL-PATH?:PATH)%")
    ∷ ("protocol", "%PROTOCOL%")
    ∷ ("response_code", "%RESPONSE_CODE%")
    ∷ ("response_flags", "%RESPONSE_FLAGS%")
    ∷ ("bytes_received", "%BYTES_RECEIVED%")
    ∷ ("bytes_sent", "%BYTES_SENT%")
    ∷ ("duration", "%DURATION%")
    ∷ ("request_id", "%REQ(X-REQUEST-ID)%")
    ∷ ("upstream_host", "%UPSTREAM_HOST%")
    ∷ ("upstream_request_attempt_count", "%UPSTREAM_REQUEST_ATTEMPT_COUNT%")
    ∷ ("downstream_remote_address", "%DOWNSTREAM_REMOTE_ADDRESS%")
    ∷ []

-- The one virtual host, with its route and its retries.
unfoldable pub anycast : PortSettings → String → VirtualHost
anycast port_settings target_cluster_name = record {
  name = "anycast";
  domains = "*" ∷ [];
  include_request_attempt_count = true;
  routes =
      record {
        name = "catchall";
        prefix = "/";
        action = record {
          cluster = target_cluster_name;
          idle_timeout = port_settings.upstream_idle_timeout;
          timeout = port_settings.upstream_request_timeout;
        };
      }
      ∷ [];
  retry_policy = record {
    retry_on = port_settings.retry_on;
    num_retries = port_settings.num_retries;
    per_try_timeout = port_settings.upstream_request_timeout;
    per_try_idle_timeout = port_settings.upstream_idle_timeout;
    retry_host_predicate = "envoy.retry_host_predicates.previous_hosts" ∷ [];
  };
}

unfoldable pub gen_http_filter_chain : PortSettings → String → List FilterChain
unfolding anycast
gen_http_filter_chain port_settings target_cluster_name =
    let hcm : HttpConnectionManager = record {
      stat_prefix = "source_http";
      common_idle_timeout = 3600 * second;
      headers_with_underscores_action = reject_request;
      http2_protocol_options = record {
        max_concurrent_streams = 100;
        initial_stream_window_size = 65536;
        initial_connection_window_size = 1048576;
      };
      stream_idle_timeout = port_settings.idle_timeout;
      request_timeout = port_settings.request_timeout;
      http_filters = "envoy.filters.http.router" ∷ [];
      route_config_name = "default";
      virtual_hosts = anycast port_settings target_cluster_name ∷ [];
      access_log = [];
    } in
    let logged : HttpConnectionManager =
      if port_settings.access_log
      then record hcm {
        access_log =
            record { name = "envoy.access_loggers.stdout"; json_format = stdout_access_log_config }
            ∷ [];
      }
      else hcm in
    record {
      filters =
          record {
            name = "envoy.filters.network.http_connection_manager";
            config = http_connection_manager logged;
          }
          ∷ [];
    }
    ∷ []
