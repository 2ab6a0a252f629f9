-- ===== src/Translations/Listener.antt =====
-- pkg/translations/mapper_listener.go
pub mod Targets
use lightpath.Prelude.{
  ℕ, String, Bool, true, false, List, [], ◌∷◌, ◌++◌, ◌==◌, string_eq, if◌then◌else◌,
}
use lightpath.Prelude.Int.{ℤ, to_uint32}
use lightpath.Kube.{Service, ServicePort}
use lightpath.Translations.Envoy.{Listener, FilterChain}
use lightpath.Translations.Helper.{
  get_cluster_name, get_listener_name, ip_string_to_ip_family, ipv6_protocol,
}
use lightpath.Translations.PortSettings.{PortSettings, Protocol, tcp, http, redis, get_port_setings}
use lightpath.Translations.Filter.{gen_tcp_filter_chain, gen_http_filter_chain}

-- The switch on the protocol, which leaves the chains nil for any other.
unfoldable pub filter_chains_for : Protocol → PortSettings → String → List FilterChain
filter_chains_for tcp port_settings target = gen_tcp_filter_chain port_settings target
filter_chains_for http port_settings target = gen_http_filter_chain port_settings target
filter_chains_for redis port_settings target = []

unfoldable pub gen_listener : String → String → ℤ → Bool → PortSettings → String → Listener
unfolding filter_chains_for
gen_listener listener_name ip port bind port_settings target_cluster_name = record {
  name = listener_name;
  address = record { address = ip; port_value = to_uint32 port };
  per_connection_buffer_limit_bytes = 32768;
  bind_to_port = bind;
  filter_chains = filter_chains_for port_settings.protocol port_settings target_cluster_name;
}

module _ (svc : Service) (port : ServicePort) (port_settings : PortSettings) where
  unfoldable pub cluster_ip_listener : String → Listener
  cluster_ip_listener ip =
      let target_cluster_name =
        get_cluster_name svc.namespace svc.name (ip_string_to_ip_family ip)
          port.target_port.int_val in
      let listener_name = get_listener_name svc.namespace svc.name ip port.port in
      gen_listener listener_name ip port.port false port_settings target_cluster_name

  -- The loop over the cluster IPs.
  unfoldable pub cluster_ip_loop : List String → List Listener → List Listener
  cluster_ip_loop [] buf = buf
  cluster_ip_loop (ip ∷ rest) buf =
      cluster_ip_loop rest (if ip == "None" then buf else buf ++ (cluster_ip_listener ip ∷ []))

  unfoldable pub node_port_listener : String → Listener
  node_port_listener ip_family =
      let target_cluster_name =
        get_cluster_name svc.namespace svc.name ip_family port.target_port.int_val in
      let ip : String = if ip_family == ipv6_protocol then "::" else "0.0.0.0" in
      let listener_name = get_listener_name svc.namespace svc.name ip port.node_port in
      gen_listener listener_name ip port.node_port true port_settings target_cluster_name

  -- The loop over the IP families of a NodePort service.
  unfoldable pub node_port_loop : List String → List Listener → List Listener
  node_port_loop [] buf = buf
  node_port_loop (ip_family ∷ rest) buf =
      node_port_loop rest (buf ++ (node_port_listener ip_family ∷ []))

unfoldable pub map_service_port_to_listeners : Service → ServicePort → List Listener
unfolding cluster_ip_loop node_port_loop
map_service_port_to_listeners svc port =
    let port_settings = get_port_setings svc port in
    let buf = cluster_ip_loop svc port port_settings svc.spec.cluster_ips [] in
    if svc.spec.service_type == "NodePort"
    then node_port_loop svc port port_settings svc.spec.ip_families buf
    else buf
