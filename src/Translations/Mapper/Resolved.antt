-- ===== src/Translations/Mapper/Resolved.antt =====
-- The listeners of a snapshot name only clusters of the snapshot.
use mathlib.Core.Option.{some-injective}
use lightpath.Prelude.{
  subst, ◌≡◌, refl, String, Bool, true, ◌&&◌, some, Bool-cases, inl, inr, List, [], ◌∷◌, ◌==◌,
  string_eq, arith,
}
use lightpath.Prelude.MapRange.{MapRange}
use lightpath.Kube
use lightpath.Kube.{ServicePort}
use lightpath.State.Snapshot as kube_snapshot
use lightpath.State.Snapshot.{Service}
use lightpath.Translations.Envoy.{Snapshot}
use lightpath.Translations.PortSettings.{get_port_setings}
use lightpath.Translations.Cluster.{map_service_port_to_clusters}
use lightpath.Translations.Listener.{map_service_port_to_listeners}
use lightpath.Translations.Mapper.{
  Resources, map_port, port_loop, service_loop, envoy_snapshot_from_kube_snapshot,
}
use lightpath.Translations.Mapper.Turn.{service_loop-Turn, translated-loop}
use lightpath.Translations.Mapper.References.{
  resolved, lists_families, resolved-append, cluster_names-loop, cluster_ip_loop-targets,
  node_port_loop-targets, port_names, all_in_refl,
}

abbrev pub all_list_families : List Service → Bool
all_list_families [] = true
all_list_families (svc ∷ rest) =
    lists_families svc.obj.spec.cluster_ips svc.obj.spec.ip_families && all_list_families rest

-- The clusters of a port resolve its listeners.
port-resolved :
    (svc : Kube.Service) (port : ServicePort)
    → lists_families svc.spec.cluster_ips svc.spec.ip_families ≡ true
    → resolved (map_service_port_to_listeners svc port) (map_service_port_to_clusters svc port)
      ≡ true
unfolding map_service_port_to_listeners map_service_port_to_clusters port_names
port-resolved svc port h =
    let port_settings = get_port_setings svc port in
    let ips = cluster_ip_loop-targets svc port port_settings svc.spec.cluster_ips [] h refl in
    rw (cluster_names-loop svc port port_settings svc.spec.ip_families [])
      (elim (Bool-cases (svc.spec.service_type == "NodePort")) [
        | inl node_port ↦ rw node_port (
            node_port_loop-targets svc port port_settings svc.spec.ip_families _
              (all_in_refl svc.spec.ip_families) ips)
        | inr cluster_ip ↦ rw cluster_ip ips
      ])

map_port-resolved :
    (svc : Kube.Service) (port : ServicePort) (out : Resources)
    → lists_families svc.spec.cluster_ips svc.spec.ip_families ≡ true
    → resolved out.listeners out.clusters ≡ true
    → resolved (map_port svc port out).listeners (map_port svc port out).clusters ≡ true
unfolding map_port
map_port-resolved svc port out h k = elim (Bool-cases (port.protocol == "TCP")) [
  | inl over_tcp ↦
      rw (map_port, over_tcp)
        (resolved-append out.listeners (map_service_port_to_listeners svc port) out.clusters
          (map_service_port_to_clusters svc port) k (port-resolved svc port h))
  | inr other ↦ rw (map_port, other) k
]

port_loop-resolved :
    (svc : Kube.Service) (ports : List ServicePort) (out : Resources)
    → lists_families svc.spec.cluster_ips svc.spec.ip_families ≡ true
    → resolved out.listeners out.clusters ≡ true
    → resolved (port_loop svc ports out).listeners (port_loop svc ports out).clusters ≡ true
unfolding port_loop
port_loop-resolved svc [] out h k = k
port_loop-resolved svc (port ∷ rest) out h k =
    port_loop-resolved svc rest (map_port svc port out) h (map_port-resolved svc port out h k)

service_loop-resolved :
    (r : MapRange) (svcs : List Service) (out out' : Resources)
    → all_list_families svcs ≡ true
    → resolved out.listeners out.clusters ≡ true
    → service_loop r svcs out ≡ some out'
    → resolved out'.listeners out'.clusters ≡ true
unfolding service_loop
service_loop-resolved r [] out out' h k e =
    subst (λ o. resolved o.listeners o.clusters ≡ true) (some-injective out out' e) k
service_loop-resolved r (svc ∷ rest) out out' h k e =
    let t = service_loop-Turn r svc rest out out' e in
    let ported = port_loop-resolved svc.obj svc.obj.spec.ports out (ground (arith, h)) k in
    service_loop-resolved r rest t.next out' (ground (arith, h))
      (rw (t.clusters, t.listeners) ported) t.goes_on

-- When the IP families of every service list that of each of its cluster IPs, the snapshot that is made
-- of the services has, for every cluster that a proxy or a route of its listeners names, a cluster of
-- that name.
pub envoy_snapshot-resolved :
    (r : MapRange) (now : String) (snap : kube_snapshot.Snapshot) (out : Snapshot)
    → all_list_families snap.services ≡ true
    → envoy_snapshot_from_kube_snapshot r now snap ≡ some out
    → resolved out.listeners out.clusters ≡ true
envoy_snapshot-resolved r now snap out h e =
    let (res, fine, made) = translated-loop r now snap out e in
    let start : Resources = record { clusters = []; listeners = []; endpoints = [] } in
    rw made (service_loop-resolved r snap.services start res h refl fine)
