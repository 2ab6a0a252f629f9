-- ===== src/Translations/Mapper.antt =====
-- pkg/translations/mapper.go. The version is the time at which the snapshot is made.
pub mod References
pub mod Resolved
pub mod Turn
pub mod Served
pub mod Order
pub mod Named
pub mod NamedListeners
pub mod NamedAssignments
pub mod Consistent
pub mod Index
pub mod Totality
use lightpath.Prelude.{
  String, Option, none, some, List, [], ◌∷◌, ◌++◌, ◌==◌, string_eq, if◌then◌else◌,
}
use lightpath.Prelude.MapRange.{MapRange}
use lightpath.Kube.{ServicePort}
use lightpath.Kube
use lightpath.State.Snapshot.{Service}
use lightpath.State.Snapshot as kube_snapshot
use lightpath.Translations.Envoy.{Cluster, Listener, ClusterLoadAssignment, Snapshot}
use lightpath.Translations.Cluster.{map_service_port_to_clusters}
use lightpath.Translations.Listener.{map_service_port_to_listeners}
use lightpath.Translations.Endpoints.{map_endpoint_slice_to_locality_endpoints}

-- The resources that the loops have collected.
pub record Resources : Type 0 where
  pub clusters : List Cluster
  pub listeners : List Listener
  pub endpoints : List ClusterLoadAssignment

-- The body of the loop over the ports: what TCP gives, and nothing for another protocol.
unfoldable pub map_port : Kube.Service → ServicePort → Resources → Resources
map_port svc port out =
    if port.protocol == "TCP"
    then record out {
      clusters = out.clusters ++ map_service_port_to_clusters svc port;
      listeners = out.listeners ++ map_service_port_to_listeners svc port;
    }
    else out

unfoldable pub port_loop : Kube.Service → List ServicePort → Resources → Resources
port_loop svc [] out = out
port_loop svc (port ∷ rest) out = port_loop svc rest (map_port svc port out)

unfoldable pub service_loop : MapRange → List Service → Resources → Option Resources
service_loop r [] out = some out
service_loop r (svc ∷ rest) out =
    elim (map_endpoint_slice_to_locality_endpoints r svc.obj svc.endpoint_slices) [
      | none ↦ none
      | some mapped ↦
          let out' = port_loop svc.obj svc.obj.spec.ports out in
          service_loop r rest (record out' { endpoints = out'.endpoints ++ mapped })
    ]

unfoldable pub envoy_snapshot_from_kube_snapshot :
    MapRange → String → kube_snapshot.Snapshot → Option Snapshot
envoy_snapshot_from_kube_snapshot r now snap =
    elim (service_loop r snap.services (record { clusters = []; listeners = []; endpoints = [] })) [
      | none ↦ none
      | some out ↦ some (record {
        version = now;
        listeners = out.listeners;
        clusters = out.clusters;
        endpoints = out.endpoints;
      })
    ]
