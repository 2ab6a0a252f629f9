-- ===== src/Translations/Mapper/Consistent.antt =====
-- The load assignments of a snapshot name only clusters of the snapshot.
use mathlib.Core.Option.{some-injective}
use lightpath.Prelude.{
  subst, eqb, not, ◌≡◌, sym, refl, ap, String, Bool, true, ◌&&◌, ◌||◌, some, List, [], ◌∷◌, map,
  ◌==◌, string_eq, arith,
}
use lightpath.Prelude.Int.{ℤ}
use lightpath.Prelude.Lists.{any}
use lightpath.Prelude.Texts.{contains, contains-append, contains-map}
use lightpath.Prelude.Texts as texts
use lightpath.Prelude.MapRange.{MapRange}
use lightpath.Kube
use lightpath.Kube.{ServicePort}
use lightpath.State.Snapshot as kube_snapshot
use lightpath.State.Snapshot.{Service}
use lightpath.Translations.Envoy.{Cluster, ClusterLoadAssignment, Snapshot}
use lightpath.Translations.PortSettings.{get_port_setings}
use lightpath.Translations.Cluster.{map_service_port_to_clusters}
use lightpath.Translations.Endpoints.{EndpointMeta, States, int_eq, cluster_name_of}
use lightpath.Translations.Endpoints.Reported.{extraction-reported}
use lightpath.Translations.Endpoints.Assignments.{named, has_entry, map-named}
use lightpath.Translations.Mapper.{
  Resources, map_port, port_loop, service_loop, envoy_snapshot_from_kube_snapshot,
}
use lightpath.Translations.Mapper.Turn.{service_loop-Turn, translated-loop}
use lightpath.Translations.Mapper.NamedAssignments.{states_of}
use lightpath.Translations.Mapper.References.{
  cluster_names, cluster_names-append, cluster_names-loop, name_of, all_in, all_in_each,
}

-- The service lists the IP family and has a TCP port with the target port.
abbrev pub exposes : Kube.Service → String → ℤ → Bool
exposes svc family target =
    contains family svc.spec.ip_families
    && any (λ (p : ServicePort). p.protocol == "TCP" && target == p.target_port.int_val)
        svc.spec.ports

abbrev all_exposed : Kube.Service → States → Bool
all_exposed svc [] = true
all_exposed svc ((meta, _) ∷ rest) = exposes svc meta.ip_family meta.port && all_exposed svc rest

-- Each endpoint of each service has an IP family and a port that the service exposes.
abbrev pub all_services_exposed : List Service → Bool
all_services_exposed [] = true
all_services_exposed (s ∷ rest) = all_exposed s.obj (states_of s) && all_services_exposed rest

-- Some TCP port gives a cluster of the name.
abbrev gives : Kube.Service → String → List ServicePort → Bool
gives svc name =
    any (λ p. p.protocol == "TCP" && contains name (map (name_of svc p) svc.spec.ip_families))

map_port-contains :
    (svc : Kube.Service) (port : ServicePort) (out : Resources) (name : String)
    → contains name (cluster_names (map_port svc port out).clusters) ≡ (
        contains name (cluster_names out.clusters)
        || (port.protocol == "TCP" && contains name (map (name_of svc port) svc.spec.ip_families)))
unfolding map_port map_service_port_to_clusters
map_port-contains svc port out name = ground (
  arith,
  cluster_names-append out.clusters (map_service_port_to_clusters svc port),
  cluster_names-loop svc port (get_port_setings svc port) svc.spec.ip_families [],
  contains-append name (cluster_names out.clusters) (map (name_of svc port) svc.spec.ip_families),
)

port_loop-contains :
    (svc : Kube.Service) (ports : List ServicePort) (out : Resources) (name : String)
    → contains name (cluster_names (port_loop svc ports out).clusters)
      ≡ (contains name (cluster_names out.clusters) || gives svc name ports)
unfolding port_loop
port_loop-contains svc [] out name = ground arith
port_loop-contains svc (port ∷ rest) out name = ground (
  arith,
  port_loop-contains svc rest (map_port svc port out) name,
  map_port-contains svc port out name,
)

-- A port with the target port of an endpoint gives the cluster of the endpoint.
exposed-given :
    (svc : Kube.Service) (meta : EndpointMeta) (ports : List ServicePort)
    → contains meta.ip_family svc.spec.ip_families ≡ true
    → any (λ (p : ServicePort). p.protocol == "TCP" && meta.port == p.target_port.int_val) ports
      ≡ true
    → gives svc (cluster_name_of svc meta) ports ≡ true
unfolding cluster_name_of
exposed-given svc meta [] h k = cc k
exposed-given svc meta (port ∷ rest) h k = ground (
  arith,
  exposed-given svc meta rest h,
  contains-map (name_of svc port) meta.ip_family svc.spec.ip_families h,
)

entry-given :
    (svc : Kube.Service) (states : States) (name : String)
    → all_exposed svc states ≡ true
    → has_entry svc name states ≡ true
    → gives svc name svc.spec.ports ≡ true
entry-given svc [] name h k = cc k
entry-given svc ((meta, state) ∷ rest) name h k =
    ground (arith, entry-given svc rest name, exposed-given svc meta svc.spec.ports)

-- The name of a load assignment is that of a cluster.
abbrev is_referenced : String → Resources → Bool
is_referenced name out =
    eqb (named name out.endpoints) 0 || contains name (cluster_names out.clusters)

service_loop-referenced :
    (r : MapRange) (svcs : List Service) (out out' : Resources) (name : String)
    → all_services_exposed svcs ≡ true
    → is_referenced name out ≡ true
    → service_loop r svcs out ≡ some out'
    → is_referenced name out' ≡ true
unfolding service_loop
service_loop-referenced r [] out out' name h k e =
    subst (λ o. is_referenced name o ≡ true) (some-injective out out' e) k
service_loop-referenced r (s ∷ rest) out out' name h k e =
    let t = service_loop-Turn r s rest out out' e in
    let read : states_of s ≡ t.states =
      sym (extraction-reported s.endpoint_slices t.states t.extracted) in
    let own = ap (all_exposed s.obj) read in
    let next : is_referenced name t.next ≡ true = ground (
      arith,
      h,
      k,
      own,
      ap (named name) t.added,
      texts.named-append (λ (a : ClusterLoadAssignment). a.cluster_name) name out.endpoints
          t.mapped,
      map-named r s.obj s.endpoint_slices t.states t.mapped name t.extracted t.translated,
      ap (λ cs. contains name (cluster_names cs)) t.clusters,
      port_loop-contains s.obj s.obj.spec.ports out name,
      entry-given s.obj t.states name,
    ) in
    service_loop-referenced r rest t.next out' name (ground (arith, h)) next t.goes_on

abbrev assignment_names : List ClusterLoadAssignment → List String
assignment_names [] = []
assignment_names (a ∷ rest) = a.cluster_name ∷ assignment_names rest

-- Every load assignment belongs to one of the clusters.
abbrev pub referenced : List ClusterLoadAssignment → List Cluster → Bool
referenced endpoints clusters = all_in (assignment_names endpoints) (cluster_names clusters)

named-contains :
    (name : String) (endpoints : List ClusterLoadAssignment)
    → contains name (assignment_names endpoints) ≡ not (eqb (named name endpoints) 0)
named-contains name [] = refl
named-contains name (a ∷ rest) = ground (arith, named-contains name rest)

-- When each endpoint of the slices of each service has an IP family that the service lists and the
-- target port of one of its TCP ports, the snapshot that is made of the services has a cluster of the
-- name of each of its load assignments.
pub envoy_snapshot-referenced :
    (r : MapRange) (now : String) (snap : kube_snapshot.Snapshot) (out : Snapshot)
    → all_services_exposed snap.services ≡ true
    → envoy_snapshot_from_kube_snapshot r now snap ≡ some out
    → referenced out.endpoints out.clusters ≡ true
envoy_snapshot-referenced r now snap out h e =
    let (res, fine, made) = translated-loop r now snap out e in
    let start : Resources = record { clusters = []; listeners = []; endpoints = [] } in
    let each =
      λ (name : String). service_loop-referenced r snap.services start res name h refl fine in
    rw made (
      all_in_each (assignment_names res.endpoints) (cluster_names res.clusters)
        (λ name k. ground (arith, each name, named-contains name res.endpoints, k)))
