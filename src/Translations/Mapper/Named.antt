-- ===== src/Translations/Mapper/Named.antt =====
-- How many clusters of a snapshot have a name.
use mathlib.Core.Option.{some-injective}
use lightpath.Prelude.{
  ◌≡◌, ap, ◌∙◌, ℕ, ◌+◌, ◌*◌, String, false, ◌&&◌, some, List, [], ◌∷◌, ◌++◌, ◌==◌, string_eq,
  if◌then◌else◌, arith,
}
use lightpath.Prelude.Int.{ℤ}
use lightpath.Prelude.Lists.{All}
use lightpath.Prelude.Texts as texts
use lightpath.Prelude.MapRange.{MapRange}
use lightpath.Kube
use lightpath.Kube.{ServicePort}
use lightpath.State.Snapshot as kube_snapshot
use lightpath.State.Snapshot.{Service}
use lightpath.Translations.Envoy.{Cluster, Snapshot}
use lightpath.Translations.Helper.{get_cluster_name}
use lightpath.Translations.Helper.Names.{has_bar, get_cluster_name_inj}
use lightpath.Translations.PortSettings.{PortSettings, get_port_setings}
use lightpath.Translations.Cluster.{gen_cluster, cluster_loop, map_service_port_to_clusters}
use lightpath.Translations.Endpoints.{int_eq}
use lightpath.Translations.Endpoints.Serving.{IsPlain, same_service}
use lightpath.Translations.Mapper.{
  Resources, map_port, port_loop, service_loop, envoy_snapshot_from_kube_snapshot,
}
use lightpath.Translations.Mapper.Turn.{service_loop-Turn, translated-loop}

-- The clusters of a name.
abbrev pub named : String → List Cluster → ℕ
named = texts.named (λ x. x.name)

-- How often a family is listed.
abbrev pub listed : String → List String → ℕ
listed family [] = 0
listed family (f ∷ fs) = (if family == f then 1 else 0) + listed family fs

-- The TCP ports with a target port.
abbrev pub targeting : ℤ → List ServicePort → ℕ
targeting target [] = 0
targeting target (port ∷ rest) =
    (if port.protocol == "TCP" && target == port.target_port.int_val then 1 else 0)
    + targeting target rest

-- The clusters that the services give for a service, an IP family and a target port.
abbrev pub clusters_for : Kube.Service → String → ℤ → List Service → ℕ
clusters_for svc family target [] = 0
clusters_for svc family target (s ∷ rest) =
    (if same_service svc s.obj
      then targeting target s.obj.spec.ports * listed family s.obj.spec.ip_families
      else 0)
    + clusters_for svc family target rest

-- Neither the service nor its IP families have a bar.
abbrev pub IsBarless : Service → Type 0
IsBarless svc = IsPlain svc.obj × All (λ f. has_bar f ≡ false) svc.obj.spec.ip_families

module _ (svc : Kube.Service) (family : String) (target : ℤ) (plain : IsPlain svc)
    (barless : has_bar family ≡ false) where
  name : String
  name = get_cluster_name svc.namespace svc.name family target

  same_cluster :
      (other : Kube.Service) (port : ServicePort) (settings : PortSettings) (f : String)
      → IsPlain other
      → has_bar f ≡ false
      → (name == (gen_cluster other port settings f).name)
        ≡ (same_service svc other && (family == f && target == port.target_port.int_val))
  unfolding name gen_cluster
  same_cluster other port settings f q g = ground (
    arith,
    get_cluster_name_inj svc.namespace other.namespace svc.name other.name family f target
        port.target_port.int_val plain.0 q.0 plain.1 q.1 barless g,
  )

  cluster_loop-named :
      (other : Kube.Service) (port : ServicePort) (settings : PortSettings) (fs : List String)
      (buf : List Cluster)
      → IsPlain other
      → All (λ f. has_bar f ≡ false) fs
      → named name (cluster_loop other port settings fs buf)
        ≡ named name buf
          + (if same_service svc other && target == port.target_port.int_val
              then listed family fs
              else 0)
  unfolding cluster_loop
  cluster_loop-named other port settings [] buf q h = ground arith
  cluster_loop-named other port settings (f ∷ fs) buf q (g, h) = ground (
    arith,
    cluster_loop-named other port settings fs (buf ++ (gen_cluster other port settings f ∷ [])) q h,
    texts.named-append (λ x. x.name) name buf (gen_cluster other port settings f ∷ []),
    same_cluster other port settings f q g,
  )

  map_port-named :
      (other : Kube.Service) (port : ServicePort) (out : Resources)
      → IsPlain other
      → All (λ f. has_bar f ≡ false) other.spec.ip_families
      → named name (map_port other port out).clusters
        ≡ named name out.clusters
          + (if same_service svc other
                && (port.protocol == "TCP" && target == port.target_port.int_val)
              then listed family other.spec.ip_families
              else 0)
  unfolding map_port map_service_port_to_clusters
  map_port-named other port out q h = ground (
    arith,
    texts.named-append (λ x. x.name) name out.clusters (map_service_port_to_clusters other port),
    cluster_loop-named other port (get_port_setings other port) other.spec.ip_families [] q h,
  )

  port_loop-named :
      (other : Kube.Service) (ports : List ServicePort) (out : Resources)
      → IsPlain other
      → All (λ f. has_bar f ≡ false) other.spec.ip_families
      → named name (port_loop other ports out).clusters
        ≡ named name out.clusters
          + (if same_service svc other
              then targeting target ports * listed family other.spec.ip_families
              else 0)
  unfolding port_loop
  port_loop-named other [] out q h = ground arith
  port_loop-named other (port ∷ rest) out q h = ground (
    arith,
    port_loop-named other rest (map_port other port out) q h,
    map_port-named other port out q h,
  )

  service_loop-named :
      (r : MapRange) (svcs : List Service) (out out' : Resources)
      → All IsBarless svcs
      → service_loop r svcs out ≡ some out'
      → named name out'.clusters ≡ named name out.clusters + clusters_for svc family target svcs
  unfolding service_loop
  service_loop-named r [] out out' h e =
      ground (arith, ap (λ o. named name o.clusters) (some-injective out out' e))
  service_loop-named r (other ∷ rest) out out' ((q, g), h) e =
      let t = service_loop-Turn r other rest out out' e in
      ground (
        arith,
        service_loop-named r rest t.next out' h t.goes_on,
        ap (named name) t.clusters,
        port_loop-named other.obj other.obj.spec.ports out q g,
      )

-- Where no service and no IP family of a snapshot has a bar: its translation has as many clusters
-- with the name of a service, an IP family and a target port as the services of that name and
-- namespace have TCP ports with that target port, times how often they list the family.
pub envoy_snapshot-named :
    (r : MapRange) (now : String) (snap : kube_snapshot.Snapshot) (out : Snapshot)
    (svc : Kube.Service) (family : String) (target : ℤ)
    → IsPlain svc
    → has_bar family ≡ false
    → All IsBarless snap.services
    → envoy_snapshot_from_kube_snapshot r now snap ≡ some out
    → named (get_cluster_name svc.namespace svc.name family target) out.clusters
      ≡ clusters_for svc family target snap.services
unfolding name
envoy_snapshot-named r now snap out svc family target plain barless h e =
    let (res, fine, made) = translated-loop r now snap out e in
    let start : Resources = record { clusters = []; listeners = []; endpoints = [] } in
    rw made (
      service_loop-named svc family target plain barless r snap.services start res h fine
      ∙ ground arith)
