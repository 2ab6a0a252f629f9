-- ===== src/Translations/Mapper/Order.antt =====
-- The order in which Go visits its maps does not show.
use mathlib.Core.List.{Perm}
use mathlib.Core.List.Perm
use mathlib.Core.Option.{some-injective}
use lightpath.Prelude.{◌≡◌, refl, sym, ◌∙◌, subst, String, some, List, [], ◌∷◌, arith}
use lightpath.Prelude.MapRange.{MapRange}
use lightpath.Kube
use lightpath.Kube.{ServicePort}
use lightpath.State.Snapshot as kube_snapshot
use lightpath.State.Snapshot.{Service}
use lightpath.Translations.Envoy.{Snapshot}
use lightpath.Translations.Endpoints.{Locality}
use lightpath.Translations.Endpoints.Groups.{belonging}
use lightpath.Translations.Endpoints.Assigned.{assigned}
use lightpath.Translations.Endpoints.Filled.{assigned-map}
use lightpath.Translations.Mapper.{
  Resources, map_port, port_loop, service_loop, envoy_snapshot_from_kube_snapshot,
}
use lightpath.Translations.Mapper.Turn.{assigned-append, Turn, service_loop-Turn, translated-loop}

-- The same clusters and listeners, and the same endpoints of a cluster and a locality, in any order.
pub record Alike (name : String) (locality : Locality) (a b : Resources) : Type 0 where
  pub same_clusters : a.clusters ≡ b.clusters
  pub same_listeners : a.listeners ≡ b.listeners
  pub same_endpoints :
      Perm (assigned name locality a.endpoints) (assigned name locality b.endpoints)

-- The clusters and listeners that the ports add do not depend on the endpoints.
port_loop_alike :
    (svc : Kube.Service) (ports : List ServicePort) (a b : Resources)
    → a.clusters ≡ b.clusters
    → a.listeners ≡ b.listeners
    → ((port_loop svc ports a).clusters ≡ (port_loop svc ports b).clusters)
      × ((port_loop svc ports a).listeners ≡ (port_loop svc ports b).listeners)
unfolding port_loop map_port
port_loop_alike svc [] a b p q = (p, q)
port_loop_alike svc (port ∷ rest) a b p q =
    port_loop_alike svc rest (map_port svc port a) (map_port svc port b) (ground arith)
      (ground arith)

module _ (r r' : MapRange) (name : String) (locality : Locality) where
  mapped-perm :
      (svc : Service) (rest rest' : List Service) (a a' b b' : Resources) (t : Turn r svc rest a a')
      (u : Turn r' svc rest' b b')
      → Perm (assigned name locality t.mapped) (assigned name locality u.mapped)
  mapped-perm svc rest rest' a a' b b' t u =
      let same = some-injective t.states u.states (sym t.extracted ∙ u.extracted) in
      let left =
        assigned-map r svc.obj svc.endpoint_slices t.states t.mapped name locality t.extracted
          t.translated in
      let right =
        assigned-map r' svc.obj svc.endpoint_slices u.states u.mapped name locality u.extracted
          u.translated in
      Perm.trans (Perm.symm left) (
        subst (λ s. Perm (belonging svc.obj name locality s) (assigned name locality u.mapped))
          (sym same) right)

  service_loop-Alike :
      (svcs : List Service) (a a' b b' : Resources)
      → Alike name locality a b
      → service_loop r svcs a ≡ some a'
      → service_loop r' svcs b ≡ some b'
      → Alike name locality a' b'
  unfolding service_loop
  service_loop-Alike [] a a' b b' h e e' =
      subst (λ x. Alike name locality x b') (some-injective a a' e)
        (subst (Alike name locality a) (some-injective b b' e') h)
  service_loop-Alike (svc ∷ rest) a a' b b' h e e' =
      let t = service_loop-Turn r svc rest a a' e in
      let u = service_loop-Turn r' svc rest b b' e' in
      let (p, q) =
        port_loop_alike svc.obj svc.obj.spec.ports a b h.same_clusters h.same_listeners in
      let grown = Perm.append h.same_endpoints (mapped-perm svc rest rest a a' b b' t u) in
      service_loop-Alike rest t.next a' u.next b'
        (record {
          same_clusters = t.clusters ∙ p ∙ sym u.clusters;
          same_listeners = t.listeners ∙ q ∙ sym u.listeners;
          same_endpoints =
              rw
                (
                  t.added,
                  u.added,
                  assigned-append name locality a.endpoints t.mapped,
                  assigned-append name locality b.endpoints u.mapped,
                )
                grown;
        })
        t.goes_on u.goes_on

-- Two translations of a snapshot have the same clusters and listeners, and for each cluster and
-- locality the same endpoints up to their order, in whatever orders they visit the maps.
pub envoy_snapshot-any_order :
    (r r' : MapRange) (now : String) (snap : kube_snapshot.Snapshot) (out out' : Snapshot)
    (name : String) (locality : Locality)
    → envoy_snapshot_from_kube_snapshot r now snap ≡ some out
    → envoy_snapshot_from_kube_snapshot r' now snap ≡ some out'
    → (out.clusters ≡ out'.clusters)
      × (out.listeners ≡ out'.listeners)
      × Perm (assigned name locality out.endpoints) (assigned name locality out'.endpoints)
envoy_snapshot-any_order r r' now snap out out' name locality e e' =
    let (res, fine, made) = translated-loop r now snap out e in
    let (res', fine', made') = translated-loop r' now snap out' e' in
    let start : Resources = record { clusters = []; listeners = []; endpoints = [] } in
    let alike =
      service_loop-Alike r r' name locality snap.services start res start res'
        (record { same_clusters = refl; same_listeners = refl; same_endpoints = Perm.refl [] }) fine
        fine' in
    rw (made, made') (alike.same_clusters, alike.same_listeners, alike.same_endpoints)
