-- ===== src/Translations/Mapper/NamedAssignments.antt =====
-- How many load assignments of a snapshot have the name of a cluster.
use mathlib.Core.Option.{some-injective}
use lightpath.Prelude.{
  ◌≡◌, sym, ap, ◌∙◌, ℕ, ◌+◌, String, Bool, false, ◌&&◌, some, List, [], ◌∷◌, ◌==◌, string_eq,
  if◌then◌else◌, arith,
}
use lightpath.Prelude.Int.{ℤ}
use lightpath.Prelude.Lists.{All, any}
use lightpath.Prelude.Texts as texts
use lightpath.Prelude.Dict.{AllEntries}
use lightpath.Prelude.MapRange.{MapRange}
use lightpath.Kube
use lightpath.State.Snapshot as kube_snapshot
use lightpath.State.Snapshot.{Service}
use lightpath.Translations.Envoy.{ClusterLoadAssignment, Snapshot}
use lightpath.Translations.Helper.{get_cluster_name}
use lightpath.Translations.Helper.Names.{has_bar}
use lightpath.Translations.Endpoints.{States, int_eq}
use lightpath.Translations.Endpoints.Serving.{
  IsPlain, IsPlainEntry, same_service, same_name, extracted-IsPlain,
}
use lightpath.Translations.Endpoints.Reported.{reported, extraction-reported}
use lightpath.Translations.Endpoints.Assignments.{named, has_entry, map-named}
use lightpath.Translations.Mapper.{Resources, service_loop, envoy_snapshot_from_kube_snapshot}
use lightpath.Translations.Mapper.Turn.{service_loop-Turn, translated-loop}

-- Some endpoint has the family and the port.
abbrev pub present : String → ℤ → States → Bool
present family target = any (λ (meta, _). family == meta.ip_family && target == meta.port)

-- What the slices of a service report.
abbrev pub states_of : Service → States
states_of s = reported s.endpoint_slices

-- The services of a name and namespace that have an endpoint of the family and port.
abbrev pub assignments_for : Kube.Service → String → ℤ → List Service → ℕ
assignments_for svc family target [] = 0
assignments_for svc family target (s ∷ rest) =
    (if same_service svc s.obj && present family target (states_of s) then 1 else 0)
    + assignments_for svc family target rest

module _ (svc : Kube.Service) (family : String) (target : ℤ) (plain : IsPlain svc)
    (barless : has_bar family ≡ false) where
  name : String
  name = get_cluster_name svc.namespace svc.name family target

  has_entry-present :
      (other : Kube.Service) (states : States)
      → IsPlain other
      → AllEntries IsPlainEntry states
      → has_entry other name states ≡ (same_service svc other && present family target states)
  unfolding name
  has_entry-present other [] q h = ground arith
  has_entry-present other ((meta, state) ∷ states) q (f, h) = ground (
    arith,
    has_entry-present other states q h,
    same_name svc other family target meta plain q barless f,
  )

  service_loop-named :
      (r : MapRange) (svcs : List Service) (out out' : Resources)
      → All (λ s. IsPlain s.obj) svcs
      → service_loop r svcs out ≡ some out'
      → named name out'.endpoints
        ≡ named name out.endpoints + assignments_for svc family target svcs
  unfolding service_loop
  service_loop-named r [] out out' h e =
      ground (arith, ap (λ o. named name o.endpoints) (some-injective out out' e))
  service_loop-named r (other ∷ rest) out out' (q, h) e =
      let t = service_loop-Turn r other rest out out' e in
      let read : states_of other ≡ t.states =
        sym (extraction-reported other.endpoint_slices t.states t.extracted) in
      ground (
        arith,
        service_loop-named r rest t.next out' h t.goes_on,
        ap (named name) t.added,
        texts.named-append (λ (a : ClusterLoadAssignment). a.cluster_name) name out.endpoints
            t.mapped,
        map-named r other.obj other.endpoint_slices t.states t.mapped name t.extracted t.translated,
        has_entry-present other.obj t.states q
            (extracted-IsPlain other.endpoint_slices t.states t.extracted),
        ap (present family target) read,
      )

-- Where no service of a snapshot and no IP family has a bar: its translation has as many load
-- assignments with the name of a service, an IP family and a target port as there are services of
-- that name and namespace whose slices have an endpoint of that family and port.
pub envoy_snapshot-named_assignments :
    (r : MapRange) (now : String) (snap : kube_snapshot.Snapshot) (out : Snapshot)
    (svc : Kube.Service) (family : String) (target : ℤ)
    → IsPlain svc
    → has_bar family ≡ false
    → All (λ s. IsPlain s.obj) snap.services
    → envoy_snapshot_from_kube_snapshot r now snap ≡ some out
    → named (get_cluster_name svc.namespace svc.name family target) out.endpoints
      ≡ assignments_for svc family target snap.services
unfolding name
envoy_snapshot-named_assignments r now snap out svc family target plain barless h e =
    let (res, fine, made) = translated-loop r now snap out e in
    let start : Resources = record { clusters = []; listeners = []; endpoints = [] } in
    rw made (
      service_loop-named svc family target plain barless r snap.services start res h fine
      ∙ ground arith)
