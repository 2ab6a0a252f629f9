-- ===== src/Translations/Mapper/Served.antt =====
-- The load assignments of a whole snapshot.
use mathlib.Core.List.{Perm, append-nil}
use mathlib.Core.List.Perm
use mathlib.Core.Option.{some-injective}
use lightpath.Prelude.{
  ◌≡◌, refl, sym, ap, ◌∙◌, subst, String, false, some, List, [], ◌∷◌, ◌++◌, string_eq,
}
use lightpath.Prelude.Lists.{All}
use lightpath.Prelude.Int.{ℤ}
use lightpath.Prelude.MapRange.{MapRange}
use lightpath.Kube
use lightpath.Kube.{ServicePort, EndpointSlice}
use lightpath.State.Snapshot.{Service}
use lightpath.Translations.Envoy.{Snapshot}
use lightpath.Translations.Helper.{get_cluster_name}
use lightpath.Translations.PortSettings.{PortSettings}
use lightpath.Translations.Cluster.{gen_cluster}
use lightpath.Translations.Helper.Names.{has_bar}
use lightpath.Translations.Endpoints.{Locality, States, extract_endpoint_meta_and_state}
use lightpath.Translations.Endpoints.Groups.{belonging}
use lightpath.Translations.Endpoints.Assigned.{assigned}
use lightpath.Translations.Endpoints.Filled.{assigned-map}
use lightpath.Translations.Endpoints.Serving.{
  serving, IsPlain, same_service, belonging-serving, belonging-other, extracted-IsPlain,
}
use lightpath.Translations.Mapper.Turn.{assigned-append, Turn, service_loop-Turn, translated-loop}
use lightpath.Translations.Mapper.{Resources, service_loop, envoy_snapshot_from_kube_snapshot}

-- A plain service with another name or namespace.
abbrev pub IsOther : Kube.Service → Service → Type 0
IsOther svc other = IsPlain other.obj × (same_service svc other.obj ≡ false)

module _ (r : MapRange) (svc : Kube.Service) (family : String) (port : ℤ) (locality : Locality)
    (plain : IsPlain svc) (barless : has_bar family ≡ false) where
  name : String
  name = get_cluster_name svc.namespace svc.name family port

  other-Turn-assigned :
      (other : Service) (rest : List Service) (out out' : Resources)
      (t : Turn r other rest out out')
      → IsOther svc other
      → assigned name locality t.next.endpoints ≡ assigned name locality out.endpoints
  unfolding name
  other-Turn-assigned other rest out out' t (q, d) =
      let bare =
        belonging-other svc other.obj family port locality t.states plain q d barless
          (extracted-IsPlain other.endpoint_slices t.states t.extracted) in
      let none_mapped : assigned name locality t.mapped ≡ [] = sym (
        Perm.nil-eq (
          subst (λ xs. Perm xs (assigned name locality t.mapped)) bare
            (assigned-map r other.obj other.endpoint_slices t.states t.mapped name locality
              t.extracted t.translated))) in
      ap (assigned name locality) t.added
      ∙ assigned-append name locality out.endpoints t.mapped
      ∙ ap (λ xs. assigned name locality out.endpoints ++ xs) none_mapped
      ∙ append-nil (assigned name locality out.endpoints)

  others-assigned :
      (svcs : List Service) (out out' : Resources)
      → All (IsOther svc) svcs
      → service_loop r svcs out ≡ some out'
      → assigned name locality out'.endpoints ≡ assigned name locality out.endpoints
  unfolding service_loop
  others-assigned [] out out' h e =
      ap (λ o. assigned name locality o.endpoints) (sym (some-injective out out' e))
  others-assigned (other ∷ rest) out out' (o, h) e =
      let t = service_loop-Turn r other rest out out' e in
      others-assigned rest t.next out' h t.goes_on ∙ other-Turn-assigned other rest out out' t o

  target-assigned :
      (target : Service) (rest : List Service) (states : States) (out out' : Resources)
      → target.obj ≡ svc
      → All (IsOther svc) rest
      → extract_endpoint_meta_and_state target.endpoint_slices ≡ some states
      → service_loop r (target ∷ rest) out ≡ some out'
      → Perm
          (assigned name locality out.endpoints ++ serving family port locality states)
          (assigned name locality out'.endpoints)
  unfolding name
  target-assigned target rest states out out' same after read e =
      let t = service_loop-Turn r target rest out out' e in
      let own : t.states ≡ states = some-injective t.states states (sym t.extracted ∙ read) in
      let shown : belonging target.obj name locality t.states
          ≡ serving family port locality states =
        rw (same, own)
          (belonging-serving svc family port locality states plain barless
            (extracted-IsPlain target.endpoint_slices states read)) in
      let mapped =
        subst (λ xs. Perm xs (assigned name locality t.mapped)) shown
          (assigned-map r target.obj target.endpoint_slices t.states t.mapped name locality
            t.extracted t.translated) in
      let whole =
        others-assigned rest t.next out' after t.goes_on
        ∙ ap (assigned name locality) t.added
        ∙ assigned-append name locality out.endpoints t.mapped in
      subst
        (λ xs.
          Perm (assigned name locality out.endpoints ++ serving family port locality states) xs)
        (sym whole) (Perm.append_left (assigned name locality out.endpoints) mapped)

  split-assigned :
      (before : List Service) (target : Service) (after : List Service) (states : States)
      (out out' : Resources)
      → target.obj ≡ svc
      → All (IsOther svc) before
      → All (IsOther svc) after
      → extract_endpoint_meta_and_state target.endpoint_slices ≡ some states
      → service_loop r (before ++ (target ∷ after)) out ≡ some out'
      → Perm
          (assigned name locality out.endpoints ++ serving family port locality states)
          (assigned name locality out'.endpoints)
  unfolding name
  split-assigned [] target after states out out' same p q read e =
      target-assigned target after states out out' same q read e
  split-assigned (other ∷ before) target after states out out' same (o, p) q read e =
      let t = service_loop-Turn r other (before ++ (target ∷ after)) out out' e in
      let alone = other-Turn-assigned other (before ++ (target ∷ after)) out out' t o in
      subst
        (λ xs.
          Perm (xs ++ serving family port locality states) (assigned name locality out'.endpoints))
        alone (split-assigned before target after states t.next out' same p q read t.goes_on)

-- In a snapshot in which no other service has the name and namespace of this one, and no name or IP
-- family has a bar, the cluster of each of its ports and IP families has in each locality the
-- endpoints of its slices in that family and at that target port, each once, in some order, and no
-- others.
pub envoy_snapshot-serving :
    (r : MapRange) (now : String) (before after : List Service) (target : Service)
    (port : ServicePort) (port_settings : PortSettings) (family : String) (locality : Locality)
    (states : States) (out : Snapshot)
    → IsPlain target.obj
    → has_bar family ≡ false
    → All (IsOther target.obj) before
    → All (IsOther target.obj) after
    → extract_endpoint_meta_and_state target.endpoint_slices ≡ some states
    → envoy_snapshot_from_kube_snapshot r now (record { services = before ++ (target ∷ after) })
      ≡ some out
    → Perm
        (serving family port.target_port.int_val locality states)
        (assigned (gen_cluster target.obj port port_settings family).name locality out.endpoints)
unfolding gen_cluster name
envoy_snapshot-serving r now before after target port port_settings family locality states out plain
      barless p q read e =
    let (res, fine, made) =
      translated-loop r now (record { services = before ++ (target ∷ after) }) out e in
    let start : Resources = record { clusters = []; listeners = []; endpoints = [] } in
    rw made (
      split-assigned r target.obj family port.target_port.int_val locality plain barless before
        target after states start res refl p q read fine)
