-- ===== src/Translations/Mapper/Turn.antt =====
-- The translation of a snapshot, service by service.
use mathlib.Core.List.{append_assoc}
use mathlib.Core.Option.{some-injective}
use lightpath.Prelude.{
  ◌≡◌, refl, sym, ap, ◌∙◌, String, none, some, List, [], ◌∷◌, ◌++◌, ◌==◌, string_eq, Option-cases,
  Bool-cases, inl, inr, arith,
}
use lightpath.Prelude.MapRange.{MapRange}
use lightpath.Kube
use lightpath.Kube.{ServicePort, EndpointSlice}
use lightpath.State.Snapshot as kube_snapshot
use lightpath.State.Snapshot.{Service}
use lightpath.Translations.Envoy.{ClusterLoadAssignment, Snapshot}
use lightpath.Translations.Endpoints.{
  Locality, States, extract_endpoint_meta_and_state, map_endpoint_slice_to_locality_endpoints,
}
use lightpath.Translations.Endpoints.Assigned.{assigned, at_locality}
use lightpath.Translations.Mapper.{
  Resources, map_port, port_loop, service_loop, envoy_snapshot_from_kube_snapshot,
}

pub assigned-append :
    (name : String) (locality : Locality) (xs ys : List ClusterLoadAssignment)
    → assigned name locality (xs ++ ys) ≡ assigned name locality xs ++ assigned name locality ys
assigned-append name locality [] ys = refl
assigned-append name locality (x ∷ xs) ys =
    let IH = assigned-append name locality xs ys in
    elim (Bool-cases (name == x.cluster_name)) [
      | inl hit ↦ rw (hit, IH) (sym (append_assoc (at_locality locality x.endpoints) _ _))
      | inr miss ↦ rw (miss, IH) refl
    ]

-- The ports of a service add no load assignment.
port_loop-endpoints :
    (svc : Kube.Service) (ports : List ServicePort) (out : Resources)
    → (port_loop svc ports out).endpoints ≡ out.endpoints
unfolding port_loop map_port
port_loop-endpoints svc [] out = refl
port_loop-endpoints svc (port ∷ rest) out =
    port_loop-endpoints svc rest (map_port svc port out) ∙ ground arith

-- What can be mapped has been extracted.
map-extracted :
    (r : MapRange) (svc : Kube.Service) (endpointslices : List EndpointSlice)
    (mapped : List ClusterLoadAssignment)
    → map_endpoint_slice_to_locality_endpoints r svc endpointslices ≡ some mapped
    → (states : States) × (extract_endpoint_meta_and_state endpointslices ≡ some states)
unfolding map_endpoint_slice_to_locality_endpoints
map-extracted r svc endpointslices mapped e =
    elim (Option-cases (extract_endpoint_meta_and_state endpointslices)) [
      | inl panics ↦
          let stops : map_endpoint_slice_to_locality_endpoints r svc endpointslices ≡ none =
            rw (map_endpoint_slice_to_locality_endpoints, panics) refl in
          absurd (cc (stops, e))
      | inr found ↦ found
    ]

service_loop-step :
    (r : MapRange) (svc : Service) (rest : List Service) (out : Resources)
    (mapped : List ClusterLoadAssignment)
    → map_endpoint_slice_to_locality_endpoints r svc.obj svc.endpoint_slices ≡ some mapped
    → service_loop r (svc ∷ rest) out
      ≡ service_loop r rest (record (port_loop svc.obj svc.obj.spec.ports out) {
        endpoints = (port_loop svc.obj svc.obj.spec.ports out).endpoints ++ mapped;
      })
unfolding service_loop
service_loop-step r svc rest out mapped fine = rw (service_loop, fine) refl

-- A service whose endpoints can be extracted, and the rest of the loop.
pub record Turn (r : MapRange) (svc : Service) (rest : List Service) (out out' : Resources)
    : Type 0 where
  pub states : States
  pub mapped : List ClusterLoadAssignment
  pub next : Resources
  pub extracted : extract_endpoint_meta_and_state svc.endpoint_slices ≡ some states
  pub translated :
      map_endpoint_slice_to_locality_endpoints r svc.obj svc.endpoint_slices ≡ some mapped
  pub added : next.endpoints ≡ out.endpoints ++ mapped
  pub clusters : next.clusters ≡ (port_loop svc.obj svc.obj.spec.ports out).clusters
  pub listeners : next.listeners ≡ (port_loop svc.obj svc.obj.spec.ports out).listeners
  pub goes_on : service_loop r rest next ≡ some out'

pub service_loop-Turn :
    (r : MapRange) (svc : Service) (rest : List Service) (out out' : Resources)
    → service_loop r (svc ∷ rest) out ≡ some out'
    → Turn r svc rest out out'
unfolding service_loop
service_loop-Turn r svc rest out out' e =
    let ported = port_loop svc.obj svc.obj.spec.ports out in
    elim (Option-cases (map_endpoint_slice_to_locality_endpoints r svc.obj svc.endpoint_slices)) [
      | inl panics ↦
          let stops : service_loop r (svc ∷ rest) out ≡ none = rw (service_loop, panics) refl in
          absurd (cc (stops, e))
      | inr (mapped, fine) ↦
          let (states, read) = map-extracted r svc.obj svc.endpoint_slices mapped fine in
          record {
            states = states;
            mapped = mapped;
            next = record ported { endpoints = ported.endpoints ++ mapped };
            extracted = read;
            translated = fine;
            added = ap (λ es. es ++ mapped) (port_loop-endpoints svc.obj svc.obj.spec.ports out);
            clusters = refl;
            listeners = refl;
            goes_on = sym (service_loop-step r svc rest out mapped fine) ∙ e;
          }
    ]

-- A result of the translation is the result of its loop.
pub translated-loop :
    (r : MapRange) (now : String) (snap : kube_snapshot.Snapshot) (out : Snapshot)
    → envoy_snapshot_from_kube_snapshot r now snap ≡ some out
    → (res : Resources) × (service_loop r snap.services
          (record { clusters = []; listeners = []; endpoints = [] })
        ≡ some res)
      × (out ≡ record {
        version = now;
        listeners = res.listeners;
        clusters = res.clusters;
        endpoints = res.endpoints;
      })
unfolding envoy_snapshot_from_kube_snapshot
translated-loop r now snap out e =
    let start : Resources = record { clusters = []; listeners = []; endpoints = [] } in
    elim (Option-cases (service_loop r snap.services start)) [
      | inl panics ↦
          let stops : envoy_snapshot_from_kube_snapshot r now snap ≡ none =
            rw (envoy_snapshot_from_kube_snapshot, panics) refl in
          absurd (cc (stops, e))
      | inr (res, fine) ↦
          let made : envoy_snapshot_from_kube_snapshot r now snap
              ≡ some (record {
                version = now;
                listeners = res.listeners;
                clusters = res.clusters;
                endpoints = res.endpoints;
              }) =
            rw (envoy_snapshot_from_kube_snapshot, fine) refl in
          (res, fine, some-injective out _ (sym e ∙ made))
    ]
