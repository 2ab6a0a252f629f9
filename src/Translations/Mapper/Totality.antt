-- ===== src/Translations/Mapper/Totality.antt =====
-- When the translation of a snapshot panics.
use lightpath.Prelude.{◌≡◌, refl, String, Bool, true, ◌&&◌, List, [], ◌∷◌, arith}
use lightpath.Prelude.MapRange.{MapRange}
use lightpath.State.Snapshot as kube_snapshot
use lightpath.State.Snapshot.{Service}
use lightpath.Prelude.{is_some}
use lightpath.Translations.Endpoints.Totality.{extractable, map-is_some}
use lightpath.Translations.Mapper.{Resources, service_loop, envoy_snapshot_from_kube_snapshot}

-- Every endpoint of every slice that has a port has an address, for all services.
abbrev pub all_extractable : List Service → Bool
all_extractable [] = true
all_extractable (svc ∷ rest) = extractable svc.endpoint_slices && all_extractable rest

service_loop-is_some :
    (r : MapRange) (svcs : List Service) (out : Resources)
    → is_some (service_loop r svcs out) ≡ all_extractable svcs
unfolding service_loop
service_loop-is_some r [] out = refl
service_loop-is_some r (svc ∷ rest) out =
    let IH : (out' : Resources) → is_some (service_loop r rest out') ≡ all_extractable rest =
      λ out'. service_loop-is_some r rest out' in
    let first = map-is_some r svc.obj svc.endpoint_slices in grind (arith, IH, first)

-- The translation of a snapshot gives a result exactly when every endpoint of every slice that has a
-- port has an address; otherwise it panics.
pub envoy_snapshot-is_some :
    (r : MapRange) (now : String) (snap : kube_snapshot.Snapshot)
    → is_some (envoy_snapshot_from_kube_snapshot r now snap) ≡ all_extractable snap.services
unfolding envoy_snapshot_from_kube_snapshot
envoy_snapshot-is_some r now snap =
    let start : Resources = record { clusters = []; listeners = []; endpoints = [] } in
    let first = service_loop-is_some r snap.services start in ground (arith, first)
