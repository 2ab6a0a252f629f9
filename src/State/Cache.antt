-- ===== src/State/Cache.antt =====
-- pkg/state/cache.go. The logger is left out, and each method, under the mutex, is one step. The map
-- holds pointers to containers: a call that writes through one is written as storing it again.
pub mod Change
pub mod Invariant
pub mod Contents
use lightpath.Prelude.{String, Bool, true, false, Option, none, some, [], map, text_ge, string_eq}
use lightpath.Prelude.{if◌then◌else◌}
use lightpath.Prelude.Dict.{Dict, lookup, insert, erase, values}
use lightpath.Prelude.MapRange.{MapRange, assign_all}
use lightpath.Kube
use lightpath.Kube.{EndpointSlice, label_service_name}
use lightpath.State.Snapshot.{Snapshot}
use lightpath.State.Service.{
  ServiceContainer, EndpointSliceOperationStatus, noop, new_service_container, deep_copy, update,
  update_endpointslices, snapshot as container_snapshot,
}

pub record ClusterServiceStateCache : Type 0 where
  pub services : Dict String ServiceContainer

unfoldable pub new_cache : ClusterServiceStateCache
new_cache = record { services = [] }

-- `err := existing.Update(svc)`, and the return on an error.
unfoldable pub update_existing :
    ClusterServiceStateCache → ServiceContainer → Kube.Service → ClusterServiceStateCache × Bool
unfolding update
update_existing c existing svc =
    let (existing', err) = update existing (some svc) in
    let c' : ClusterServiceStateCache = record c {
      services = insert svc.name existing' c.services;
    } in
    elim err [ some _ ↦ (c', false) | none ↦ (c', true) ]

unfoldable pub update_service :
    ClusterServiceStateCache → Kube.Service → ClusterServiceStateCache × Bool
unfolding update_existing new_service_container
update_service c svc = elim (lookup svc.name c.services) [
  | some existing ↦
      if text_ge existing.obj.resource_version svc.resource_version
      then (c, false)
      else update_existing c existing svc
  | none ↦ (record c { services = insert svc.name (new_service_container svc) c.services }, true)
]

unfoldable pub delete_service :
    ClusterServiceStateCache → Kube.Service → ClusterServiceStateCache × Bool
delete_service c svc = elim (lookup svc.name c.services) [
  | some _ ↦ (record c { services = erase svc.name c.services }, true)
  | none ↦ (c, false)
]

unfoldable pub update_services :
    ClusterServiceStateCache → Option Kube.Service → Bool → ClusterServiceStateCache × Bool
unfolding update_service delete_service
update_services c none delete = (c, false)
update_services c (some svc) delete = if delete then delete_service c svc else update_service c svc

abbrev reports : EndpointSliceOperationStatus → Bool
reports noop = false
reports _ = true

unfoldable pub update_endpoint_slice :
    ClusterServiceStateCache → Option EndpointSlice → Bool → ClusterServiceStateCache × Bool
unfolding update_endpointslices
update_endpoint_slice c none delete = (c, false)
update_endpoint_slice c (some es) delete = elim (lookup label_service_name es.labels) [
  | none ↦ (c, false)
  | some svc_name ↦ elim (lookup svc_name c.services) [
    | some svc ↦
        let (svc', res) = update_endpointslices svc (some es) delete in
        (record c { services = insert svc_name svc' c.services }, reports res)
    | none ↦ (c, true)
  ]
]

unfoldable pub deep_copy_cache : MapRange → ClusterServiceStateCache → ClusterServiceStateCache
unfolding assign_all deep_copy
deep_copy_cache r c = record {
  services = assign_all (map (λ (k, v). (k, deep_copy r v)) (r.visit _ c.services)) [];
}

unfoldable pub snapshot : MapRange → ClusterServiceStateCache → Snapshot
unfolding deep_copy_cache container_snapshot
snapshot r orig =
    let c = deep_copy_cache r orig in
    record { services = map (container_snapshot r) (values (r.visit _ c.services)) }
