-- ===== src/State/Service.antt =====
-- pkg/state/service.go. A method that writes returns the container after it, with its result; the
-- mutex makes each method one step. Nothing writes into a stored object, so a deep copy of an
-- object is that object.
pub mod Slices
pub mod Versions
use lightpath.Prelude.{
  ℕ, String, Bool, ◌||◌, Option, none, some, List, [], ◌==◌, not, string_eq, text_ge, if◌then◌else◌,
}
use lightpath.Prelude.Dict.{Dict, lookup, insert, erase, values}
use lightpath.Prelude.MapRange.{MapRange, assign_all}
use lightpath.Kube
use lightpath.Kube.{EndpointSlice, label_service_name}
use lightpath.State.Snapshot

-- In the order of the constants.
pub data EndpointSliceOperationStatus : Type 0 where
  noop updated deleted invalid_service_label error : EndpointSliceOperationStatus

-- The constant's number.
unfoldable pub status_number : EndpointSliceOperationStatus → ℕ
status_number noop = 0
status_number updated = 1
status_number deleted = 2
status_number invalid_service_label = 3
status_number error = 4

unfoldable pub status_string : EndpointSliceOperationStatus → String
status_string deleted = "EndpointSlice deleted"
status_string updated = "EndpointSlice updated"
status_string invalid_service_label = "EndpointSlice update failed, invalid service label"
status_string error = "EndpointSlice update failed, invalid reference"
status_string noop = "EndpointSlice updated not required"

-- The struct has no field so far.
abbrev pub ServiceOpts : Type 0
ServiceOpts = Unit

unfoldable pub update_opts : ServiceOpts → Kube.Service → ServiceOpts
update_opts so svc = so

unfoldable pub new_service_opts : Kube.Service → ServiceOpts
unfolding update_opts
new_service_opts svc = update_opts tt svc

pub record ServiceContainer : Type 0 where
  pub obj : Kube.Service
  pub opts : ServiceOpts
  pub endpoint_slices : Dict String EndpointSlice

unfoldable pub new_service_container : Kube.Service → ServiceContainer
unfolding new_service_opts
new_service_container svc = record { obj = svc; opts = new_service_opts svc; endpoint_slices = [] }

unfoldable pub deep_copy : MapRange → ServiceContainer → ServiceContainer
unfolding assign_all
deep_copy r s = record {
  obj = s.obj;
  opts = s.opts;
  endpoint_slices = assign_all (r.visit _ s.endpoint_slices) [];
}

-- The error is `none` where the code returns nil.
unfoldable pub update : ServiceContainer → Option Kube.Service → ServiceContainer × Option String
unfolding update_opts
update s none = (s, some "nullptr")
update s (some new) = (record s { obj = new; opts = update_opts s.opts new }, none)

-- Insertions, and updates of what is stored.
unfoldable pub update_endpoint_slice :
    ServiceContainer → EndpointSlice → ServiceContainer × EndpointSliceOperationStatus
update_endpoint_slice s es = elim (lookup es.name s.endpoint_slices) [
  | some existing ↦
      if text_ge existing.resource_version es.resource_version
      then (s, noop)
      else (record s { endpoint_slices = insert es.name es s.endpoint_slices }, updated)
  | none ↦ (record s { endpoint_slices = insert es.name es s.endpoint_slices }, updated)
]

unfoldable pub delete_endpoint_slice :
    ServiceContainer → EndpointSlice → ServiceContainer × EndpointSliceOperationStatus
delete_endpoint_slice s es = elim (lookup es.name s.endpoint_slices) [
  | some _ ↦ (record s { endpoint_slices = erase es.name s.endpoint_slices }, deleted)
  | none ↦ (s, noop)
]

-- `svcName, ok := labels[…]; ok && svcName == s.obj.Name`
unfoldable pub labelled_for : EndpointSlice → String → Bool
labelled_for es svc_name = elim (lookup label_service_name es.labels) [
  | some label ↦ label == svc_name
  | none ↦ Bool.false
]

unfoldable pub update_endpointslices :
    ServiceContainer → Option EndpointSlice → Bool → ServiceContainer × EndpointSliceOperationStatus
unfolding update_endpoint_slice delete_endpoint_slice
update_endpointslices s none delete = (s, error)
update_endpointslices s (some es) delete =
    if not (labelled_for es s.obj.name)
    then (s, invalid_service_label)
    else if delete
    then delete_endpoint_slice s es
    else update_endpoint_slice s es

-- The slices in the order of the map's range.
unfoldable pub snapshot : MapRange → ServiceContainer → Snapshot.Service
snapshot r s = record { obj = s.obj; endpoint_slices = values (r.visit _ s.endpoint_slices) }
