-- ===== src/Tests/State.antt =====
-- pkg/state on two services and their slices.
use mathlib.Core.List.{Perm}
use lightpath.Prelude.{
  ◌≡◌, refl, String, true, false, none, some, List, [], ◌∷◌, map, arith, string_eq, text_ge, ◌↔◌,
}
use lightpath.Prelude.Dict.{lookup, values, insert}
use lightpath.Prelude.Lists.{All}
use lightpath.Prelude.MapRange.{in_order}
use lightpath.Kube
use lightpath.Kube.{EndpointSlice, label_service_name}
use lightpath.State.Service.{ServiceContainer, updated, labelled_for, update_endpointslices}
use lightpath.State.Service.Slices.{
  stored_at_least, lookup-update_endpointslices, status-update_endpointslices,
}
use lightpath.State.Service.Versions.{StoredSince, update_all, update_all_newest}
use lightpath.State.Cache.{
  ClusterServiceStateCache, update_services, update_endpoint_slice, snapshot,
}
use lightpath.State.Cache.Change.{update_services_drops}
use lightpath.State.Cache.Invariant.{IsFiled, IsWellFormed}
use lightpath.State.Cache.Contents.{Shows, view, snapshot-contents}
use lightpath.State.Subscriber.{
  Subscriber, new_subscriber, Action, handles, dispatches, locks, marks, receives, checks, takes,
  service_add, service_update, endpoint_slice_add, step, run, handle,
}
use lightpath.State.Subscriber.Delivery.{run-delivers, run-IsWellFormed}
use lightpath.State.Subscriber.Entries.{run-entries}

abbrev service_of : String → String → Kube.Service
service_of namespace version = record {
  object_meta = record {
    name = "web";
    namespace = namespace;
    resource_version = version;
    labels = [];
    annotations = [];
  };
  spec = record {
    ports = [];
    cluster_ips = "10.0.0.1" ∷ [];
    external_ips = [];
    ip_families = "IPv4" ∷ [];
    service_type = "ClusterIP";
  };
}

abbrev slice_of : String → EndpointSlice
slice_of version = record {
  object_meta = record {
    name = "web-x";
    namespace = "shop";
    resource_version = version;
    labels = (label_service_name, "web") ∷ [];
    annotations = [];
  };
  address_type = "IPv4";
  endpoints = [];
  ports = [];
}

abbrev web : ServiceContainer
web = record {
  obj = service_of "shop" "7";
  opts = tt;
  endpoint_slices = ("web-x", slice_of "5") ∷ [];
}

abbrev stocked : ClusterServiceStateCache
stocked = record { services = ("web", web) ∷ [] }

lookup-update_endpointslices_example :
    (lookup "web-x" (update_endpointslices web (some (slice_of "6")) false).0.endpoint_slices
      ≡ some (slice_of "6"))
    × ((update_endpointslices web (some (slice_of "6")) false).0.obj ≡ web.obj)
unfolding update_endpointslices labelled_for lookup insert text_ge string_eq
lookup-update_endpointslices_example = lookup-update_endpointslices web (slice_of "6") false "web-x"

update_all_newest_example :
    StoredSince
      (update_all web ((slice_of "6", true) ∷ (slice_of "6", false) ∷ (slice_of "4", false) ∷ []))
      "web-x"
      "6"
unfolding labelled_for lookup string_eq
update_all_newest_example =
    update_all_newest web ((slice_of "6", true) ∷ []) ((slice_of "4", false) ∷ []) (slice_of "6")
      refl refl

update_services_drops_example :
    update_services stocked (some (service_of "shop" "10")) false ≡ (stocked, false)
unfolding lookup string_eq
update_services_drops_example =
    update_services_drops stocked (service_of "shop" "7") (service_of "shop" "10")
      web.endpoint_slices "7" "1" "" "0" refl refl refl (omega arith)

status-update_endpointslices_example :
    ((update_endpointslices web (some (slice_of "6")) false).1 ≡ updated) ↔ (
      (labelled_for (slice_of "6") "web" ≡ true)
      × (false ≡ false)
      × (stored_at_least web (slice_of "6") ≡ false))
status-update_endpointslices_example = (status-update_endpointslices web (slice_of "6") false).2

web-IsFiled : IsFiled "web" web
unfolding lookup labelled_for string_eq
web-IsFiled = record { named = refl; nodup = (refl, tt); filed = ((refl, refl), tt) }

stocked-IsWellFormed : IsWellFormed stocked
unfolding lookup string_eq
stocked-IsWellFormed = record { nodup = (refl, tt); filed = (web-IsFiled, tt) }

snapshot-contents_example :
    Perm (map (view in_order) (values stocked.services)) (snapshot in_order stocked).services
    × All (λ s. Shows s (view in_order s)) (values stocked.services)
snapshot-contents_example = snapshot-contents in_order stocked stocked-IsWellFormed

-- The service arrives while `ReceiveEvent` is not called, and is marked as lost; then it is fetched.
abbrev missed : List Action
missed = handles (service_add (some (service_of "shop" "7"))) ∷ dispatches ∷ locks ∷ marks ∷ []

abbrev fetched : List Action
fetched =
    handles (service_add (some (service_of "shop" "7")))
    ∷ dispatches
    ∷ locks
    ∷ marks
    ∷ receives
    ∷ checks
    ∷ takes
    ∷ []

subscriber_after : List Action → Subscriber
unfolding run step handle update_services new_subscriber lookup insert string_eq snapshot
subscriber_after schedule = elim (run in_order (new_subscriber in_order) schedule) [
  | none ↦ new_subscriber in_order
  | some s ↦ s
]

fetched_services : map (λ w. w.obj.name) (subscriber_after fetched).delivered.services ≡ "web" ∷ []
unfolding subscriber_after
fetched_services = refl

run-delivers_example :
    (subscriber_after fetched).delivered
    ≡ snapshot in_order (subscriber_after fetched).cluster_state
unfolding subscriber_after
run-delivers_example = run-delivers in_order fetched (subscriber_after fetched) refl refl

run-IsWellFormed_example : IsWellFormed (subscriber_after fetched).cluster_state
unfolding subscriber_after
run-IsWellFormed_example = run-IsWellFormed in_order fetched (subscriber_after fetched) refl

-- A slice before its service is lost.
abbrev shopping : List Action
shopping =
    handles (endpoint_slice_add (some (slice_of "4")))
    ∷ handles (service_add (some (service_of "shop" "7")))
    ∷ dispatches
    ∷ handles (endpoint_slice_add (some (slice_of "5")))
    ∷ receives
    ∷ handles (service_update none (some (service_of "shop" "8")))
    ∷ []

run-entries_example :
    lookup "web" (subscriber_after shopping).cluster_state.services
    ≡ some (record web { obj = service_of "shop" "8" })
unfolding subscriber_after string_eq update_endpointslices update_endpoint_slice text_ge
    labelled_for
run-entries_example = run-entries in_order shopping (subscriber_after shopping) "web" refl
