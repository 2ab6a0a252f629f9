-- ===== src/Tests/Controlplane.antt =====
-- The update loop of the control plane over a server that holds one snapshot.
mod Goroutines
mod Signals
mod Endpoints
use lightpath.Prelude.{◌≡◌, refl, String, Option, none, some, List, [], ◌∷◌, string_eq}
use lightpath.Prelude.Dict.{lookup, insert}
use lightpath.Prelude.Int.{pos}
use lightpath.Prelude.MapRange.{in_order}
use lightpath.Kube
use lightpath.State.Cache.{update_services, snapshot}
use lightpath.State.Subscriber.{
  new_subscriber, Action, handles, dispatches, receives, checks, takes, service_add, step, handle,
}
use lightpath.Translations.Envoy.{Snapshot}
use lightpath.Translations.Mapper.{service_loop, envoy_snapshot_from_kube_snapshot}
use lightpath.Translations.Endpoints.{
  map_endpoint_slice_to_locality_endpoints, extract_endpoint_meta_and_state,
}
use lightpath.Controlplane.{
  SnapshotCache, IsLawful, Plane, new_plane, returned, deliver, plane_step, plane_run,
}
use lightpath.Controlplane.Current.{Serves, moves, plane_run-current}
use lightpath.Controlplane.Settles.{plane_run-settles}
use lightpath.State.Subscriber.Progress.{IsInternal}
use lightpath.Prelude.Lists.{All}

abbrev one_node : SnapshotCache
one_node = record {
  State = Option Snapshot;
  Error = String;
  set_snapshot = λ node snap s. (some snap, none);
  get_snapshot = λ node s. s;
}

abbrev one_node-IsLawful : IsLawful one_node
one_node-IsLawful = record { get-set = λ node snap s. refl }

abbrev web : Kube.Service
web = record {
  object_meta = record {
    name = "web";
    namespace = "default";
    resource_version = "1";
    labels = [];
    annotations = [];
  };
  spec = record {
    ports =
        record {
          name = "tcp";
          protocol = "TCP";
          app_protocol = none;
          port = pos 80;
          target_port = record { int_val = pos 8080; str_val = "" };
          node_port = pos 0;
        }
        ∷ [];
    cluster_ips = "10.0.0.1" ∷ [];
    external_ips = [];
    ip_families = "IPv4" ∷ [];
    service_type = "ClusterIP";
  };
}

-- `ReceiveEvent` waits, and a service arrives.
abbrev arrival : List (String × Action)
arrival =
    ("1", receives)
    ∷ ("2", checks)
    ∷ ("3", handles (service_add (some web)))
    ∷ ("4", dispatches)
    ∷ ("5", takes)
    ∷ []

start : Plane one_node "node" in_order
start = new_plane one_node "node" in_order none

plane_after : List (String × Action) → Plane one_node "node" in_order
unfolding start plane_run
plane_after schedule = elim (plane_run one_node "node" in_order start schedule) [
  | none ↦ start
  | some p ↦ p
]

plane_run-current_example :
    Serves one_node one_node-IsLawful "node" in_order
      (plane_after arrival).server
      (snapshot in_order (plane_after arrival).subscriber.cluster_state)
unfolding plane_after start plane_step step new_plane new_subscriber deliver returned handle
    update_services lookup envoy_snapshot_from_kube_snapshot service_loop snapshot insert
    map_endpoint_slice_to_locality_endpoints extract_endpoint_meta_and_state
plane_run-current_example =
    plane_run-current one_node one_node-IsLawful "node" in_order none arrival (plane_after arrival)
      refl refl

-- A service is stored, and its handler has not dispatched.
abbrev stored : List (String × Action)
stored = ("1", receives) ∷ ("2", handles (service_add (some web))) ∷ []

plane_run-settles_example :
    (rest : List (String × Action)) × (q : Plane one_node "node" in_order) × All IsInternal
      (moves rest)
    × (plane_run one_node "node" in_order (plane_after stored) rest ≡ some q)
    × Serves one_node one_node-IsLawful "node" in_order q.server
        (snapshot in_order (plane_after stored).subscriber.cluster_state)
unfolding plane_after start plane_step step new_plane new_subscriber deliver returned handle
    update_services lookup snapshot insert
plane_run-settles_example =
    plane_run-settles one_node one_node-IsLawful "node" in_order none stored (plane_after stored)
      "3" refl refl
