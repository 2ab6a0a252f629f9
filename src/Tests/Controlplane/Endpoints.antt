-- ===== src/Tests/Controlplane/Endpoints.antt =====
-- A service and its slice arrive, one after the other.
use mathlib.Core.List.{Perm}
use lightpath.Prelude.{◌≡◌, refl, String, none, some, true, false, List, [], ◌∷◌, string_eq}
use lightpath.Prelude.Int.{pos}
use lightpath.Prelude.Dict.{lookup, insert}
use lightpath.Prelude.MapRange.{in_order, assign_all}
use lightpath.Kube.{EndpointSlice, ServicePort, label_service_name}
use lightpath.State.Service.{ServiceContainer, labelled_for}
use lightpath.State.Cache.{update_services, update_endpoint_slice, snapshot}
use lightpath.State.Subscriber.{
  new_subscriber, Action, handles, dispatches, receives, checks, takes, service_add,
  endpoint_slice_add, step, handle,
}
use lightpath.Translations.Envoy.{Snapshot}
use lightpath.Translations.PortSettings.{get_port_setings}
use lightpath.Translations.Cluster.{gen_cluster}
use lightpath.Translations.Mapper.{service_loop, envoy_snapshot_from_kube_snapshot}
use lightpath.Translations.Endpoints.{
  Locality, States, map_endpoint_slice_to_locality_endpoints, extract_endpoint_meta_and_state,
  meta_of, state_of,
}
use lightpath.Translations.Mapper.Index.{looked_up}
use lightpath.Tests.Translations.Snapshots.{by_name, by_name-IsLawful}
use lightpath.Translations.Endpoints.Serving.{serving}
use lightpath.Controlplane.{new_plane, returned, deliver, plane_step, plane_run}
use lightpath.Controlplane.Events.{plane_run-served}
use lightpath.Tests.Controlplane.{one_node, one_node-IsLawful, web, start, plane_after}

abbrev web_slice : EndpointSlice
web_slice = record {
  object_meta = record {
    name = "web-1";
    namespace = "default";
    resource_version = "2";
    labels = (label_service_name, "web") ∷ [];
    annotations = [];
  };
  address_type = "IPv4";
  endpoints =
      record {
        addresses = "10.1.0.1" ∷ [];
        conditions = record { ready = some true; serving = none; terminating = none };
        node_name = some "node-1";
        zone = some "zone-a";
      }
      ∷ [];
  ports = record { port_name = some "tcp"; port = some (pos 8080) } ∷ [];
}

abbrev arrivals : List (String × Action)
arrivals =
    ("1", receives)
    ∷ ("2", checks)
    ∷ ("3", handles (service_add (some web)))
    ∷ ("4", dispatches)
    ∷ ("5", takes)
    ∷ ("6", receives)
    ∷ ("7", checks)
    ∷ ("8", handles (endpoint_slice_add (some web_slice)))
    ∷ ("9", dispatches)
    ∷ ("10", takes)
    ∷ []

abbrev container : ServiceContainer
container = record { obj = web; opts = tt; endpoint_slices = ("web-1", web_slice) ∷ [] }

abbrev port : ServicePort
port = record {
  name = "tcp";
  protocol = "TCP";
  app_protocol = none;
  port = pos 80;
  target_port = record { int_val = pos 8080; str_val = "" };
  node_port = pos 0;
}

abbrev zone_a : Locality
zone_a = record { zone = "zone-a"; sub_zone = "node-1" }

abbrev states : States
states =
    (
      record { ip_family = "IPv4"; ip = "10.1.0.1"; port = pos 8080; locality = zone_a },
      record { ready = true; serving = true; terminating = false },
    )
    ∷ []

plane_run-served_example :
    (held : Snapshot) × ((plane_after arrivals).server ≡ some held)
    × Perm (serving "IPv4" (pos 8080) zone_a states) (
        looked_up by_name
          (gen_cluster web port (get_port_setings web port) "IPv4").name
          zone_a
          held.endpoints)
unfolding plane_after start plane_step plane_run step new_plane new_subscriber deliver returned
    handle update_services update_endpoint_slice lookup envoy_snapshot_from_kube_snapshot
    service_loop snapshot insert map_endpoint_slice_to_locality_endpoints
    extract_endpoint_meta_and_state string_eq labelled_for meta_of state_of assign_all
plane_run-served_example =
    plane_run-served one_node one_node-IsLawful "node" in_order by_name none arrivals
      (plane_after arrivals) "web" container port (get_port_setings web port) "IPv4" zone_a
      by_name-IsLawful refl refl ((refl, refl), (tt, tt)) refl refl
