-- ===== src/Tests/Translations.antt =====
-- pkg/translations over a NodePort service with two IP families and a slice of endpoints.
pub mod Snapshots
use lightpath.Prelude.{
  ◌≡◌, refl, ◌<◌, ◌^◌, ◌%◌, String, true, false, none, some, List, [], ◌∷◌, ◌++◌, arith, string_eq,
}
use mathlib.Core.Option.{get_or}
use mathlib.Core.List.{Perm}
use lightpath.Translations.Endpoints.Assigned.{assigned}
use lightpath.Translations.Endpoints.Reported.{assigned-reported}
use lightpath.Translations.Endpoints.{States}
use lightpath.Translations.Envoy.{ClusterLoadAssignment}
use lightpath.Prelude.Int.{pos, u32_mod}
use lightpath.Prelude.Decimal.{decimal}
use lightpath.Prelude.Dict.{lookup}
use lightpath.Prelude.MapRange.{in_order, assign_all}
use lightpath.Kube.{Service, ServicePort, EndpointSlice, label_service_name}
use lightpath.State.Snapshot as kube_snapshot
use lightpath.Wellknown.{second}
use lightpath.Translations.Envoy.{Snapshot}
use lightpath.Translations.Helper.{
  ipv4_protocol, ip_string_to_ip_family, annotation, get_uint32_config, get_duration_config,
  get_port_settings_annotations_key,
}
use lightpath.Translations.Helper.Names.{get_cluster_name_inj, get_listener_name_inj}
use lightpath.Translations.Helper.Config.{get_uint32_config-wraps, get_duration_config-bounds}
use lightpath.Translations.PortSettings.{get_port_setings, get_protocol}
use lightpath.Translations.PortSettings.Bounds.{IsBounded, get_port_setings-IsBounded}
use lightpath.Translations.Listener.{gen_listener}
use lightpath.Translations.Listener.Targets.{listener_targets, served, gen_listener-targets}
use lightpath.Translations.Endpoints.{
  EndpointMeta, EndpointState, Locality, group_loop, map_endpoint_slice_to_locality_endpoints,
  extract_endpoint_meta_and_state, meta_of, state_of,
}
use lightpath.Translations.Endpoints.Groups.{members, belonging, members-group_loop}
use lightpath.Prelude.{is_some}
use lightpath.Translations.Mapper.{service_loop, envoy_snapshot_from_kube_snapshot}
use lightpath.Translations.Mapper.References.{resolved}
use lightpath.Translations.Mapper.Resolved.{envoy_snapshot-resolved}
use lightpath.Translations.Mapper.Totality.{envoy_snapshot-is_some}

abbrev port : ServicePort
port = record {
  name = "http";
  protocol = "TCP";
  app_protocol = none;
  port = pos 80;
  target_port = record { int_val = pos 8080; str_val = "" };
  node_port = pos 30080;
}

-- 2 ^ 32 + 7 retries.
abbrev web : Service
web = record {
  object_meta = record {
    name = "web";
    namespace = "default";
    resource_version = "1";
    labels = [];
    annotations = ("config.lightpath.cloud/http-num-retries", decimal 4294967303) ∷ [];
  };
  spec = record {
    ports = port ∷ [];
    cluster_ips = "10.0.0.1" ∷ "fd00::1" ∷ [];
    external_ips = [];
    ip_families = "IPv4" ∷ "IPv6" ∷ [];
    service_type = "NodePort";
  };
}

abbrev web_slice : EndpointSlice
web_slice = record {
  object_meta = record {
    name = "web-1";
    namespace = "default";
    resource_version = "2";
    labels = (label_service_name, "web") ∷ [];
    annotations = [];
  };
  address_type = "IPv4";
  endpoints =
      record {
        addresses = "10.1.0.1" ∷ [];
        conditions = record { ready = some true; serving = none; terminating = none };
        node_name = some "node-1";
        zone = some "zone-a";
      }
      ∷ [];
  ports = record { port_name = some "http"; port = some (pos 8080) } ∷ [];
}

abbrev snapshot : kube_snapshot.Snapshot
snapshot = record { services = record { obj = web; endpoint_slices = web_slice ∷ [] } ∷ [] }

abbrev empty : Snapshot
empty = record { version = ""; listeners = []; clusters = []; endpoints = [] }

abbrev translated : Snapshot
translated = get_or (envoy_snapshot_from_kube_snapshot in_order "now" snapshot) empty

translated_lem : envoy_snapshot_from_kube_snapshot in_order "now" snapshot ≡ some translated
unfolding envoy_snapshot_from_kube_snapshot service_loop map_endpoint_slice_to_locality_endpoints
    extract_endpoint_meta_and_state
translated_lem = refl

envoy_snapshot-resolved_example : resolved translated.listeners translated.clusters ≡ true
unfolding string_eq ip_string_to_ip_family
envoy_snapshot-resolved_example =
    envoy_snapshot-resolved in_order "now" snapshot translated refl translated_lem

envoy_snapshot-is_some_example :
    is_some (envoy_snapshot_from_kube_snapshot in_order "now" snapshot) ≡ true
envoy_snapshot-is_some_example = envoy_snapshot-is_some in_order "now" snapshot

abbrev zone_a : Locality
zone_a = record { zone = "zone-a"; sub_zone = "node-1" }

abbrev meta : String → EndpointMeta
meta ip = record { ip_family = "IPv4"; ip = ip; port = pos 8080; locality = zone_a }

abbrev serving : EndpointState
serving = record { ready = true; serving = true; terminating = false }

abbrev two_entries : List (EndpointMeta × EndpointState)
two_entries = (meta "10.1.0.1", serving) ∷ (meta "10.1.0.2", serving) ∷ []

abbrev states : States
states = get_or (extract_endpoint_meta_and_state (web_slice ∷ [])) []

abbrev assignments : List ClusterLoadAssignment
assignments = get_or (map_endpoint_slice_to_locality_endpoints in_order web (web_slice ∷ [])) []

states_lem : extract_endpoint_meta_and_state (web_slice ∷ []) ≡ some states
unfolding extract_endpoint_meta_and_state
states_lem = refl

assignments_lem :
    map_endpoint_slice_to_locality_endpoints in_order web (web_slice ∷ []) ≡ some assignments
unfolding extract_endpoint_meta_and_state map_endpoint_slice_to_locality_endpoints
assignments_lem = refl

assigned-reported_example :
    Perm
      (belonging web "IPv4|default|web|8080" zone_a states)
      (assigned "IPv4|default|web|8080" zone_a assignments)
unfolding extract_endpoint_meta_and_state assign_all meta_of state_of
assigned-reported_example =
    assigned-reported in_order web (web_slice ∷ []) assignments "IPv4|default|web|8080" zone_a
      assignments_lem

abbrev ipv6_address : String
ipv6_address = "fd00::1"

get_cluster_name_inj_example :
    (web.namespace ≡ web.namespace)
    × (web.name ≡ web.name)
    × (ipv4_protocol ≡ ipv4_protocol)
    × (pos 8080 ≡ pos 8080)
get_cluster_name_inj_example =
    get_cluster_name_inj "default" "default" "web" "web" "IPv4" "IPv4" (pos 8080) (pos 8080) refl
      refl refl refl refl refl refl

get_uint32_config-wraps_example : get_uint32_config web port "num-retries" 2 ≡ 4294967303 % u32_mod
unfolding annotation lookup string_eq get_port_settings_annotations_key
get_uint32_config-wraps_example =
    get_uint32_config-wraps web port "num-retries" 4294967303 2 (omega arith) refl

get_port_setings-IsBounded_example : IsBounded (get_port_setings web port)
get_port_setings-IsBounded_example = get_port_setings-IsBounded web port

gen_listener-targets_example :
    listener_targets (gen_listener "l" "10.0.0.1" (pos 80) false (get_port_setings web port) "c")
    ≡ served (get_port_setings web port).protocol "c"
gen_listener-targets_example =
    gen_listener-targets "l" "10.0.0.1" (pos 80) false (get_port_setings web port) "c"

-- The name of the port stands in for a protocol.
served_lem : served (get_port_setings web port).protocol "c" ≡ "c" ∷ []
unfolding get_port_setings get_protocol string_eq
served_lem = refl
