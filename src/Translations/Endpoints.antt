-- ===== src/Translations/Endpoints.antt =====
-- pkg/translations/mapper_endpoints.go. `none` is the panic at an endpoint without an address.

pub mod Groups
pub mod Totality
pub mod Assigned
pub mod Filled
pub mod Reported
pub mod Assignments
pub mod Serving
use lightpath.Prelude.{
  ℕ, String, ◌<>◌, Bool, true, false, not, Option, none, some, List, [], ◌∷◌, ◌++◌, ◌==◌, Eq,
  string_eq, String-discrete, if◌then◌else◌,
}
use native.Mathlib.Decide.{ℕ_discrete}
use mathlib.Core.Option.{get_or}
use lightpath.Prelude.Int.{ℤ, pos, to_uint32}
use lightpath.Prelude.Decimal.{sprint}
use lightpath.Prelude.Dict.{Dict, lookup, insert, values}
use lightpath.Prelude.MapRange.{MapRange}
use lightpath.Kube.{Service, EndpointSlice, EndpointPort, Endpoint}
use lightpath.Translations.Envoy.{
  LbEndpoint, LocalityLbEndpoints, ClusterLoadAssignment, HealthStatus, healthy, unhealthy,
  draining,
}
use lightpath.Translations.Helper.{get_cluster_name, ipv4_protocol, ipv6_protocol}

pub record Locality : Type 0 where
  pub zone : String
  pub sub_zone : String

pub record EndpointMeta : Type 0 where
  pub ip_family : String
  pub ip : String
  pub port : ℤ
  pub locality : Locality

pub record EndpointState : Type 0 where
  pub ready : Bool
  pub serving : Bool
  pub terminating : Bool

Locality-discrete : Discrete Locality
Locality-discrete = hlevel String-discrete

ℤ-discrete : Discrete ℤ
ℤ-discrete = hlevel ℕ_discrete

EndpointMeta-discrete : Discrete EndpointMeta
EndpointMeta-discrete = hlevel (String-discrete, Locality-discrete, ℤ-discrete)

instance unfoldable pub int_eq : Eq ℤ
unfolding ℤ-discrete
int_eq = record { dec = ℤ-discrete }

instance unfoldable pub locality_eq : Eq Locality
unfolding Locality-discrete
locality_eq = record { dec = Locality-discrete }

instance unfoldable pub endpoint_meta_eq : Eq EndpointMeta
unfolding EndpointMeta-discrete Locality-discrete ℤ-discrete
endpoint_meta_eq = record { dec = EndpointMeta-discrete }

abbrev pub States : Type 0
States = Dict EndpointMeta EndpointState

-- The endpoint of an address, with the defaults for what is nil.
unfoldable pub meta_of : String → EndpointPort → Endpoint → String → EndpointMeta
meta_of ip_family port endpoint ip = record {
  ip_family = ip_family;
  ip = ip;
  port = get_or port.port (pos 0);
  locality = record {
    zone = get_or endpoint.zone "None";
    sub_zone = get_or endpoint.node_name "None";
  };
}

unfoldable pub state_of : Endpoint → EndpointState
state_of endpoint = record {
  ready = get_or endpoint.conditions.ready true;
  serving = get_or endpoint.conditions.serving true;
  terminating = get_or endpoint.conditions.terminating false;
}

-- The three loops, from the inside.
extract_endpoints : String → EndpointPort → List Endpoint → States → Option States
extract_endpoints ip_family port [] res = some res
extract_endpoints ip_family port (endpoint ∷ rest) res = elim endpoint.addresses [
  | [] ↦ none
  | ip ∷ _ ↦
      extract_endpoints ip_family port rest
        (insert (meta_of ip_family port endpoint ip) (state_of endpoint) res)
]

extract_ports : String → List Endpoint → List EndpointPort → States → Option States
extract_ports ip_family endpoints [] res = some res
extract_ports ip_family endpoints (port ∷ rest) res =
    elim (extract_endpoints ip_family port endpoints res) [
      | none ↦ none
      | some res' ↦ extract_ports ip_family endpoints rest res'
    ]

extract_slices : List EndpointSlice → States → Option States
extract_slices [] res = some res
extract_slices (endpointslice ∷ rest) res =
    let ip_family = if endpointslice.address_type == "IPv6" then ipv6_protocol else ipv4_protocol in
    elim (extract_ports ip_family endpointslice.endpoints endpointslice.ports res) [
      | none ↦ none
      | some res' ↦ extract_slices rest res'
    ]

unfoldable pub extract_endpoint_meta_and_state : List EndpointSlice → Option States
unfolding extract_slices extract_ports extract_endpoints
extract_endpoint_meta_and_state endpointslices = extract_slices endpointslices []

-- The assignments to `healthStatus`, in order.
unfoldable pub health_status : EndpointState → HealthStatus
health_status state =
    let status = if state.terminating then draining else healthy in
    if not state.ready then unhealthy else status

unfoldable pub map_endpoint_meta_and_state_to_endpoint : EndpointMeta → EndpointState → LbEndpoint
unfolding health_status
map_endpoint_meta_and_state_to_endpoint meta state = record {
  health_status = health_status state;
  hostname = meta.ip <> "-" <> sprint meta.port;
  address = record { address = meta.ip; port_value = to_uint32 meta.port };
}

-- `endpoints` of the code: by cluster name, then by locality.
abbrev pub Groups : Type 0
Groups = Dict String (Dict Locality (List LbEndpoint))

unfoldable pub cluster_name_of : Service → EndpointMeta → String
cluster_name_of svc meta = get_cluster_name svc.namespace svc.name meta.ip_family meta.port

-- The endpoint at the end of its group, which is created where it is missing.
unfoldable pub add_endpoint : Service → EndpointMeta × EndpointState → Groups → Groups
add_endpoint svc (meta, state) endpoints =
    let cluster_name = cluster_name_of svc meta in
    let group = get_or (lookup cluster_name endpoints) [] in
    let lb_endpoints = get_or (lookup meta.locality group) [] in
    insert cluster_name
      (insert meta.locality
        (lb_endpoints ++ (map_endpoint_meta_and_state_to_endpoint meta state ∷ [])) group)
      endpoints

unfoldable pub group_loop : Service → List (EndpointMeta × EndpointState) → Groups → Groups
group_loop svc [] endpoints = endpoints
group_loop svc (entry ∷ rest) endpoints = group_loop svc rest (add_endpoint svc entry endpoints)

-- `loadAssignmentsMap`: its keys, in the order of their insertion, each with an empty assignment.
unfoldable pub assignment_loop :
    Service
    → List (EndpointMeta × EndpointState)
    → Dict String ClusterLoadAssignment
    → Dict String ClusterLoadAssignment
assignment_loop svc [] load_assignments = load_assignments
assignment_loop svc ((meta, _) ∷ rest) load_assignments =
    let name = cluster_name_of svc meta in
    assignment_loop svc rest (elim (lookup name load_assignments) [
      | some _ ↦ load_assignments
      | none ↦ insert name (record { cluster_name = name; endpoints = [] }) load_assignments
    ])

-- The loop over the localities of a group.
pub locality_loop :
    List (Locality × List LbEndpoint) → ClusterLoadAssignment → ClusterLoadAssignment
locality_loop [] assignment = assignment
locality_loop ((locality, lb_endpoints) ∷ rest) assignment = locality_loop rest (record assignment {
  endpoints =
      assignment.endpoints
      ++ (record { zone = locality.zone; sub_zone = locality.sub_zone; lb_endpoints = lb_endpoints }
          ∷ []);
})

-- The loop that fills the assignments, each through its pointer.
fill_loop :
    MapRange
    → Groups
    → List (String × ClusterLoadAssignment)
    → List (String × ClusterLoadAssignment)
fill_loop r endpoints [] = []
fill_loop r endpoints ((name, assignment) ∷ rest) =
    (name, locality_loop (r.visit _ (get_or (lookup name endpoints) [])) assignment)
    ∷ fill_loop r endpoints rest

unfoldable pub map_endpoint_slice_to_locality_endpoints :
    MapRange → Service → List EndpointSlice → Option (List ClusterLoadAssignment)
unfolding fill_loop locality_loop
map_endpoint_slice_to_locality_endpoints r svc endpointslices =
    elim (extract_endpoint_meta_and_state endpointslices) [
      | none ↦ none
      | some states ↦
          let entries = r.visit _ states in
          let endpoints = group_loop svc entries [] in
          let load_assignments = assignment_loop svc entries [] in
          some (values (r.visit _ (fill_loop r endpoints load_assignments)))
    ]
