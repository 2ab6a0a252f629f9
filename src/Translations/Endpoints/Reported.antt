-- ===== src/Translations/Endpoints/Reported.antt =====
-- The endpoints that slices report, described without the loops.
use mathlib.Core.List.{Perm}
use mathlib.Core.Option.{get_or, some-injective}
use lightpath.Prelude.{
  ◌≡◌, refl, sym, ap, ◌∙◌, String, true, false, some, is_some, Option-cases, inl, inr, ◌⊎◌, List,
  [], ◌∷◌, ◌++◌, ◌==◌, string_eq, if◌then◌else◌, arith,
}
use lightpath.Prelude.Int.{pos}
use lightpath.Prelude.Dict.{insert}
use lightpath.Prelude.MapRange.{MapRange, assign_all, collect}
use lightpath.Kube.{Service, EndpointSlice, EndpointPort, Endpoint}
use lightpath.Translations.Envoy.{ClusterLoadAssignment}
use lightpath.Translations.Endpoints.{
  Locality, endpoint_meta_eq, States, meta_of, state_of, extract_endpoints, extract_ports,
  extract_slices, extract_endpoint_meta_and_state, map_endpoint_slice_to_locality_endpoints,
}
use lightpath.Translations.Endpoints.Totality.{extractable, extraction-is_some, map-is_some}
use lightpath.Translations.Endpoints.Groups.{belonging}
use lightpath.Translations.Endpoints.Assigned.{assigned}
use lightpath.Translations.Endpoints.Filled.{assigned-map}

-- One endpoint at one port, by its first address: its number is 0, its zone and node are "None", and
-- it is ready, serving and not terminating where the slice does not say.
abbrev reported_at : String → EndpointPort → Endpoint → States
reported_at family port endpoint = elim endpoint.addresses [
  | [] ↦ []
  | ip ∷ _ ↦
      (
        record {
          ip_family = family;
          ip = ip;
          port = get_or port.port (pos 0);
          locality = record {
            zone = get_or endpoint.zone "None";
            sub_zone = get_or endpoint.node_name "None";
          };
        },
        record {
          ready = get_or endpoint.conditions.ready true;
          serving = get_or endpoint.conditions.serving true;
          terminating = get_or endpoint.conditions.terminating false;
        },
      )
      ∷ []
]

-- Every endpoint of a slice at every port of it.
abbrev reported_by : EndpointSlice → States
reported_by slice =
    let family : String = if slice.address_type == "IPv6" then "IPv6" else "IPv4" in
    collect (λ port. collect (reported_at family port) slice.endpoints) slice.ports

-- Every endpoint of every slice, where the last report of a family, address, port and locality counts.
abbrev pub reported : List EndpointSlice → States
reported slices = assign_all (collect reported_by slices) []

assign_all-append :
    (xs ys : States) (d : States) → assign_all (xs ++ ys) d ≡ assign_all ys (assign_all xs d)
unfolding assign_all
assign_all-append [] ys d = refl
assign_all-append ((k, v) ∷ xs) ys d = assign_all-append xs ys (insert k v d)

addresses_cases :
    (xs : List String) → (xs ≡ []) ⊎ ((ip : String) × (rest : List String) × (xs ≡ ip ∷ rest))
addresses_cases [] = inl refl
addresses_cases (ip ∷ rest) = inr (ip, rest, refl)

one_more :
    (family : String) (port : EndpointPort) (endpoint : Endpoint) (ip : String) (more : List String)
    (rest : List Endpoint) (res : States)
    → endpoint.addresses ≡ ip ∷ more
    → assign_all
        (collect (reported_at family port) rest)
        (insert (meta_of family port endpoint ip) (state_of endpoint) res)
      ≡ assign_all (collect (reported_at family port) (endpoint ∷ rest)) res
unfolding assign_all meta_of state_of
one_more family port endpoint ip more rest res shown = rw shown refl

endpoints-reported :
    (family : String) (port : EndpointPort) (endpoints : List Endpoint) (res out : States)
    → extract_endpoints family port endpoints res ≡ some out
    → out ≡ assign_all (collect (reported_at family port) endpoints) res
unfolding extract_endpoints assign_all
endpoints-reported family port [] res out e = sym (some-injective res out e)
endpoints-reported family port (endpoint ∷ rest) res out e =
    elim (addresses_cases endpoint.addresses) [
      | inl bare ↦ absurd (ground (arith, bare, e))
      | inr (ip, more, shown) ↦
          let next = insert (meta_of family port endpoint ip) (state_of endpoint) res in
          let on = endpoints-reported family port rest next out (ground (arith, shown, e)) in
          on ∙ one_more family port endpoint ip more rest res shown
    ]

ports-reported :
    (family : String) (endpoints : List Endpoint) (ports : List EndpointPort) (res out : States)
    → extract_ports family endpoints ports res ≡ some out
    → out ≡ assign_all (collect (λ port. collect (reported_at family port) endpoints) ports) res
unfolding extract_ports assign_all
ports-reported family endpoints [] res out e = sym (some-injective res out e)
ports-reported family endpoints (port ∷ rest) res out e =
    elim (Option-cases (extract_endpoints family port endpoints res)) [
      | inl panics ↦ absurd (ground (arith, panics, e))
      | inr (next, fine) ↦
          ports-reported family endpoints rest next out (ground (arith, fine, e))
          ∙ ap (assign_all (collect (λ port. collect (reported_at family port) endpoints) rest))
              (endpoints-reported family port endpoints res next fine)
          ∙ sym (assign_all-append (collect (reported_at family port) endpoints) _ res)
    ]

slices-reported :
    (slices : List EndpointSlice) (res out : States)
    → extract_slices slices res ≡ some out
    → out ≡ assign_all (collect reported_by slices) res
unfolding extract_slices assign_all
slices-reported [] res out e = sym (some-injective res out e)
slices-reported (slice ∷ rest) res out e =
    let family : String = if slice.address_type == "IPv6" then "IPv6" else "IPv4" in
    elim (Option-cases (extract_ports family slice.endpoints slice.ports res)) [
      | inl panics ↦ absurd (ground (arith, panics, e))
      | inr (next, fine) ↦
          slices-reported rest next out (ground (arith, fine, e))
          ∙ ap (assign_all (collect reported_by rest))
              (ports-reported family slice.endpoints slice.ports res next fine)
          ∙ sym (assign_all-append (reported_by slice) _ res)
    ]

-- What is extracted is what the slices report.
pub extraction-reported :
    (slices : List EndpointSlice) (states : States)
    → extract_endpoint_meta_and_state slices ≡ some states
    → states ≡ reported slices
unfolding extract_endpoint_meta_and_state
extraction-reported slices states e = slices-reported slices [] states e

pub extractable-reported :
    (slices : List EndpointSlice)
    → extractable slices ≡ true
    → extract_endpoint_meta_and_state slices ≡ some (reported slices)
extractable-reported slices h = elim (Option-cases (extract_endpoint_meta_and_state slices)) [
  | inl panics ↦ absurd (ground (arith, panics, h, extraction-is_some slices))
  | inr (states, fine) ↦ fine ∙ ap some (extraction-reported slices states fine)
]

-- The load assignments of a service have, under each name and in each locality, the endpoints that the
-- slices report and whose address family and port give the service a cluster of that name, each
-- once, in some order, and no others.
pub assigned-reported :
    (r : MapRange) (svc : Service) (endpointslices : List EndpointSlice)
    (out : List ClusterLoadAssignment) (name : String) (locality : Locality)
    → map_endpoint_slice_to_locality_endpoints r svc endpointslices ≡ some out
    → Perm (belonging svc name locality (reported endpointslices)) (assigned name locality out)
assigned-reported r svc endpointslices out name locality made =
    assigned-map r svc endpointslices (reported endpointslices) out name locality
      (extractable-reported endpointslices
        (sym (map-is_some r svc endpointslices) ∙ ap is_some made))
      made
