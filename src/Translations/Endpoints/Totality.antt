-- ===== src/Translations/Endpoints/Totality.antt =====
-- When the extraction of the endpoints panics.
use lightpath.Prelude.{
  ◌≡◌, refl, Bool, true, false, ◌&&◌, ◌||◌, List, [], ◌∷◌, arith, String, if◌then◌else◌, is_some,
  Option-cases, inl, inr, ap, sym, ◌∙◌, ◌==◌, string_eq,
}
use lightpath.Prelude.MapRange.{MapRange}
use lightpath.Kube.{Service, EndpointSlice, EndpointPort, Endpoint}
use lightpath.Translations.Helper.{ipv4_protocol, ipv6_protocol}
use lightpath.Translations.Endpoints.{
  States, extract_endpoints, extract_ports, extract_slices, extract_endpoint_meta_and_state,
  map_endpoint_slice_to_locality_endpoints,
}

abbrev is_empty {ℓ} : {A : Type ℓ} → List A → Bool
is_empty [] = true
is_empty (_ ∷ _) = false

-- Every endpoint has an address.
abbrev all_addressed : List Endpoint → Bool
all_addressed [] = true
all_addressed (endpoint ∷ rest) =
    (if is_empty endpoint.addresses then false else true) && all_addressed rest

-- Every endpoint of a slice that has a port has an address.
abbrev pub extractable : List EndpointSlice → Bool
extractable [] = true
extractable (endpointslice ∷ rest) =
    (is_empty endpointslice.ports || all_addressed endpointslice.endpoints) && extractable rest

extract_endpoints-is_some :
    (ip_family : String) (port : EndpointPort) (endpoints : List Endpoint) (res : States)
    → is_some (extract_endpoints ip_family port endpoints res) ≡ all_addressed endpoints
unfolding extract_endpoints
extract_endpoints-is_some ip_family port [] res = refl
extract_endpoints-is_some ip_family port (endpoint ∷ rest) res =
    let IH : (res' : States)
        → is_some (extract_endpoints ip_family port rest res') ≡ all_addressed rest =
      λ res'. extract_endpoints-is_some ip_family port rest res' in
    grind (arith, IH)

extract_ports-is_some :
    (ip_family : String) (endpoints : List Endpoint) (ports : List EndpointPort) (res : States)
    → is_some (extract_ports ip_family endpoints ports res)
      ≡ (is_empty ports || all_addressed endpoints)
unfolding extract_ports
extract_ports-is_some ip_family endpoints [] res = refl
extract_ports-is_some ip_family endpoints (port ∷ rest) res =
    let IH : (res' : States)
        → is_some (extract_ports ip_family endpoints rest res')
          ≡ (is_empty rest || all_addressed endpoints) =
      λ res'. extract_ports-is_some ip_family endpoints rest res' in
    let first = extract_endpoints-is_some ip_family port endpoints res in grind (arith, IH, first)

extract_slices-is_some :
    (endpointslices : List EndpointSlice) (res : States)
    → is_some (extract_slices endpointslices res) ≡ extractable endpointslices
unfolding extract_slices
extract_slices-is_some [] res = refl
extract_slices-is_some (endpointslice ∷ rest) res =
    let ip_family = if endpointslice.address_type == "IPv6" then ipv6_protocol else ipv4_protocol in
    let IH : (res' : States) → is_some (extract_slices rest res') ≡ extractable rest =
      λ res'. extract_slices-is_some rest res' in
    let first = extract_ports-is_some ip_family endpointslice.endpoints endpointslice.ports res in
    grind (arith, IH, first)

pub map-is_some :
    (r : MapRange) (svc : Service) (endpointslices : List EndpointSlice)
    → is_some (map_endpoint_slice_to_locality_endpoints r svc endpointslices)
      ≡ extractable endpointslices
unfolding map_endpoint_slice_to_locality_endpoints extract_endpoint_meta_and_state
map-is_some r svc endpointslices = elim (Option-cases (extract_slices endpointslices [])) [
  | inl panics ↦
      rw (map_endpoint_slice_to_locality_endpoints, extract_endpoint_meta_and_state, panics)
        (sym (ap is_some panics) ∙ extract_slices-is_some endpointslices [])
  | inr (states, fine) ↦
      rw (map_endpoint_slice_to_locality_endpoints, extract_endpoint_meta_and_state, fine)
        (sym (ap is_some fine) ∙ extract_slices-is_some endpointslices [])
]

pub extraction-is_some :
    (endpointslices : List EndpointSlice)
    → is_some (extract_endpoint_meta_and_state endpointslices) ≡ extractable endpointslices
unfolding extract_endpoint_meta_and_state
extraction-is_some endpointslices = extract_slices-is_some endpointslices []
