-- ===== src/Translations/Endpoints/Serving.antt =====
-- A cluster of a service has the endpoints of one IP family and one port.

use lightpath.Prelude.{
  ◌≡◌, refl, subst, String, Bool, true, false, ◌&&◌, Option, none, some, List, [], ◌∷◌, ◌==◌,
  ==_refl, string_eq, Option-cases, inl, inr, arith, if◌then◌else◌,
}
use lightpath.Prelude.Int.{ℤ}
use lightpath.Prelude.Dict.{insert, AllEntries, insert-AllEntries}
use lightpath.Kube.{Service, EndpointSlice, EndpointPort, Endpoint}
use lightpath.Translations.Envoy.{LbEndpoint}
use lightpath.Translations.Helper.{get_cluster_name, ipv4_protocol, ipv6_protocol}
use lightpath.Translations.Helper.Names.{has_bar, get_cluster_name_inj}
use lightpath.Translations.Endpoints.{
  EndpointMeta, EndpointState, Locality, locality_eq, endpoint_meta_eq, int_eq, States,
  cluster_name_of, meta_of, state_of, extract_endpoints, extract_ports, extract_slices,
  extract_endpoint_meta_and_state,
}
use lightpath.Translations.Endpoints.Groups.{belonging, lb_endpoint}

-- The endpoints of an IP family, a port and a locality, in the order of their entries.
abbrev pub serving : String → ℤ → Locality → List (EndpointMeta × EndpointState) → List LbEndpoint
serving family port locality [] = []
serving family port locality ((meta, state) ∷ rest) =
    let others = serving family port locality rest in
    if (family == meta.ip_family && port == meta.port) && locality == meta.locality
    then lb_endpoint meta state ∷ others
    else others

-- No part of a name has a bar.
abbrev pub IsPlain : Service → Type 0
IsPlain svc = (has_bar svc.namespace ≡ false) × (has_bar svc.name ≡ false)

abbrev pub same_service : Service → Service → Bool
same_service a b = a.namespace == b.namespace && a.name == b.name

abbrev pub IsPlainEntry : EndpointMeta → EndpointState → Type 0
IsPlainEntry meta _ = has_bar meta.ip_family ≡ false

-- The names of clusters differ where a part differs.
pub same_name :
    (a b : Service) (family : String) (port : ℤ) (meta : EndpointMeta)
    → IsPlain a
    → IsPlain b
    → has_bar family ≡ false
    → has_bar meta.ip_family ≡ false
    → (get_cluster_name a.namespace a.name family port == cluster_name_of b meta)
      ≡ (same_service a b && (family == meta.ip_family && port == meta.port))
unfolding cluster_name_of
same_name a b family port meta (na, ma) (nb, mb) f g = ground (
  arith,
  get_cluster_name_inj a.namespace b.namespace a.name b.name family meta.ip_family port meta.port na
      nb ma mb f g,
)

-- A cluster of the service has its endpoints of the family and port.
pub belonging-serving :
    (svc : Service) (family : String) (port : ℤ) (locality : Locality) (entries : States)
    → IsPlain svc
    → has_bar family ≡ false
    → AllEntries IsPlainEntry entries
    → belonging svc (get_cluster_name svc.namespace svc.name family port) locality entries
      ≡ serving family port locality entries
unfolding cluster_name_of
belonging-serving svc family port locality [] p f h = refl
belonging-serving svc family port locality ((meta, state) ∷ rest) p f (g, h) =
    let IH = belonging-serving svc family port locality rest p f h in
    rw (same_name svc svc family port meta p p f g, ==_refl svc.namespace, ==_refl svc.name, IH)
      refl

-- It has none of another service.
pub belonging-other :
    (svc other : Service) (family : String) (port : ℤ) (locality : Locality) (entries : States)
    → IsPlain svc
    → IsPlain other
    → same_service svc other ≡ false
    → has_bar family ≡ false
    → AllEntries IsPlainEntry entries
    → belonging other (get_cluster_name svc.namespace svc.name family port) locality entries ≡ []
unfolding cluster_name_of
belonging-other svc other family port locality [] p q d f h = refl
belonging-other svc other family port locality ((meta, state) ∷ rest) p q d f (g, h) =
    let IH = belonging-other svc other family port locality rest p q d f h in
    rw (same_name svc other family port meta p q f g, d) IH

-- What the extraction returns, if it returns.
abbrev IsPlainResult : Option States → Type 0
IsPlainResult none = Unit
IsPlainResult (some states) = AllEntries IsPlainEntry states

extract_endpoints-IsPlain :
    (ip_family : String) (port : EndpointPort) (endpoints : List Endpoint) (res : States)
    → has_bar ip_family ≡ false
    → AllEntries IsPlainEntry res
    → IsPlainResult (extract_endpoints ip_family port endpoints res)
unfolding extract_endpoints meta_of
extract_endpoints-IsPlain ip_family port [] res f h = h
extract_endpoints-IsPlain ip_family port (endpoint ∷ rest) res f h =
    elim endpoint.addresses
      as (λ addresses. IsPlainResult (elim addresses [
        | [] ↦ none
        | ip ∷ _ ↦
            extract_endpoints ip_family port rest
              (insert (meta_of ip_family port endpoint ip) (state_of endpoint) res)
      ])) [
        | [] ↦ tt
        | ip ∷ _ ↦ extract_endpoints-IsPlain ip_family port rest _ f (
            insert-AllEntries IsPlainEntry (meta_of ip_family port endpoint ip) (state_of endpoint)
              res f h)
      ]

extract_ports-IsPlain :
    (ip_family : String) (endpoints : List Endpoint) (ports : List EndpointPort) (res : States)
    → has_bar ip_family ≡ false
    → AllEntries IsPlainEntry res
    → IsPlainResult (extract_ports ip_family endpoints ports res)
unfolding extract_ports
extract_ports-IsPlain ip_family endpoints [] res f h = h
extract_ports-IsPlain ip_family endpoints (port ∷ rest) res f h =
    let first = extract_endpoints-IsPlain ip_family port endpoints res f h in
    elim (Option-cases (extract_endpoints ip_family port endpoints res)) [
      | inl panics ↦ rw (extract_ports, panics) tt
      | inr (res', fine) ↦
          rw (extract_ports, fine)
            (extract_ports-IsPlain ip_family endpoints rest res' f (subst IsPlainResult fine first))
    ]

family-IsPlain : (six : Bool) → has_bar (if six then ipv6_protocol else ipv4_protocol) ≡ false
family-IsPlain true = refl
family-IsPlain false = refl

extract_slices-IsPlain :
    (endpointslices : List EndpointSlice) (res : States)
    → AllEntries IsPlainEntry res
    → IsPlainResult (extract_slices endpointslices res)
unfolding extract_slices
extract_slices-IsPlain [] res h = h
extract_slices-IsPlain (endpointslice ∷ rest) res h =
    let ip_family = if endpointslice.address_type == "IPv6" then ipv6_protocol else ipv4_protocol in
    let first =
      extract_ports-IsPlain ip_family endpointslice.endpoints endpointslice.ports res
        (family-IsPlain (endpointslice.address_type == "IPv6")) h in
    elim (Option-cases (extract_ports ip_family endpointslice.endpoints endpointslice.ports res)) [
      | inl panics ↦ rw (extract_slices, panics) tt
      | inr (res', fine) ↦
          rw (extract_slices, fine)
            (extract_slices-IsPlain rest res' (subst IsPlainResult fine first))
    ]

pub extracted-IsPlain :
    (endpointslices : List EndpointSlice) (states : States)
    → extract_endpoint_meta_and_state endpointslices ≡ some states
    → AllEntries IsPlainEntry states
unfolding extract_endpoint_meta_and_state
extracted-IsPlain endpointslices states e =
    subst IsPlainResult e (extract_slices-IsPlain endpointslices [] tt)
