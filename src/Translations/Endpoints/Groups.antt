-- ===== src/Translations/Endpoints/Groups.antt =====
-- The grouping of endpoints by cluster and locality.
use lightpath.Prelude.{
  ◌≡◌, ◌<>◌, sym, ap, ◌∙◌, String, ◌&&◌, List, [], ◌∷◌, ◌++◌, ◌==◌, string_eq, Eq, arith,
  if◌then◌else◌,
}
use mathlib.Core.List.{append_assoc, append-nil}
use mathlib.Core.Option.{get_or}
use lightpath.Prelude.Dict.{Dict, lookup, insert, lookup-insert}
use lightpath.Kube.{Service}
use lightpath.Translations.Envoy.{LbEndpoint, healthy, unhealthy, draining}
use lightpath.Translations.Helper.{get_cluster_name}
use lightpath.Prelude.Decimal.{sprint}
use lightpath.Prelude.Int.{to_uint32}
use lightpath.Translations.Endpoints.{
  EndpointMeta, EndpointState, Locality, locality_eq, Groups, cluster_name_of, add_endpoint,
  group_loop, map_endpoint_meta_and_state_to_endpoint, health_status,
}

-- The endpoints of a cluster and a locality in the groups.
abbrev pub members : String → Locality → Groups → List LbEndpoint
members name locality groups = get_or (lookup locality (get_or (lookup name groups) [])) []

-- What proxies are given for an entry: its address and the low 32 bits of its port, and whether it is
-- unhealthy, where it is not ready, or else draining, while it terminates.
abbrev pub lb_endpoint : EndpointMeta → EndpointState → LbEndpoint
lb_endpoint meta state = record {
  health_status =
      if state.ready then (if state.terminating then draining else healthy) else unhealthy;
  hostname = meta.ip <> "-" <> sprint meta.port;
  address = record { address = meta.ip; port_value = to_uint32 meta.port };
}

pub mapped-lb_endpoint :
    (meta : EndpointMeta) (state : EndpointState)
    → map_endpoint_meta_and_state_to_endpoint meta state ≡ lb_endpoint meta state
unfolding map_endpoint_meta_and_state_to_endpoint health_status
mapped-lb_endpoint meta state = ground arith

-- Those of the entries that belong to them, mapped, in the order of the entries.
abbrev pub belonging :
    Service → String → Locality → List (EndpointMeta × EndpointState) → List LbEndpoint
belonging svc name locality [] = []
belonging svc name locality ((meta, state) ∷ rest) =
    let others = belonging svc name locality rest in
    let own = get_cluster_name svc.namespace svc.name meta.ip_family meta.port in
    if name == own && locality == meta.locality then lb_endpoint meta state ∷ others else others

module _ {ℓ κ} {K : Type ℓ} {V : Type κ} ⦃e : Eq K⦄ where
  get_or-insert :
      (j k : K) (v w : V) (d : Dict K V)
      → get_or (lookup j (insert k v d)) w ≡ (if j == k then v else get_or (lookup j d) w)
  get_or-insert j k v w d = ground (arith, lookup-insert j k v d)

members-add_endpoint :
    (svc : Service) (meta : EndpointMeta) (state : EndpointState) (groups : Groups) (name : String)
    (locality : Locality)
    → members name locality (add_endpoint svc (meta, state) groups)
      ≡ members name locality groups ++ belonging svc name locality ((meta, state) ∷ [])
unfolding add_endpoint cluster_name_of
members-add_endpoint svc meta state groups name locality =
    let cluster_name = cluster_name_of svc meta in
    let group = get_or (lookup cluster_name groups) [] in
    let lb_endpoints = get_or (lookup meta.locality group) [] in
    let longer = lb_endpoints ++ (map_endpoint_meta_and_state_to_endpoint meta state ∷ []) in
    ground (
      arith,
      mapped-lb_endpoint meta state,
      append-nil (members name locality groups),
      get_or-insert name cluster_name (insert meta.locality longer group) [] groups,
      get_or-insert locality meta.locality longer [] group,
    )

-- The groups have under each cluster name and locality the endpoints of that cluster and locality,
-- each once, in the order of their entries, and no others.
pub members-group_loop :
    (svc : Service) (entries : List (EndpointMeta × EndpointState)) (groups : Groups)
    (name : String) (locality : Locality)
    → members name locality (group_loop svc entries groups)
      ≡ members name locality groups ++ belonging svc name locality entries
unfolding group_loop
members-group_loop svc [] groups name locality = sym (append-nil (members name locality groups))
members-group_loop svc ((meta, state) ∷ rest) groups name locality =
    members-group_loop svc rest (add_endpoint svc (meta, state) groups) name locality
    ∙ ap (λ ms. ms ++ belonging svc name locality rest)
        (members-add_endpoint svc meta state groups name locality)
    ∙ append_assoc (members name locality groups) (belonging svc name locality ((meta, state) ∷ []))
        (belonging svc name locality rest)
    ∙ ap (λ bs. members name locality groups ++ bs) (ground arith)
