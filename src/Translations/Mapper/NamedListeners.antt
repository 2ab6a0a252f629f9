-- ===== src/Translations/Mapper/NamedListeners.antt =====
-- How many listeners of a snapshot have a name.
use mathlib.Core.Option.{some-injective}
use lightpath.Prelude.{
  ◌≡◌, refl, ap, ◌∙◌, ℕ, ◌+◌, String, false, ◌&&◌, some, List, [], ◌∷◌, ◌++◌, ◌==◌, string_eq,
  if◌then◌else◌, arith, Bool-cases, inl, inr,
}
use lightpath.Prelude.Int.{ℤ}
use lightpath.Prelude.Lists.{All}
use lightpath.Prelude.Texts as texts
use lightpath.Prelude.MapRange.{MapRange}
use lightpath.Kube
use lightpath.Kube.{ServicePort}
use lightpath.State.Snapshot as kube_snapshot
use lightpath.State.Snapshot.{Service}
use lightpath.Translations.Envoy.{Listener, Snapshot}
use lightpath.Translations.Helper.{get_listener_name, ipv6_protocol}
use lightpath.Translations.Helper.Names.{has_bar, get_listener_name_inj}
use lightpath.Translations.PortSettings.{PortSettings, get_port_setings}
use lightpath.Translations.Listener.{
  gen_listener, cluster_ip_listener, cluster_ip_loop, node_port_listener, node_port_loop,
  map_service_port_to_listeners,
}
use lightpath.Translations.Endpoints.{int_eq}
use lightpath.Translations.Endpoints.Serving.{IsPlain, same_service}
use lightpath.Translations.Mapper.{
  Resources, map_port, port_loop, service_loop, envoy_snapshot_from_kube_snapshot,
}
use lightpath.Translations.Mapper.Turn.{service_loop-Turn, translated-loop}

-- The listeners of a name.
abbrev pub named : String → List Listener → ℕ
named = texts.named (λ x. x.name)

-- How often an address is listed; `None` is no address.
abbrev pub listed : String → List String → ℕ
listed ip [] = 0
listed ip (i ∷ is) = (if i == "None" then 0 else if ip == i then 1 else 0) + listed ip is

-- The unspecified address of a family.
abbrev pub any_ip : String → String
any_ip family = if family == ipv6_protocol then "::" else "0.0.0.0"

-- How many of the families have the unspecified address.
abbrev pub unspecified : String → List String → ℕ
unspecified ip [] = 0
unspecified ip (f ∷ fs) = (if ip == any_ip f then 1 else 0) + unspecified ip fs

-- The listeners of a port of a service for an address and a port number.
abbrev pub listeners_of : String → ℤ → Kube.Service → ServicePort → ℕ
listeners_of ip number svc port =
    (if number == port.port then listed ip svc.spec.cluster_ips else 0)
    + (if svc.spec.service_type == "NodePort" && number == port.node_port
        then unspecified ip svc.spec.ip_families
        else 0)

abbrev pub listeners_of_ports : String → ℤ → Kube.Service → List ServicePort → ℕ
listeners_of_ports ip number svc [] = 0
listeners_of_ports ip number svc (port ∷ rest) =
    (if port.protocol == "TCP" then listeners_of ip number svc port else 0)
    + listeners_of_ports ip number svc rest

-- The listeners that the services give for a service, an address and a port number.
abbrev pub listeners_for : Kube.Service → String → ℤ → List Service → ℕ
listeners_for svc ip number [] = 0
listeners_for svc ip number (s ∷ rest) =
    (if same_service svc s.obj then listeners_of_ports ip number s.obj s.obj.spec.ports else 0)
    + listeners_for svc ip number rest

-- Neither the service nor its cluster IPs have a bar.
abbrev pub IsBarless : Service → Type 0
IsBarless svc = IsPlain svc.obj × All (λ ip. has_bar ip ≡ false) svc.obj.spec.cluster_ips

module _ (svc : Kube.Service) (ip : String) (number : ℤ) (plain : IsPlain svc)
    (barless : has_bar ip ≡ false) where
  name : String
  name = get_listener_name svc.namespace svc.name ip number

  same_listener :
      (other : Kube.Service) (i : String) (n : ℤ)
      → IsPlain other
      → has_bar i ≡ false
      → (name == get_listener_name other.namespace other.name i n)
        ≡ (same_service svc other && (ip == i && number == n))
  unfolding name
  same_listener other i n q g = ground (
    arith,
    get_listener_name_inj svc.namespace other.namespace svc.name other.name ip i number n plain.0
        q.0 plain.1 q.1 barless g,
  )

  cluster_ip_loop-named :
      (other : Kube.Service) (port : ServicePort) (settings : PortSettings) (is : List String)
      (buf : List Listener)
      → IsPlain other
      → All (λ i. has_bar i ≡ false) is
      → named name (cluster_ip_loop other port settings is buf)
        ≡ named name buf
          + (if same_service svc other && number == port.port then listed ip is else 0)
  unfolding cluster_ip_loop cluster_ip_listener gen_listener
  cluster_ip_loop-named other port settings [] buf q h = ground arith
  cluster_ip_loop-named other port settings (i ∷ is) buf q (g, h) =
      elim (Bool-cases (i == "None")) [
        | inl skipped ↦
            ground (arith, skipped, cluster_ip_loop-named other port settings is buf q h)
        | inr kept ↦ ground (
          arith,
          kept,
          cluster_ip_loop-named other port settings is
              (buf ++ (cluster_ip_listener other port settings i ∷ [])) q h,
          texts.named-append (λ x. x.name) name buf
              (cluster_ip_listener other port settings i ∷ []),
          same_listener other i port.port q g,
        )
      ]

  node_port_loop-named :
      (other : Kube.Service) (port : ServicePort) (settings : PortSettings) (fs : List String)
      (buf : List Listener)
      → IsPlain other
      → named name (node_port_loop other port settings fs buf)
        ≡ named name buf
          + (if same_service svc other && number == port.node_port then unspecified ip fs else 0)
  unfolding node_port_loop node_port_listener gen_listener
  node_port_loop-named other port settings [] buf q = ground arith
  node_port_loop-named other port settings (f ∷ fs) buf q = ground (
    arith,
    node_port_loop-named other port settings fs
        (buf ++ (node_port_listener other port settings f ∷ [])) q,
    texts.named-append (λ x. x.name) name buf (node_port_listener other port settings f ∷ []),
    same_listener other "::" port.node_port q refl,
    same_listener other "0.0.0.0" port.node_port q refl,
  )

  map_port-named :
      (other : Kube.Service) (port : ServicePort) (out : Resources)
      → IsPlain other
      → All (λ i. has_bar i ≡ false) other.spec.cluster_ips
      → named name (map_port other port out).listeners
        ≡ named name out.listeners
          + (if same_service svc other && port.protocol == "TCP"
              then listeners_of ip number other port
              else 0)
  unfolding map_port map_service_port_to_listeners
  map_port-named other port out q h =
      let settings = get_port_setings other port in
      ground (
        arith,
        texts.named-append (λ x. x.name) name out.listeners
            (map_service_port_to_listeners other port),
        cluster_ip_loop-named other port settings other.spec.cluster_ips [] q h,
        node_port_loop-named other port settings other.spec.ip_families
            (cluster_ip_loop other port settings other.spec.cluster_ips []) q,
      )

  port_loop-named :
      (other : Kube.Service) (ports : List ServicePort) (out : Resources)
      → IsPlain other
      → All (λ i. has_bar i ≡ false) other.spec.cluster_ips
      → named name (port_loop other ports out).listeners
        ≡ named name out.listeners
          + (if same_service svc other then listeners_of_ports ip number other ports else 0)
  unfolding port_loop
  port_loop-named other [] out q h = ground arith
  port_loop-named other (port ∷ rest) out q h = ground (
    arith,
    port_loop-named other rest (map_port other port out) q h,
    map_port-named other port out q h,
  )

  service_loop-named :
      (r : MapRange) (svcs : List Service) (out out' : Resources)
      → All IsBarless svcs
      → service_loop r svcs out ≡ some out'
      → named name out'.listeners ≡ named name out.listeners + listeners_for svc ip number svcs
  unfolding service_loop
  service_loop-named r [] out out' h e =
      ground (arith, ap (λ o. named name o.listeners) (some-injective out out' e))
  service_loop-named r (other ∷ rest) out out' ((q, g), h) e =
      let t = service_loop-Turn r other rest out out' e in
      ground (
        arith,
        service_loop-named r rest t.next out' h t.goes_on,
        ap (named name) t.listeners,
        port_loop-named other.obj other.obj.spec.ports out q g,
      )

-- Where no service and no cluster IP of a snapshot has a bar: its translation has as many listeners
-- with the name of a service, an address and a port number as the services of that name and
-- namespace give: for each TCP port with that number, how often the address is listed (`None` is not
-- counted), and for each TCP port of a NodePort service with that node port, how many of its IP
-- families have the address as their unspecified one.
pub envoy_snapshot-named_listeners :
    (r : MapRange) (now : String) (snap : kube_snapshot.Snapshot) (out : Snapshot)
    (svc : Kube.Service) (ip : String) (number : ℤ)
    → IsPlain svc
    → has_bar ip ≡ false
    → All IsBarless snap.services
    → envoy_snapshot_from_kube_snapshot r now snap ≡ some out
    → named (get_listener_name svc.namespace svc.name ip number) out.listeners
      ≡ listeners_for svc ip number snap.services
unfolding name
envoy_snapshot-named_listeners r now snap out svc ip number plain barless h e =
    let (res, fine, made) = translated-loop r now snap out e in
    let start : Resources = record { clusters = []; listeners = []; endpoints = [] } in
    rw made (
      service_loop-named svc ip number plain barless r snap.services start res h fine
      ∙ ground arith)
