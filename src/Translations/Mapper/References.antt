-- ===== src/Translations/Mapper/References.antt =====
-- The clusters and the targets of the ports of a service.

use mathlib.Core.List.{append_assoc, append-nil}
use lightpath.Prelude.{
  ◌≡◌, refl, sym, ap, ◌∙◌, String, Bool, true, false, ◌&&◌, ◌||◌, Bool-cases, inl, inr, List, [],
  ◌∷◌, ◌++◌, map, ◌==◌, ==_refl, string_eq, arith, if◌then◌else◌,
}
use lightpath.Prelude.Texts.{contains, contains-append, contains-map}
use lightpath.Kube
use lightpath.Kube.{ServicePort}
use lightpath.Translations.Envoy.{Cluster, Listener}
use lightpath.Translations.Helper.{
  get_cluster_name, ip_string_to_ip_family, ipv6_protocol, get_listener_name,
}
use lightpath.Translations.PortSettings.{PortSettings, Protocol, tcp, http, redis}
use lightpath.Translations.Cluster.{gen_cluster, cluster_loop}
use lightpath.Translations.Listener.{
  cluster_ip_listener, cluster_ip_loop, node_port_listener, node_port_loop,
}
use lightpath.Translations.Listener.Targets.{listener_targets, served, gen_listener-targets}

-- All texts of the first list are in the second.
abbrev pub all_in : List String → List String → Bool
all_in [] names = true
all_in (t ∷ ts) names = contains t names && all_in ts names

abbrev pub cluster_names : List Cluster → List String
cluster_names [] = []
cluster_names (cluster ∷ rest) = cluster.name ∷ cluster_names rest

abbrev pub targets : List Listener → List String
targets [] = []
targets (listener ∷ rest) = listener_targets listener ++ targets rest

-- Every cluster that a listener sends traffic to is among the clusters.
abbrev pub resolved : List Listener → List Cluster → Bool
resolved listeners clusters = all_in (targets listeners) (cluster_names clusters)

-- The IP families of the service list that of every cluster IP, as Kubernetes sees to.
abbrev pub lists_families : List String → List String → Bool
lists_families [] ip_families = true
lists_families (ip ∷ rest) ip_families =
    (ip == "None" || contains (ip_string_to_ip_family ip) ip_families)
    && lists_families rest ip_families

all_in-append :
    (xs ys names : List String) → all_in (xs ++ ys) names ≡ (all_in xs names && all_in ys names)
all_in-append [] ys names = refl
all_in-append (x ∷ xs) ys names = ground (arith, all_in-append xs ys names)

all_in-left : (xs ns ms : List String) → all_in xs ns ≡ true → all_in xs (ns ++ ms) ≡ true
all_in-left [] ns ms h = refl
all_in-left (x ∷ xs) ns ms h = ground (arith, all_in-left xs ns ms, contains-append x ns ms)

all_in-right : (xs ns ms : List String) → all_in xs ms ≡ true → all_in xs (ns ++ ms) ≡ true
all_in-right [] ns ms h = refl
all_in-right (x ∷ xs) ns ms h = ground (arith, all_in-right xs ns ms, contains-append x ns ms)

targets-append : (ls ms : List Listener) → targets (ls ++ ms) ≡ targets ls ++ targets ms
targets-append [] ms = refl
targets-append (l ∷ ls) ms =
    ap (λ t. listener_targets l ++ t) (targets-append ls ms)
    ∙ sym (append_assoc (listener_targets l) (targets ls) (targets ms))

pub cluster_names-append :
    (cs ds : List Cluster) → cluster_names (cs ++ ds) ≡ cluster_names cs ++ cluster_names ds
cluster_names-append [] ds = refl
cluster_names-append (c ∷ cs) ds = ap (◌∷◌ c.name) (cluster_names-append cs ds)

pub resolved-append :
    (ls ms : List Listener) (cs ds : List Cluster)
    → resolved ls cs ≡ true
    → resolved ms ds ≡ true
    → resolved (ls ++ ms) (cs ++ ds) ≡ true
resolved-append ls ms cs ds h k =
    rw
      (
        targets-append ls ms,
        cluster_names-append cs ds,
        all_in-append (targets ls) (targets ms) (cluster_names cs ++ cluster_names ds),
        all_in-left (targets ls) (cluster_names cs) (cluster_names ds) h,
        all_in-right (targets ms) (cluster_names cs) (cluster_names ds) k,
      )
      refl

-- The name of a cluster of the port.
abbrev pub name_of : Kube.Service → ServicePort → String → String
name_of svc port family = get_cluster_name svc.namespace svc.name family port.target_port.int_val

one_more :
    (buf : List Listener) (listener : Listener) (names : List String)
    → all_in (targets buf) names ≡ true
    → all_in (listener_targets listener) names ≡ true
    → all_in (targets (buf ++ (listener ∷ []))) names ≡ true
one_more buf listener names h k =
    rw
      (
        targets-append buf (listener ∷ []),
        all_in-append (targets buf) (listener_targets listener ++ []) names,
        append-nil (listener_targets listener),
        h,
        k,
      )
      refl

-- The clusters of a port: one for each IP family of its service.
pub cluster_names-loop :
    (svc : Kube.Service) (port : ServicePort) (port_settings : PortSettings)
    (families : List String) (buf : List Cluster)
    → cluster_names (cluster_loop svc port port_settings families buf)
      ≡ cluster_names buf ++ map (name_of svc port) families
unfolding cluster_loop gen_cluster
cluster_names-loop svc port port_settings [] buf = sym (append-nil (cluster_names buf))
cluster_names-loop svc port port_settings (family ∷ rest) buf =
    let cluster = gen_cluster svc port port_settings family in
    cluster_names-loop svc port port_settings rest (buf ++ (cluster ∷ []))
    ∙ ap (λ t. t ++ map (name_of svc port) rest) (cluster_names-append buf (cluster ∷ []))
    ∙ append_assoc (cluster_names buf) (cluster.name ∷ []) (map (name_of svc port) rest)

served-in :
    (protocol : Protocol) (t : String) (names : List String)
    → contains t names ≡ true
    → all_in (served protocol t) names ≡ true
served-in tcp t names h = ground (arith, h)
served-in http t names h = ground (arith, h)
served-in redis t names h = refl

module _ (svc : Kube.Service) (port : ServicePort) (port_settings : PortSettings) where
  -- The names of the clusters of the port.
  unfoldable pub port_names : List String
  port_names = map (name_of svc port) svc.spec.ip_families

  cluster_ip_listener-targets :
      (ip : String)
      → contains (ip_string_to_ip_family ip) svc.spec.ip_families ≡ true
      → all_in (listener_targets (cluster_ip_listener svc port port_settings ip)) port_names ≡ true
  unfolding cluster_ip_listener port_names
  cluster_ip_listener-targets ip h =
      let name = get_listener_name svc.namespace svc.name ip port.port in
      let target = name_of svc port (ip_string_to_ip_family ip) in
      rw (gen_listener-targets name ip port.port false port_settings target) (
        served-in port_settings.protocol target port_names
          (contains-map (name_of svc port) (ip_string_to_ip_family ip) svc.spec.ip_families h))

  node_port_listener-targets :
      (family : String)
      → contains family svc.spec.ip_families ≡ true
      → all_in (listener_targets (node_port_listener svc port port_settings family)) port_names
        ≡ true
  unfolding node_port_listener port_names
  node_port_listener-targets family h =
      let ip : String = if family == ipv6_protocol then "::" else "0.0.0.0" in
      let name = get_listener_name svc.namespace svc.name ip port.node_port in
      let target = name_of svc port family in
      rw (gen_listener-targets name ip port.node_port true port_settings target) (
        served-in port_settings.protocol target port_names
          (contains-map (name_of svc port) family svc.spec.ip_families h))

  pub cluster_ip_loop-targets :
      (ips : List String) (buf : List Listener)
      → lists_families ips svc.spec.ip_families ≡ true
      → all_in (targets buf) port_names ≡ true
      → all_in (targets (cluster_ip_loop svc port port_settings ips buf)) port_names ≡ true
  unfolding cluster_ip_loop port_names
  cluster_ip_loop-targets [] buf h k = k
  cluster_ip_loop-targets (ip ∷ rest) buf h k = elim (Bool-cases (ip == "None")) [
    | inl headless ↦ rw headless (cluster_ip_loop-targets rest buf (ground (arith, h)) k)
    | inr addressed ↦
        let listed = cluster_ip_listener-targets ip (ground (arith, h, addressed)) in
        rw addressed (
          cluster_ip_loop-targets rest (buf ++ (cluster_ip_listener svc port port_settings ip ∷ []))
            (ground (arith, h)) (one_more buf _ port_names k listed))
  ]

  pub node_port_loop-targets :
      (families : List String) (buf : List Listener)
      → all_in families svc.spec.ip_families ≡ true
      → all_in (targets buf) port_names ≡ true
      → all_in (targets (node_port_loop svc port port_settings families buf)) port_names ≡ true
  unfolding node_port_loop port_names
  node_port_loop-targets [] buf h k = k
  node_port_loop-targets (family ∷ rest) buf h k =
      let listed = node_port_listener-targets family (ground (arith, h)) in
      node_port_loop-targets rest (buf ++ (node_port_listener svc port port_settings family ∷ []))
        (ground (arith, h)) (one_more buf _ port_names k listed)

all_in-cons : (x : String) (xs ys : List String) → all_in xs ys ≡ true → all_in xs (x ∷ ys) ≡ true
all_in-cons x xs ys h = all_in-right xs (x ∷ []) ys h

pub all_in_refl : (xs : List String) → all_in xs xs ≡ true
all_in_refl [] = refl
all_in_refl (x ∷ xs) = ground (arith, ==_refl x, all_in-cons x xs xs (all_in_refl xs))

pub all_in_each :
    (xs names : List String)
    → ((t : String) → contains t xs ≡ true → contains t names ≡ true)
    → all_in xs names ≡ true
all_in_each [] names h = refl
all_in_each (x ∷ xs) names h =
    let IH = all_in_each xs names (λ t k. h t (ground (arith, k))) in
    ground (arith, IH, h x (ground (arith, ==_refl x)))
