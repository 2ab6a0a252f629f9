-- ===== src/Translations/Mapper/Index.antt =====
-- `cache.NewSnapshot` indexes the resources by name. What is found under the name of a cluster.
use mathlib.Core.List.{Perm, append-nil}
use lightpath.Prelude.{
  is_some, ◌≡◌, refl, sym, ap, subst, ◌∙◌, String, Bool, true, false, Option, none, some, List, [],
  ◌∷◌, ◌++◌, ◌==◌, string_eq, arith, leb,
}
use lightpath.Prelude.Int.{ℤ}
use lightpath.Prelude.Lists.{All, length}
use lightpath.Prelude.Only.{only}
use lightpath.Prelude.MapRange.{MapRange}
use lightpath.Kube
use lightpath.Kube.{ServicePort}
use lightpath.State.Snapshot as kube_snapshot
use lightpath.State.Snapshot.{Service}
use lightpath.Translations.Helper.{get_cluster_name}
use lightpath.Translations.Envoy.{LbEndpoint, ClusterLoadAssignment, Snapshot}
use lightpath.Translations.Helper.Names.{has_bar}
use lightpath.Translations.PortSettings.{PortSettings}
use lightpath.Translations.Cluster.{gen_cluster}
use lightpath.Translations.Endpoints.{Locality, extract_endpoint_meta_and_state}
use lightpath.Translations.Endpoints.Totality.{extractable}
use lightpath.Translations.Endpoints.Reported.{reported, extractable-reported}
use lightpath.Translations.Mapper.Totality.{all_extractable, envoy_snapshot-is_some}
use lightpath.Translations.Endpoints.Assigned.{at_locality, assigned}
use lightpath.Translations.Endpoints.Assignments.{named}
use lightpath.Translations.Endpoints.Serving.{IsPlain, serving}
use lightpath.Translations.Mapper.{envoy_snapshot_from_kube_snapshot}
use lightpath.Translations.Mapper.Served.{IsOther, envoy_snapshot-serving}
use lightpath.Translations.Mapper.NamedAssignments.{
  assignments_for, envoy_snapshot-named_assignments,
}

-- The index of go-control-plane: the load assignment that a name is mapped to.
pub record ResourceIndex : Type 0 where
  pub find : String → List ClusterLoadAssignment → Option ClusterLoadAssignment

abbrev pub is_named : String → ClusterLoadAssignment → Bool
is_named name a = name == a.cluster_name

-- A name that no resource has is not found, and one that one resource has is found as that resource.
-- What is found under a name of several is left open.
pub record IsLawful (I : ResourceIndex) : Type 0 where
  pub absent :
      (name : String) (xs : List ClusterLoadAssignment)
      → only (is_named name) xs ≡ []
      → I.find name xs ≡ none
  pub unique :
      (name : String) (xs : List ClusterLoadAssignment) (a : ClusterLoadAssignment)
      → only (is_named name) xs ≡ a ∷ []
      → I.find name xs ≡ some a

-- The endpoints of a locality in what is found.
abbrev found_at : Locality → Option ClusterLoadAssignment → List LbEndpoint
found_at locality none = []
found_at locality (some a) = at_locality locality a.endpoints

abbrev pub looked_up :
    ResourceIndex → String → Locality → List ClusterLoadAssignment → List LbEndpoint
looked_up I name locality xs = found_at locality (I.find name xs)

abbrev gathered : Locality → List ClusterLoadAssignment → List LbEndpoint
gathered locality [] = []
gathered locality (a ∷ rest) = at_locality locality a.endpoints ++ gathered locality rest

assigned-gathered :
    (name : String) (locality : Locality) (xs : List ClusterLoadAssignment)
    → assigned name locality xs ≡ gathered locality (only (is_named name) xs)
assigned-gathered name locality [] = refl
assigned-gathered name locality (x ∷ xs) = ground (arith, assigned-gathered name locality xs)

named-length :
    (name : String) (xs : List ClusterLoadAssignment)
    → named name xs ≡ length (only (is_named name) xs)
named-length name [] = refl
named-length name (x ∷ xs) = ground (arith, named-length name xs)

module _ (I : ResourceIndex) (L : IsLawful I) (name : String) (locality : Locality)
    (xs : List ClusterLoadAssignment) where
  matches-looked_up :
      (ys : List ClusterLoadAssignment)
      → only (is_named name) xs ≡ ys
      → leb (length ys) 1 ≡ true
      → gathered locality ys ≡ looked_up I name locality xs
  matches-looked_up [] e few = ap (found_at locality) (sym (L.absent name xs e))
  matches-looked_up (a ∷ []) e few =
      append-nil (at_locality locality a.endpoints)
      ∙ ap (found_at locality) (sym (L.unique name xs a e))
  matches-looked_up (a ∷ b ∷ ys) e few = ground (arith, few)

  -- Where at most one load assignment has a name, it is what is found.
  pub assigned-looked_up :
      leb (named name xs) 1 ≡ true → assigned name locality xs ≡ looked_up I name locality xs
  assigned-looked_up few =
      assigned-gathered name locality xs
      ∙ matches-looked_up (only (is_named name) xs) refl (ground (arith, few, named-length name xs))

-- Other services have no load assignment for the service, and it has at most one itself.
others-few :
    (svc : Kube.Service) (family : String) (target : ℤ) (svcs : List Service)
    → All (IsOther svc) svcs
    → assignments_for svc family target svcs ≡ 0
others-few svc family target [] h = refl
others-few svc family target (s ∷ rest) ((_, o), h) =
    ground (arith, o, others-few svc family target rest h)

split-few :
    (svc : Kube.Service) (family : String) (target : ℤ) (before after : List Service) (s : Service)
    → All (IsOther svc) before
    → All (IsOther svc) after
    → leb (assignments_for svc family target (before ++ (s ∷ after))) 1 ≡ true
split-few svc family target [] after s p q = ground (arith, others-few svc family target after q)
split-few svc family target (b ∷ before) after s ((_, o), p) q =
    ground (arith, o, split-few svc family target before after s p q)

others-IsPlain :
    (svc : Kube.Service) (svcs : List Service)
    → All (IsOther svc) svcs
    → All (λ w. IsPlain w.obj) svcs
others-IsPlain svc [] h = tt
others-IsPlain svc (s ∷ rest) (o, h) = (o.0, others-IsPlain svc rest h)

split-IsPlain :
    (svc : Kube.Service) (before after : List Service) (s : Service)
    → IsPlain s.obj
    → All (IsOther svc) before
    → All (IsOther svc) after
    → All (λ w. IsPlain w.obj) (before ++ (s ∷ after))
split-IsPlain svc [] after s h p q = (h, others-IsPlain svc after q)
split-IsPlain svc (b ∷ before) after s h (o, p) q = (o.0, split-IsPlain svc before after s h p q)

-- A service that is alone in its name and namespace has at most one load assignment for each IP family
-- and target port.
pub few_assignments :
    (r : MapRange) (now : String) (before after : List Service) (s : Service) (family : String)
    (target : ℤ) (out : Snapshot)
    → IsPlain s.obj
    → has_bar family ≡ false
    → All (IsOther s.obj) before
    → All (IsOther s.obj) after
    → envoy_snapshot_from_kube_snapshot r now (record { services = before ++ (s ∷ after) })
      ≡ some out
    → leb (named (get_cluster_name s.obj.namespace s.obj.name family target) out.endpoints) 1 ≡ true
few_assignments r now before after s family target out plain barless p q e =
    let snap : kube_snapshot.Snapshot = record { services = before ++ (s ∷ after) } in
    ground (
      arith,
      envoy_snapshot-named_assignments r now snap out s.obj family target plain barless
          (split-IsPlain s.obj before after s plain p q) e,
      split-few s.obj family target before after s p q,
    )

split-extractable :
    (before after : List Service) (s : Service)
    → all_extractable (before ++ (s ∷ after)) ≡ true
    → extractable s.endpoint_slices ≡ true
split-extractable [] after s h = ground (arith, h)
split-extractable (b ∷ before) after s h = split-extractable before after s (ground (arith, h))

-- The slices of a service in a translated snapshot are extracted as they report.
pub translated-reported :
    (r : MapRange) (now : String) (before after : List Service) (s : Service) (out : Snapshot)
    → envoy_snapshot_from_kube_snapshot r now (record { services = before ++ (s ∷ after) })
      ≡ some out
    → extract_endpoint_meta_and_state s.endpoint_slices ≡ some (reported s.endpoint_slices)
translated-reported r now before after s out e = extractable-reported s.endpoint_slices (
    split-extractable before after s (
      sym (envoy_snapshot-is_some r now (record { services = before ++ (s ∷ after) }))
      ∙ ap is_some e))

-- In a snapshot in which no other service has the name and namespace of this one, and no name or IP
-- family has a bar: what a lawful index finds in the translated snapshot under the name of the
-- cluster of one of the ports and IP families of the service has in each locality the endpoints that
-- its slices report in that family and at that target port, each once, in some order, and no others.
pub envoy_snapshot-looked_up :
    (I : ResourceIndex) (r : MapRange) (now : String) (before after : List Service)
    (target : Service) (port : ServicePort) (port_settings : PortSettings) (family : String)
    (locality : Locality) (out : Snapshot)
    → IsLawful I
    → IsPlain target.obj
    → has_bar family ≡ false
    → All (IsOther target.obj) before
    → All (IsOther target.obj) after
    → envoy_snapshot_from_kube_snapshot r now (record { services = before ++ (target ∷ after) })
      ≡ some out
    → Perm
        (serving family port.target_port.int_val locality (reported target.endpoint_slices))
        (looked_up I (gen_cluster target.obj port port_settings family).name locality out.endpoints)
unfolding gen_cluster
envoy_snapshot-looked_up I r now before after target port port_settings family locality out L plain
      barless p q e =
    let number = port.target_port.int_val in
    let name = get_cluster_name target.obj.namespace target.obj.name family number in
    subst (Perm (serving family number locality (reported target.endpoint_slices)))
      (assigned-looked_up I L name locality out.endpoints
        (few_assignments r now before after target family number out plain barless p q e))
      (envoy_snapshot-serving r now before after target port port_settings family locality
        (reported target.endpoint_slices) out plain barless p q
        (translated-reported r now before after target out e) e)
