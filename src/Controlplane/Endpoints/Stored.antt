-- ===== src/Controlplane/Endpoints/Stored.antt =====
-- A stored service in the translation of the cache.
use mathlib.Core.List.{Perm}
use lightpath.Prelude.{
  leb, true, ◌++◌, ◌≡◌, refl, sym, ap, ◌∙◌, String, Bool, false, none, some, List, [], ◌∷◌, map,
  ◌==◌, ==_refl, string_eq, arith, Bool-cases, inl, inr,
}
use lightpath.Prelude.Dict.{Dict, lookup, values, NodupKeys, AllEntries, AllEntries-lookup}
use lightpath.Prelude.Lists.{All}
use lightpath.Prelude.Only.{only, perm-Split, perm-All, around}
use lightpath.Prelude.MapRange.{MapRange}
use lightpath.Kube
use lightpath.Kube.{ServicePort}
use lightpath.State.Snapshot as kube_snapshot
use lightpath.State.Service.{ServiceContainer, deep_copy, snapshot as container_snapshot}
use lightpath.State.Cache.{ClusterServiceStateCache, snapshot}
use lightpath.State.Cache.Invariant.{IsFiled, IsWellFormed}
use lightpath.State.Cache.Contents.{view, snapshot_perm}
use lightpath.Translations.Endpoints.Serving.{IsPlain, same_service, serving}
use lightpath.Translations.Mapper.Served.{envoy_snapshot-serving}
use lightpath.Translations.Mapper.Index.{few_assignments, translated-reported}
use lightpath.Translations.Endpoints.Reported.{reported}
use lightpath.Translations.Mapper.Served.{IsOther}
use lightpath.Translations.Endpoints.Assignments.{named}
use lightpath.Translations.Envoy.{Snapshot}
use lightpath.Translations.PortSettings.{PortSettings}
use lightpath.Translations.Cluster.{gen_cluster}
use lightpath.Translations.Helper.Names.{has_bar}
use lightpath.Translations.Endpoints.{Locality}
use lightpath.Translations.Endpoints.Assigned.{assigned}
use lightpath.Translations.Mapper.{envoy_snapshot_from_kube_snapshot}

module _ (r : MapRange) where
  -- A shown service of the name and namespace.
  abbrev is_same : Kube.Service → kube_snapshot.Service → Bool
  is_same svc w = same_service svc w.obj

  only-missing :
      (svc : Kube.Service) (d : Dict String ServiceContainer)
      → AllEntries IsFiled d
      → lookup svc.name d ≡ none
      → only (is_same svc) (map (view r) (values d)) ≡ []
  unfolding container_snapshot deep_copy lookup
  only-missing svc [] h missing = refl
  only-missing svc ((k, s) ∷ d) (v, h) missing =
      ground (arith, missing, v.named, only-missing svc d h)

  only-stored :
      (svc : Kube.Service) (c : ServiceContainer) (d : Dict String ServiceContainer)
      → NodupKeys d
      → AllEntries IsFiled d
      → c.obj ≡ svc
      → lookup svc.name d ≡ some c
      → only (is_same svc) (map (view r) (values d)) ≡ view r c ∷ []
  unfolding container_snapshot deep_copy lookup
  only-stored svc c [] u h same found = absurd (cc found)
  only-stored svc c ((k, s) ∷ d) (fresh, u) (v, h) same found = elim (Bool-cases (svc.name == k)) [
    | inl hit ↦
        let own : s ≡ c = ground (arith, hit, found) in
        let none_left = only-missing svc d h (ground (arith, hit, fresh)) in
        ground (arith, own, same, none_left, ==_refl svc.namespace, ==_refl svc.name)
    | inr miss ↦
        let rest = only-stored svc c d u h same (ground (arith, miss, found)) in
        ground (arith, miss, v.named, rest)
  ]

  views-IsPlain :
      (d : Dict String ServiceContainer)
      → AllEntries (λ k s. IsPlain s.obj) d
      → All (λ w. IsPlain w.obj) (map (view r) (values d))
  unfolding container_snapshot deep_copy
  views-IsPlain [] h = tt
  views-IsPlain ((k, s) ∷ d) (p, h) = (p, views-IsPlain d h)

  -- A stored service among those of the snapshot, the others apart from it.
  record Apart (c : ClusterServiceStateCache) (container : ServiceContainer) : Type 0 where
    before : List kube_snapshot.Service
    after : List kube_snapshot.Service
    whole : snapshot r c ≡ record { services = before ++ (view r container ∷ after) }
    others_before : All (IsOther container.obj) before
    others_after : All (IsOther container.obj) after

  stored-Apart :
      (c : ClusterServiceStateCache) (name : String) (container : ServiceContainer)
      → IsWellFormed c
      → lookup name c.services ≡ some container
      → AllEntries (λ k s. IsPlain s.obj) c.services
      → Apart c container
  stored-Apart c name container v found plain =
      let svc = container.obj in
      let own = AllEntries-lookup IsFiled name c.services v.filed found in
      let reordered = snapshot_perm r c v.nodup in
      let s = perm-Split (is_same svc) (view r container) reordered (
        only-stored svc container c.services v.nodup v.filed refl
          (ap (λ n. lookup n c.services) own.named ∙ found)) in
      let (before, after) =
        around (λ w. IsPlain w.obj) (is_same svc) (view r container) _ s
          (perm-All (λ w. IsPlain w.obj) reordered (views-IsPlain c.services plain)) in
      record {
        before = s.before;
        after = s.after;
        whole = ap (λ ws. record { services = ws }) s.whole;
        others_before = before;
        others_after = after;
      }

  module _ (c : ClusterServiceStateCache) (name now : String) (container : ServiceContainer)
      (port : ServicePort) (port_settings : PortSettings) (family : String) (out : Snapshot)
      (v : IsWellFormed c) (found : lookup name c.services ≡ some container)
      (plain : AllEntries (λ k s. IsPlain s.obj) c.services) (barless : has_bar family ≡ false)
      (e : envoy_snapshot_from_kube_snapshot r now (snapshot r c) ≡ some out) where
    pub translated-serving :
        (locality : Locality)
        → Perm
            (serving family port.target_port.int_val locality
              (reported (view r container).endpoint_slices))
            (assigned
              (gen_cluster container.obj port port_settings family).name
              locality
              out.endpoints)
    unfolding container_snapshot deep_copy
    translated-serving locality =
        let s = stored-Apart c name container v found plain in
        let own = AllEntries-lookup (λ k s. IsPlain s.obj) name c.services plain found in
        let translates = ap (envoy_snapshot_from_kube_snapshot r now) (sym s.whole) ∙ e in
        envoy_snapshot-serving r now s.before s.after (view r container) port port_settings family
          locality (reported (view r container).endpoint_slices) out own barless s.others_before
          s.others_after
          (translated-reported r now s.before s.after (view r container) out translates) translates

    pub translated-few :
        leb (named (gen_cluster container.obj port port_settings family).name out.endpoints) 1
        ≡ true
    unfolding container_snapshot deep_copy gen_cluster
    translated-few =
        let s = stored-Apart c name container v found plain in
        let own = AllEntries-lookup (λ k s. IsPlain s.obj) name c.services plain found in
        few_assignments r now s.before s.after (view r container) family port.target_port.int_val
          out own barless s.others_before s.others_after
          (ap (envoy_snapshot_from_kube_snapshot r now) (sym s.whole) ∙ e)
