-- ===== src/State/Cache/Invariant.antt =====
-- Every container is filed under its service's name, and every slice under its own name in the
-- container of the service that its label names.
use lightpath.Prelude.{
  ◌≡◌, refl, subst, String, Bool, true, false, Option, none, some, arith, string_eq, Option-cases,
  Bool-cases, inl, inr,
}
use lightpath.Prelude.Dict.{
  lookup, insert, erase, NodupKeys, AllEntries, AllEntries-lookup, insert-AllEntries,
  erase-AllEntries, insert-NodupKeys, erase-NodupKeys,
}
use lightpath.Kube
use lightpath.Kube.{EndpointSlice, label_service_name}
use lightpath.State.Service.{
  ServiceContainer, labelled_for, update_endpointslices, new_service_container,
}
use lightpath.State.Cache.{
  ClusterServiceStateCache, new_cache, update_services, update_endpoint_slice,
}

abbrev pub IsFiledSlice : String → String → EndpointSlice → Type 0
IsFiledSlice svc_name n es = (es.name ≡ n) × (labelled_for es svc_name ≡ true)

pub record IsFiled (k : String) (s : ServiceContainer) : Type 0 where
  pub named : s.obj.name ≡ k
  pub nodup : NodupKeys s.endpoint_slices
  pub filed : AllEntries (IsFiledSlice k) s.endpoint_slices

pub record IsWellFormed (c : ClusterServiceStateCache) : Type 0 where
  pub nodup : NodupKeys c.services
  pub filed : AllEntries IsFiled c.services

module _ (k : String) (s : ServiceContainer) (es : EndpointSlice) (v : IsFiled k s) where
  slice_stored :
      labelled_for es s.obj.name ≡ true
      → IsFiled k (record s { endpoint_slices = insert es.name es s.endpoint_slices })
  slice_stored label = record {
    named = v.named;
    nodup = insert-NodupKeys es.name es s.endpoint_slices v.nodup;
    filed =
        insert-AllEntries (IsFiledSlice k) es.name es s.endpoint_slices
          (refl, subst (λ n. labelled_for es n ≡ true) v.named label) v.filed;
  }

  slice_removed : IsFiled k (record s { endpoint_slices = erase es.name s.endpoint_slices })
  slice_removed = record {
    named = v.named;
    nodup = erase-NodupKeys es.name s.endpoint_slices v.nodup;
    filed = erase-AllEntries (IsFiledSlice k) es.name s.endpoint_slices v.filed;
  }

  -- A container stays filed under any slice event.
  pub update_endpointslices-IsFiled :
      (delete : Bool) → IsFiled k (update_endpointslices s (some es) delete).0
  unfolding update_endpointslices
  update_endpointslices-IsFiled delete = elim (Bool-cases (labelled_for es s.obj.name)) [
    | inl label ↦ ground (arith, slice_stored label, slice_removed)
    | inr foreign ↦ rw foreign v
  ]

-- An update of the service of that name keeps it filed.
with_object-IsFiled :
    (k : String) (s : ServiceContainer) (svc : Kube.Service)
    → svc.name ≡ k
    → IsFiled k s
    → IsFiled k (record s { obj = svc })
with_object-IsFiled k s svc e v = record { named = e; nodup = v.nodup; filed = v.filed }

module _ (c : ClusterServiceStateCache) (v : IsWellFormed c) where
  stored :
      (k : String) (s : ServiceContainer)
      → IsFiled k s
      → IsWellFormed (record c { services = insert k s c.services })
  stored k s h = record {
    nodup = insert-NodupKeys k s c.services v.nodup;
    filed = insert-AllEntries IsFiled k s c.services h v.filed;
  }

  removed : (k : String) → IsWellFormed (record c { services = erase k c.services })
  removed k = record {
    nodup = erase-NodupKeys k c.services v.nodup;
    filed = erase-AllEntries IsFiled k c.services v.filed;
  }

  -- Service events preserve the invariant.
  pub update_services-IsWellFormed :
      (svc : Option Kube.Service) (delete : Bool) → IsWellFormed (update_services c svc delete).0
  unfolding update_services new_service_container
  update_services-IsWellFormed none delete = v
  update_services-IsWellFormed (some svc) true = ground (arith, removed svc.name)
  update_services-IsWellFormed (some svc) false = elim (Option-cases (lookup svc.name c.services)) [
    | inl new ↦ ground (arith, stored svc.name _ fresh)
    | inr (s, known) ↦ ground (
      arith,
      stored svc.name _ (
          with_object-IsFiled svc.name s svc refl
            (AllEntries-lookup IsFiled svc.name c.services v.filed known)),
    )
  ]
    where
      fresh : IsFiled svc.name (new_service_container svc)
      fresh = record { named = refl; nodup = tt; filed = tt }

  -- Slice events preserve the invariant.
  pub update_endpoint_slice-IsWellFormed :
      (es : Option EndpointSlice) (delete : Bool)
      → IsWellFormed (update_endpoint_slice c es delete).0
  unfolding update_endpoint_slice
  update_endpoint_slice-IsWellFormed none delete = v
  update_endpoint_slice-IsWellFormed (some es) delete =
      elim (Option-cases (lookup label_service_name es.labels)) [
        | inl bare ↦ ground arith
        | inr (n, label) ↦ elim (Option-cases (lookup n c.services)) [
          | inl unknown ↦ ground arith
          | inr (s, known) ↦ ground (
            arith,
            stored n _ (
                update_endpointslices-IsFiled n s es
                  (AllEntries-lookup IsFiled n c.services v.filed known) delete),
          )
        ]
      ]

pub new_cache-IsWellFormed : IsWellFormed new_cache
unfolding new_cache
new_cache-IsWellFormed = record { nodup = tt; filed = tt }
