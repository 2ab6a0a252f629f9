-- ===== src/State/Subscriber/Objects.antt =====
-- What holds of every service that the informers report holds of every stored service.

use lightpath.Prelude.{
  ◌≡◌, sym, subst, String, Bool, true, false, Option, none, some, List, [], ◌∷◌, arith, string_eq,
  Option-cases, inl, inr,
}
use lightpath.Prelude.Dict.{
  lookup, insert, erase, AllEntries, AllEntries-lookup, insert-AllEntries, erase-AllEntries,
}
use lightpath.Prelude.Lists.{All}
use lightpath.Prelude.MapRange.{MapRange}
use lightpath.Kube
use lightpath.Kube.{EndpointSlice, label_service_name}
use lightpath.State.Service.{ServiceContainer, update_endpointslices, new_service_container}
use lightpath.State.Service.Slices.{lookup-update_endpointslices}
use lightpath.State.Cache.{
  ClusterServiceStateCache, new_cache, update_services, update_endpoint_slice,
}
use lightpath.State.Subscriber.{
  Event, service_add, service_delete, service_update, service_synced, endpoint_slice_add,
  endpoint_slice_delete, endpoint_slice_update, endpoint_slices_synced, handle, Subscriber, Action,
  new_subscriber, run,
}
use lightpath.State.Subscriber.Entries.{
  Call, of_service, call, events_of, handle_all, run-handle_all,
}

module _ (P : Kube.Service → Type 0) where
  -- The service of an event, if it has one.
  abbrev pub OfCall : Call → Type 0
  OfCall (of_service (some svc) delete) = P svc
  OfCall _ = Unit

  -- The objects of the cache.
  abbrev pub AllObjects : ClusterServiceStateCache → Type 0
  AllObjects c = AllEntries (λ k s. P s.obj) c.services

  module _ (c : ClusterServiceStateCache) (v : AllObjects c) where
    stored :
        (k : String) (s : ServiceContainer)
        → P s.obj
        → AllObjects (record c { services = insert k s c.services })
    stored k s h = insert-AllEntries (λ _ s. P s.obj) k s c.services h v

    removed : (k : String) → AllObjects (record c { services = erase k c.services })
    removed k = erase-AllEntries (λ _ s. P s.obj) k c.services v

    update_services-AllObjects :
        (svc : Option Kube.Service) (delete : Bool)
        → OfCall (of_service svc delete)
        → AllObjects (update_services c svc delete).0
    unfolding update_services new_service_container
    update_services-AllObjects none delete h = v
    update_services-AllObjects (some svc) true h =
        elim (Option-cases (lookup svc.name c.services)) [
          | inl unknown ↦ ground (arith, unknown, v)
          | inr (s, known) ↦ ground (arith, known, removed svc.name)
        ]
    update_services-AllObjects (some svc) false h =
        elim (Option-cases (lookup svc.name c.services)) [
          | inl new ↦ ground (arith, stored svc.name (new_service_container svc) h)
          | inr (s, known) ↦ ground (arith, stored svc.name (record s { obj = svc }) h)
        ]

    update_endpoint_slice-AllObjects :
        (es : Option EndpointSlice) (delete : Bool)
        → AllObjects (update_endpoint_slice c es delete).0
    unfolding update_endpoint_slice
    update_endpoint_slice-AllObjects none delete = v
    update_endpoint_slice-AllObjects (some es) delete =
        elim (Option-cases (lookup label_service_name es.labels)) [
          | inl bare ↦ ground (arith, bare)
          | inr (n, label) ↦ elim (Option-cases (lookup n c.services)) [
            | inl unknown ↦ ground (arith, label, unknown)
            | inr (s, known) ↦
                let own = AllEntries-lookup (λ _ s. P s.obj) n c.services v known in
                let same = (lookup-update_endpointslices s es delete "").1 in
                ground (
                  arith,
                  label,
                  known,
                  stored n (update_endpointslices s (some es) delete).0 (subst P (sym same) own),
                )
          ]
        ]

  handle-AllObjects :
      (c : ClusterServiceStateCache) (e : Event)
      → AllObjects c
      → OfCall (call e)
      → AllObjects (handle c e).0
  unfolding handle
  handle-AllObjects c (service_add svc) v h = update_services-AllObjects c v svc false h
  handle-AllObjects c (service_delete svc) v h = update_services-AllObjects c v svc true h
  handle-AllObjects c (service_update _ svc) v h = update_services-AllObjects c v svc false h
  handle-AllObjects c service_synced v h = v
  handle-AllObjects c (endpoint_slice_add es) v h = update_endpoint_slice-AllObjects c v es false
  handle-AllObjects c (endpoint_slice_delete es) v h = update_endpoint_slice-AllObjects c v es true
  handle-AllObjects c (endpoint_slice_update _ es) v h =
      update_endpoint_slice-AllObjects c v es false
  handle-AllObjects c endpoint_slices_synced v h = v

  handle_all-AllObjects :
      (events : List Event) (c : ClusterServiceStateCache)
      → AllObjects c
      → All (λ e. OfCall (call e)) events
      → AllObjects (handle_all c events)
  handle_all-AllObjects [] c v h = v
  handle_all-AllObjects (e ∷ events) c v (one, h) =
      handle_all-AllObjects events (handle c e).0 (handle-AllObjects c e v one) h

  pub run-AllObjects :
      (r : MapRange) (schedule : List Action) (s : Subscriber)
      → run r (new_subscriber r) schedule ≡ some s
      → All (λ e. OfCall (call e)) (events_of schedule)
      → AllObjects s.cluster_state
  unfolding new_subscriber new_cache
  run-AllObjects r schedule s e h =
      subst AllObjects (sym (run-handle_all r schedule (new_subscriber r) s e))
        (handle_all-AllObjects (events_of schedule) new_cache tt h)
