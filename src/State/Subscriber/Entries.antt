-- ===== src/State/Subscriber/Entries.antt =====
-- The cache keeps the services apart: the events of one service make its entry.
use lightpath.Prelude.{
  ◌≡◌, refl, ◌∙◌, ap, sym, String, Bool, true, false, Option, none, some, List, [], ◌∷◌, arith,
  ◌==◌, string_eq, if◌then◌else◌, Option-cases, Bool-cases, inl, inr,
}
use lightpath.Prelude.Dict.{lookup, lookup-insert, lookup-erase}
use lightpath.Prelude.Only.{only}
use lightpath.Prelude.MapRange.{MapRange}
use mathlib.Core.Option.{some-injective}
use lightpath.Kube
use lightpath.Kube.{EndpointSlice, label_service_name}
use lightpath.State.Service.{ServiceContainer, update_endpointslices}
use lightpath.State.Cache.{
  ClusterServiceStateCache, new_cache, update_services, update_endpoint_slice,
}
use lightpath.State.Cache.Change.{
  service_after, is_news, lookup-update_services, accepts-update_services,
}
use lightpath.State.Subscriber.{
  Event, service_add, service_delete, service_update, service_synced, endpoint_slice_add,
  endpoint_slice_delete, endpoint_slice_update, endpoint_slices_synced, handle, Subscriber, Action,
  handles, new_subscriber, step, run,
}

-- The call of the cache that a handler makes.
pub data Call : Type 0 where
  of_service : Option Kube.Service → Bool → Call
  of_slice : Option EndpointSlice → Bool → Call
  of_none : Call

abbrev pub call : Event → Call
call (service_add svc) = of_service svc false
call (service_delete svc) = of_service svc true
call (service_update _ svc) = of_service svc false
call service_synced = of_none
call (endpoint_slice_add es) = of_slice es false
call (endpoint_slice_delete es) = of_slice es true
call (endpoint_slice_update _ es) = of_slice es false
call endpoint_slices_synced = of_none

-- The name of the service that a call is about.
abbrev pub subject : Call → Option String
subject (of_service (some svc) delete) = some svc.name
subject (of_slice (some es) delete) = lookup label_service_name es.labels
subject _ = none

-- The entry of that name after the call: a deletion removes it, news replaces its object, and a slice
-- changes a container that is there.
abbrev pub entry_step : Option ServiceContainer → Call → Option ServiceContainer
entry_step old (of_service (some svc) true) = none
entry_step old (of_service (some svc) false) =
    if is_news svc old then service_after false svc old else old
entry_step (some s) (of_slice es delete) = some (update_endpointslices s es delete).0
entry_step old _ = old

abbrev pub is_about : String → Call → Bool
is_about k a = elim (subject a) [ none ↦ false | some name ↦ k == name ]

module _ (c : ClusterServiceStateCache) (k : String) where
  lookup-service :
      (svc : Option Kube.Service) (delete : Bool)
      → lookup k (update_services c svc delete).0.services ≡ (
          if is_about k (of_service svc delete)
          then entry_step (lookup k c.services) (of_service svc delete)
          else lookup k c.services)
  unfolding update_services
  lookup-service none delete = refl
  lookup-service (some svc) true = ground (arith, lookup-erase k svc.name c.services)
  lookup-service (some svc) false =
      ground (arith, lookup-update_services c svc false k, accepts-update_services c svc false)

  lookup-slice :
      (es : Option EndpointSlice) (delete : Bool)
      → lookup k (update_endpoint_slice c es delete).0.services ≡ (
          if is_about k (of_slice es delete)
          then entry_step (lookup k c.services) (of_slice es delete)
          else lookup k c.services)
  unfolding update_endpoint_slice
  lookup-slice none delete = refl
  lookup-slice (some es) delete = elim (Option-cases (lookup label_service_name es.labels)) [
    | inl bare ↦ ground (arith, bare)
    | inr (n, label) ↦ elim (Option-cases (lookup n c.services)) [
      | inl unknown ↦ ground (arith, label, unknown)
      | inr (s, known) ↦ ground (
        arith,
        label,
        known,
        lookup-insert k n (update_endpointslices s (some es) delete).0 c.services,
      )
    ]
  ]

  lookup-handle :
      (e : Event)
      → lookup k (handle c e).0.services ≡ (
          if is_about k (call e)
          then entry_step (lookup k c.services) (call e)
          else lookup k c.services)
  unfolding handle
  lookup-handle (service_add svc) = lookup-service svc false
  lookup-handle (service_delete svc) = lookup-service svc true
  lookup-handle (service_update _ svc) = lookup-service svc false
  lookup-handle service_synced = refl
  lookup-handle (endpoint_slice_add es) = lookup-slice es false
  lookup-handle (endpoint_slice_delete es) = lookup-slice es true
  lookup-handle (endpoint_slice_update _ es) = lookup-slice es false
  lookup-handle endpoint_slices_synced = refl

-- The cache after a history of events.
abbrev pub handle_all : ClusterServiceStateCache → List Event → ClusterServiceStateCache
handle_all c [] = c
handle_all c (e ∷ events) = handle_all (handle c e).0 events

-- The entry of a name after the events of that name.
abbrev pub entry_run : Option ServiceContainer → List Event → Option ServiceContainer
entry_run old [] = old
entry_run old (e ∷ events) = entry_run (entry_step old (call e)) events

-- The events of a name, in order.
abbrev pub about : String → List Event → List Event
about k = only (λ e. is_about k (call e))

-- After any list of informer events the entry of each name is what the events of that name alone make
-- of the entry that was there: a deletion removes it, an addition or update that is news puts its
-- object into it and keeps its slices, and a slice changes the slices of a container that is there.
handle_all-entries :
    (events : List Event) (c : ClusterServiceStateCache) (k : String)
    → lookup k (handle_all c events).services ≡ entry_run (lookup k c.services) (about k events)
handle_all-entries [] c k = refl
handle_all-entries (e ∷ events) c k =
    let IH = handle_all-entries events (handle c e).0 k in
    let old = lookup k c.services in
    elim (Bool-cases (is_about k (call e))) [
      | inl hit ↦
          let one : lookup k (handle c e).0.services ≡ entry_step old (call e) =
            lookup-handle c k e ∙ ap (λ b. if b then entry_step old (call e) else old) hit in
          IH
          ∙ ap (λ o. entry_run o (about k events)) one
          ∙ ap (entry_run old)
              (sym (ap (λ b. if b then e ∷ about k events else about k events) hit))
      | inr miss ↦
          let one : lookup k (handle c e).0.services ≡ old =
            lookup-handle c k e ∙ ap (λ b. if b then entry_step old (call e) else old) miss in
          IH
          ∙ ap (λ o. entry_run o (about k events)) one
          ∙ ap (entry_run old)
              (sym (ap (λ b. if b then e ∷ about k events else about k events) miss))
    ]

-- The events that a schedule handles, in order.
abbrev pub events_of : List Action → List Event
events_of [] = []
events_of (handles e ∷ schedule) = e ∷ events_of schedule
events_of (_ ∷ schedule) = events_of schedule

-- The cache after an action.
abbrev cache_after : ClusterServiceStateCache → Action → ClusterServiceStateCache
cache_after c (handles e) = (handle c e).0
cache_after c _ = c

step-cache_after :
    (r : MapRange) (s t : Subscriber) (a : Action)
    → step r s a ≡ some t
    → t.cluster_state ≡ cache_after s.cluster_state a
unfolding step
step-cache_after r s t (handles e) h = ground (arith, h)
step-cache_after r s t _ h = ground (arith, h)

handle_all-events :
    (c : ClusterServiceStateCache) (a : Action) (schedule : List Action)
    → handle_all (cache_after c a) (events_of schedule) ≡ handle_all c (events_of (a ∷ schedule))
handle_all-events c (handles e) schedule = refl
handle_all-events c _ schedule = refl

pub run-handle_all :
    (r : MapRange) (schedule : List Action) (s t : Subscriber)
    → run r s schedule ≡ some t
    → t.cluster_state ≡ handle_all s.cluster_state (events_of schedule)
unfolding run
run-handle_all r [] s t h = ap (λ u. u.cluster_state) (sym (some-injective s t h))
run-handle_all r (a ∷ schedule) s t h = elim (Option-cases (step r s a)) [
  | inl stuck ↦ absurd (ground (arith, stuck, h))
  | inr (u, stepped) ↦
      run-handle_all r schedule u t (ground (arith, stepped, h))
      ∙ ap (λ c. handle_all c (events_of schedule)) (step-cache_after r s u a stepped)
      ∙ handle_all-events s.cluster_state a schedule
]

-- In every interleaving of events, dispatches, receipts and time-outs the entry of each name in the
-- cache is what the events of that name alone make, in the order in which they are handled: a
-- deletion removes the entry, an addition or update that is news puts its object into it and keeps
-- its slices, and a slice changes the slices of a container that is there.
pub run-entries :
    (r : MapRange) (schedule : List Action) (s : Subscriber) (k : String)
    → run r (new_subscriber r) schedule ≡ some s
    → lookup k s.cluster_state.services ≡ entry_run none (about k (events_of schedule))
unfolding new_subscriber new_cache lookup
run-entries r schedule s k h =
    ap (λ c. lookup k c.services) (run-handle_all r schedule (new_subscriber r) s h)
    ∙ handle_all-entries (events_of schedule) new_cache k
