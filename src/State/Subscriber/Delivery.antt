-- ===== src/State/Subscriber/Delivery.antt =====
-- No change of the cache is lost on the way to `ReceiveEvent`.
use mathlib.Core.Option.{some-injective}
use lightpath.Prelude.{
  ◌≡◌, refl, sym, subst, Bool, true, false, ◌||◌, some, List, [], ◌∷◌, arith, ltb, Option-cases,
  inl, inr,
}
use lightpath.Prelude.MapRange.{MapRange, visit-nil, assign_all}
use lightpath.State.Cache.{ClusterServiceStateCache, snapshot, new_cache}
use lightpath.State.Cache.Change.{update_services-false_iff, update_endpoint_slice_unreported}
use lightpath.State.Cache.Invariant.{
  IsWellFormed, new_cache-IsWellFormed, update_services-IsWellFormed,
  update_endpoint_slice-IsWellFormed,
}
use lightpath.State.Subscriber.{
  Event, service_add, service_delete, service_update, service_synced, endpoint_slice_add,
  endpoint_slice_delete, endpoint_slice_update, endpoint_slices_synced, handle, Receiver, taking,
  Subscriber, new_subscriber, Action, handles, dispatches, locks, step, run,
}

-- A handler that does not dispatch has changed nothing.
pub handle_quiet :
    (c : ClusterServiceStateCache) (e : Event) → (handle c e).1 ≡ false → (handle c e).0 ≡ c
unfolding handle
handle_quiet c (service_add svc) h = (update_services-false_iff c svc false).0 h
handle_quiet c (service_delete svc) h = (update_services-false_iff c svc true).0 h
handle_quiet c (service_update _ svc) h = (update_services-false_iff c svc false).0 h
handle_quiet c service_synced h = refl
handle_quiet c (endpoint_slice_add es) h = update_endpoint_slice_unreported c es false h
handle_quiet c (endpoint_slice_delete es) h = update_endpoint_slice_unreported c es true h
handle_quiet c (endpoint_slice_update _ es) h = update_endpoint_slice_unreported c es false h
handle_quiet c endpoint_slices_synced h = refl

abbrev pub is_taking : Receiver → Bool
is_taking taking = true
is_taking _ = false

-- News is on its way: with a handler, in `eventLost`, or with `ReceiveEvent` itself.
abbrev pub in_flight : Subscriber → Bool
in_flight s =
    ltb 0 s.pending || ltb 0 s.stalled || s.marking || s.event_lost || is_taking s.receiver

-- Unless news is on its way, the snapshot that was returned last is that of the cache as it is.
abbrev pub IsTracked : MapRange → Subscriber → Type 0
IsTracked r s = in_flight s ≡ false → s.delivered ≡ snapshot r s.cluster_state

-- Every step keeps the cache tracked.
pub step-IsTracked :
    (r : MapRange) (s t : Subscriber) (a : Action)
    → step r s a ≡ some t
    → IsTracked r s
    → IsTracked r t
unfolding step
step-IsTracked r s t (handles e) h v = ground (arith, handle_quiet s.cluster_state e)
step-IsTracked r s t dispatches h v = ground arith
step-IsTracked r s t locks h v = ground arith
step-IsTracked r s t _ h v = ground arith

snapshot-new_cache : (r : MapRange) → snapshot r new_cache ≡ record { services = [] }
unfolding snapshot new_cache
snapshot-new_cache r = rw (visit-nil r, assign_all, visit-nil r)

new_subscriber-IsTracked : (r : MapRange) → IsTracked r (new_subscriber r)
unfolding new_subscriber
new_subscriber-IsTracked r h = sym (snapshot-new_cache r)

pub handle-IsWellFormed :
    (c : ClusterServiceStateCache) → IsWellFormed c → (e : Event) → IsWellFormed (handle c e).0
unfolding handle
handle-IsWellFormed c v (service_add svc) = update_services-IsWellFormed c v svc false
handle-IsWellFormed c v (service_delete svc) = update_services-IsWellFormed c v svc true
handle-IsWellFormed c v (service_update _ svc) = update_services-IsWellFormed c v svc false
handle-IsWellFormed c v service_synced = v
handle-IsWellFormed c v (endpoint_slice_add es) = update_endpoint_slice-IsWellFormed c v es false
handle-IsWellFormed c v (endpoint_slice_delete es) = update_endpoint_slice-IsWellFormed c v es true
handle-IsWellFormed c v (endpoint_slice_update _ es) =
    update_endpoint_slice-IsWellFormed c v es false
handle-IsWellFormed c v endpoint_slices_synced = v

-- Every step keeps the cache well formed.
step-IsWellFormed :
    (r : MapRange) (s t : Subscriber) (a : Action)
    → step r s a ≡ some t
    → IsWellFormed s.cluster_state
    → IsWellFormed t.cluster_state
unfolding step
step-IsWellFormed r s t (handles e) h v = ground (arith, handle-IsWellFormed s.cluster_state v e)
step-IsWellFormed r s t dispatches h v = ground arith
step-IsWellFormed r s t locks h v = ground arith
step-IsWellFormed r s t _ h v = ground arith

-- What holds of a subscriber at any time.
pub record Inv (r : MapRange) (s : Subscriber) : Type 0 where
  pub tracked : IsTracked r s
  pub well_formed : IsWellFormed s.cluster_state

pub run-Inv :
    (r : MapRange) (s t : Subscriber) (schedule : List Action)
    → run r s schedule ≡ some t
    → Inv r s
    → Inv r t
unfolding run
run-Inv r s t [] h v = subst (Inv r) (some-injective s t h) v
run-Inv r s t (a ∷ schedule) h v = elim (Option-cases (step r s a)) [
  | inl stuck ↦ absurd (ground arith)
  | inr (u, stepped) ↦ run-Inv r u t schedule (ground arith) (record {
    tracked = step-IsTracked r s u a stepped v.tracked;
    well_formed = step-IsWellFormed r s u a stepped v.well_formed;
  })
]

pub new_subscriber-Inv : (r : MapRange) → Inv r (new_subscriber r)
unfolding new_subscriber
new_subscriber-Inv r = record {
  tracked = new_subscriber-IsTracked r;
  well_formed = new_cache-IsWellFormed;
}

-- In every history of events, dispatches, receipts and time-outs: whenever no news is on its way, the
-- snapshot that `ReceiveEvent` returned last is that of the cache as it stands.
pub run-delivers :
    (r : MapRange) (schedule : List Action) (s : Subscriber)
    → run r (new_subscriber r) schedule ≡ some s
    → in_flight s ≡ false
    → s.delivered ≡ snapshot r s.cluster_state
run-delivers r schedule s h quiet = (run-Inv r _ s schedule h (new_subscriber-Inv r)).tracked quiet

-- In every history the cache is well formed.
pub run-IsWellFormed :
    (r : MapRange) (schedule : List Action) (s : Subscriber)
    → run r (new_subscriber r) schedule ≡ some s
    → IsWellFormed s.cluster_state
run-IsWellFormed r schedule s h = (run-Inv r _ s schedule h (new_subscriber-Inv r)).well_formed
