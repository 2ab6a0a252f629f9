-- ===== src/State/Subscriber.antt =====
-- pkg/state/subscriber.go: the handlers of the informers, which run in goroutines of their own, and
-- `ReceiveEvent`, called in a loop. A step is what happens between two points where a goroutine can
-- be held up: a lock, or the channel, which has no buffer.
pub mod Delivery
pub mod Entries
pub mod Objects
pub mod Progress
use lightpath.Prelude.{
  ℕ, zero, suc, ◌+◌, Bool, true, false, Option, none, some, List, [], ◌∷◌, if◌then◌else◌,
}
use lightpath.Prelude.MapRange.{MapRange}
use lightpath.Kube
use lightpath.Kube.{EndpointSlice}
use lightpath.State.Snapshot.{Snapshot}
use lightpath.State.Cache.{
  ClusterServiceStateCache, new_cache, update_services, update_endpoint_slice,
  snapshot as cache_snapshot,
}

-- A call of a handler. The update handlers ignore the old object.
pub data Event : Type 0 where
  service_add service_delete : Option Kube.Service → Event
  service_update : Option Kube.Service → Option Kube.Service → Event
  service_synced : Event
  endpoint_slice_add endpoint_slice_delete : Option EndpointSlice → Event
  endpoint_slice_update : Option EndpointSlice → Option EndpointSlice → Event
  endpoint_slices_synced : Event

-- The cache after a handler, and whether it goes on to `dispatchEvent`.
unfoldable pub handle : ClusterServiceStateCache → Event → ClusterServiceStateCache × Bool
handle c (service_add svc) = update_services c svc false
handle c (service_delete svc) = update_services c svc true
handle c (service_update _ svc) = update_services c svc false
handle c service_synced = (c, false)
handle c (endpoint_slice_add es) = update_endpoint_slice c es false
handle c (endpoint_slice_delete es) = update_endpoint_slice c es true
handle c (endpoint_slice_update _ es) = update_endpoint_slice c es false
handle c endpoint_slices_synced = (c, false)

-- Where `ReceiveEvent` stands. It holds the lock everywhere but at `idle`: `checking` before the
-- test of `eventLost`, `waiting` in the select, `taking` before the snapshot that it returns.
pub data Receiver : Type 0 where
  idle checking waiting taking : Receiver

pub record Subscriber : Type 0 where
  pub cluster_state : ClusterServiceStateCache
  pub event_lost : Bool
  pub receiver : Receiver
  -- Handlers that have reached `dispatchEvent`, and those in its default branch that want the lock.
  pub pending : ℕ
  pub stalled : ℕ
  -- A handler holds the lock.
  pub marking : Bool
  -- What `ReceiveEvent` returned last that was not nil.
  pub delivered : Snapshot

unfoldable pub new_subscriber : MapRange → Subscriber
unfolding new_cache
new_subscriber r = record {
  cluster_state = new_cache;
  event_lost = false;
  receiver = idle;
  pending = 0;
  stalled = 0;
  marking = false;
  delivered = record { services = [] };
}

-- The exported method, beside `ReceiveEvent`.
unfoldable pub snapshot : MapRange → Subscriber → Snapshot
snapshot r s = cache_snapshot r s.cluster_state

pub data Action : Type 0 where
  handles : Event → Action
  dispatches locks marks receives checks times_out takes : Action

abbrev pub is_free : Receiver → Bool → Bool
is_free idle false = true
is_free _ _ = false

-- The select of `dispatchEvent`: the send succeeds only if the receiver waits.
dispatch : Subscriber → Receiver → ℕ → Option Subscriber
dispatch s _ zero = none
dispatch s waiting (suc n) = some (record s { pending = n; receiver = taking })
dispatch s _ (suc n) = some (record s { pending = n; stalled = suc s.stalled })

-- `cs.eventLostLock.Lock()` in the default branch.
lock : Subscriber → ℕ → Option Subscriber
lock s zero = none
lock s (suc n) =
    if is_free s.receiver s.marking then some (record s { stalled = n; marking = true }) else none

-- `cs.eventLost = true`, and the unlock.
mark : Subscriber → Option Subscriber
mark s = if s.marking then some (record s { event_lost = true; marking = false }) else none

-- `ReceiveEvent` from its lock to its return.
receive : Subscriber → Option Subscriber
receive s = if is_free s.receiver s.marking then some (record s { receiver = checking }) else none

check : Subscriber → Receiver → Option Subscriber
check s checking =
    if s.event_lost
    then some (record s { event_lost = false; receiver = taking })
    else some (record s { receiver = waiting })
check s _ = none

time_out : Subscriber → Receiver → Option Subscriber
time_out s waiting = some (record s { receiver = idle })
time_out s _ = none

take : MapRange → Subscriber → Receiver → Option Subscriber
take r s taking = some (record s { delivered = cache_snapshot r s.cluster_state; receiver = idle })
take r s _ = none

-- One action; `none` where the goroutine cannot go on.
unfoldable pub step : MapRange → Subscriber → Action → Option Subscriber
unfolding dispatch lock mark receive check time_out take
step r s (handles e) =
    let (c, changed) = handle s.cluster_state e in
    some (record s { cluster_state = c; pending = if changed then suc s.pending else s.pending })
step r s dispatches = dispatch s s.receiver s.pending
step r s locks = lock s s.stalled
step r s marks = mark s
step r s receives = receive s
step r s checks = check s s.receiver
step r s times_out = time_out s s.receiver
step r s takes = take r s s.receiver

-- A schedule; `none` if one of its actions was not possible.
unfoldable pub run : MapRange → Subscriber → List Action → Option Subscriber
run r s [] = some s
run r s (a ∷ schedule) = elim (step r s a) [ none ↦ none | some s' ↦ run r s' schedule ]
