-- ===== src/State/Subscriber/Progress.antt =====
-- What is on its way to `ReceiveEvent` can always arrive, given that its context has a deadline.
use mathlib.Core.Option.{some-injective}
use lightpath.Prelude.{
  ℕ, zero, suc, ◌+◌, ◌*◌, ◌≤◌, ◌<◌, ◌≡◌, refl, Bool, true, false, none, some, List, [], ◌∷◌, arith,
  ltb, if◌then◌else◌, Bool-cases, Option-cases, inl, inr, ◌∙◌, ap, subst,
}
use lightpath.Prelude.Lists.{All}
use lightpath.Prelude.MapRange.{MapRange}
use lightpath.State.Cache.{snapshot}
use lightpath.State.Subscriber.{
  Receiver, idle, checking, waiting, taking, Subscriber, Action, handles, dispatches, locks, marks,
  receives, checks, times_out, takes, step, run, new_subscriber,
}
use lightpath.State.Subscriber.Delivery.{in_flight, run-Inv, new_subscriber-Inv}

-- The lock has one holder.
abbrev pub IsExclusive : Subscriber → Type 0
IsExclusive s = s.marking ≡ true → s.receiver ≡ idle

pub step-IsExclusive :
    (r : MapRange) (s t : Subscriber) (a : Action)
    → step r s a ≡ some t
    → IsExclusive s
    → IsExclusive t
unfolding step
step-IsExclusive r s t (handles e) h v = ground arith
step-IsExclusive r s t dispatches h v = ground arith
step-IsExclusive r s t locks h v = ground arith
step-IsExclusive r s t marks h v = ground arith
step-IsExclusive r s t _ h v = ground arith

-- The action of the goroutine that can go on.
next_action : Subscriber → Receiver → Action
next_action s taking = takes
next_action s checking = checks
next_action s waiting = if ltb 0 s.pending then dispatches else times_out
next_action s idle =
    if s.marking
    then marks
    else if ltb 0 s.pending
    then dispatches
    else if ltb 0 s.stalled
    then locks
    else receives

advance : MapRange → Subscriber → Subscriber
advance r s = elim (step r s (next_action s s.receiver)) [ none ↦ s | some t ↦ t ]

-- The receiver's share of the steps left, before and after `eventLost` is seen.
abbrev receiver_steps : Receiver → Bool → ℕ
receiver_steps idle lost = if lost then 3 else 0
receiver_steps checking lost = 2
receiver_steps waiting lost = if lost then 4 else 1
receiver_steps taking lost = if lost then 4 else 1

-- A bound on the steps until nothing is on its way.
abbrev steps_left : Subscriber → ℕ
steps_left s =
    8 * s.pending
    + 6 * s.stalled
    + (if s.marking then 4 else 0)
    + receiver_steps s.receiver s.event_lost

module _ (r : MapRange) (s : Subscriber) (one : IsExclusive s) (busy : in_flight s ≡ true) where
  -- Some goroutine can go on, and comes nearer to the end.
  advance_lem :
      (step r s (next_action s s.receiver) ≡ some (advance r s))
      × (steps_left (advance r s) < steps_left s)
      × ((advance r s).cluster_state ≡ s.cluster_state)
  unfolding advance step next_action
  advance_lem = ground arith

-- The actions until nothing is on its way.
settling : MapRange → ℕ → Subscriber → List Action
settling r zero s = []
settling r (suc n) s =
    let rest = next_action s s.receiver ∷ settling r n (advance r s) in
    if in_flight s then rest else []

abbrev is_internal : Action → Bool
is_internal (handles e) = false
is_internal _ = true

-- No informer calls a handler.
abbrev pub IsInternal : Action → Type 0
IsInternal a = is_internal a ≡ true

next_action-IsInternal : (s : Subscriber) (i : Receiver) → IsInternal (next_action s i)
unfolding next_action
next_action-IsInternal s taking = refl
next_action-IsInternal s _ = ground arith

settling-IsInternal : (r : MapRange) (n : ℕ) (s : Subscriber) → All IsInternal (settling r n s)
unfolding settling
settling-IsInternal r zero s = tt
settling-IsInternal r (suc n) s = elim (Bool-cases (in_flight s)) [
  | inl busy ↦
      rw (busy, settling)
        (next_action-IsInternal s s.receiver, settling-IsInternal r n (advance r s))
  | inr quiet ↦ rw (quiet, settling) tt
]

-- Where a schedule leads: to a quiet subscriber with the same cache.
abbrev Settles : MapRange → Subscriber → List Action → Type 0
Settles r s schedule =
    (t : Subscriber) × (run r s schedule ≡ some t)
    × (in_flight t ≡ false)
    × (t.cluster_state ≡ s.cluster_state)

run-cons :
    (r : MapRange) (s t : Subscriber) (a : Action) (rest : List Action)
    → step r s a ≡ some t
    → run r s (a ∷ rest) ≡ run r t rest
unfolding run
run-cons r s t a rest h = ground arith

settling-Settles :
    (r : MapRange) (n : ℕ) (s : Subscriber)
    → steps_left s ≤ n
    → IsExclusive s
    → Settles r s (settling r n s)
unfolding settling run
settling-Settles r zero s few one = (s, refl, ground arith, refl)
settling-Settles r (suc n) s few one = elim (Bool-cases (in_flight s)) [
  | inl busy ↦
      let (stepped, nearer, same) = advance_lem r s one busy in
      let (t, ran, quiet, kept) =
        settling-Settles r n (advance r s) (omega arith)
          (step-IsExclusive r s (advance r s) (next_action s s.receiver) stepped one) in
      (t, rw (busy, settling) (run-cons r s _ _ _ stepped ∙ ran), quiet, kept ∙ same)
  | inr quiet ↦ (s, rw (quiet, settling) refl, quiet, refl)
]

new_subscriber-IsExclusive : (r : MapRange) → IsExclusive (new_subscriber r)
unfolding new_subscriber
new_subscriber-IsExclusive r h = refl

run-IsExclusive :
    (r : MapRange) (s t : Subscriber) (schedule : List Action)
    → run r s schedule ≡ some t
    → IsExclusive s
    → IsExclusive t
unfolding run
run-IsExclusive r s t [] h v = subst IsExclusive (some-injective s t h) v
run-IsExclusive r s t (a ∷ schedule) h v = elim (Option-cases (step r s a)) [
  | inl stuck ↦ absurd (ground arith)
  | inr (u, stepped) ↦
      run-IsExclusive r u t schedule (ground arith) (step-IsExclusive r s u a stepped v)
]

-- From wherever a history leads there is a schedule of dispatches, receipts and time-outs, with no
-- further event, after which the snapshot that `ReceiveEvent` returned last is that of the cache as
-- it stood at the start of the schedule.
pub run-settles :
    (r : MapRange) (history : List Action) (s : Subscriber)
    → run r (new_subscriber r) history ≡ some s
    → (rest : List Action) × (t : Subscriber) × All IsInternal rest
      × (run r s rest ≡ some t)
      × (t.delivered ≡ snapshot r s.cluster_state)
run-settles r history s h =
    let one = run-IsExclusive r _ s history h (new_subscriber-IsExclusive r) in
    let v = run-Inv r _ s history h (new_subscriber-Inv r) in
    let rest = settling r (steps_left s) s in
    let (t, ran, quiet, same) = settling-Settles r (steps_left s) s (omega arith) one in
    let w = run-Inv r s t rest ran v in
    (rest, t, settling-IsInternal r (steps_left s) s, ran, w.tracked quiet ∙ ap (snapshot r) same)
