-- ===== src/Commands/Interrupts/Refines.antt =====
-- The daemon, step by step, does what `run` does on the course of its callbacks.

use mathlib.Core.Option.{some-injective}
use lightpath.Prelude.{
  ◌≡◌, refl, sym, ap, ◌∙◌, ◌<>◌, true, false, Option, none, some, List, [], ◌∷◌, arith,
  Option-cases, Bool-cases, inl, inr,
}
use lightpath.Prelude.MapRange.{MapRange}
use lightpath.Clients.{ClientGo}
use lightpath.Commands.Signals.{SignalHandler, notify_signal, take_signal}
use lightpath.Redirect.{Net}
use lightpath.Redirect.Iptables.{Iptables, Tables, prereqs}
use lightpath.Redirect.Informer.{Notification, notify, notify_all}
use lightpath.Redirect.Daemon.{
  Course, first_unsynced, RunError, errorf, redirect_impl, after, stop, watch,
}
use lightpath.Commands.Interrupts.{
  Action, calls, syncs, signal, take, cleans, Stage, waits, watches, finished, Daemon, synced_stage,
  sync_step, clean_step, call_step, daemon_step, daemon_run, new_daemon, result,
}
use lightpath.Commands.Interrupts.Taken.{signalled, returned_taken}

-- The callbacks of a schedule.
abbrev calls_of : List Action → List Notification
calls_of [] = []
calls_of (calls n ∷ rest) = n ∷ calls_of rest
calls_of (_ ∷ rest) = calls_of rest

-- The callbacks before `WaitForCacheSync` returns, what it returns, and those after.
abbrev pub course_of : List Action → Course
course_of [] = record { early = []; synced = []; late = [] }
course_of (calls n ∷ rest) =
    let course = course_of rest in record course { early = n ∷ course.early }
course_of (syncs synced ∷ rest) = record { early = []; synced = synced; late = calls_of rest }
course_of (_ ∷ rest) = course_of rest

module _ (G : ClientGo) (T : Iptables) (N : Net) (r : MapRange) where
  abbrev at : SignalHandler → Stage G T N r → Tables T → Daemon G T N r
  at h stage t = record { handler = h; stage = stage; tables = t }

  -- Nothing but signals after the return.
  finished_run :
      (schedule : List Action) (h : SignalHandler) (err : Option (RunError G T N r)) (t : Tables T)
      (q : Daemon G T N r)
      → daemon_run G T N r (at h (finished err) t) schedule ≡ some q
      → (result G T N r q.stage ≡ some err) × (q.tables ≡ t) × (calls_of schedule ≡ [])
  unfolding daemon_run daemon_step call_step sync_step clean_step
  finished_run [] h err t q e =
      let same = some-injective (at h (finished err) t) q e in
      (ap (λ d. result G T N r d.stage) (sym same), ap (λ d. d.tables) (sym same), refl)
  finished_run (signal ∷ rest) h err t q e = finished_run rest (notify_signal h) err t q e
  finished_run (take ∷ rest) h err t q e = elim (Option-cases (take_signal h)) [
    | inl stuck ↦ absurd (ground (arith, stuck, e))
    | inr (h', taken) ↦ finished_run rest h' err t q (ground (arith, taken, e))
  ]
  finished_run (calls n ∷ rest) h err t q e = absurd (ground (arith, e))
  finished_run (syncs l ∷ rest) h err t q e = absurd (ground (arith, e))
  finished_run (cleans ∷ rest) h err t q e = absurd (ground (arith, e))

  after-cons :
      (n : Notification) (ns : List Notification) (t u : Tables T)
      (next : Tables T → Tables T × Option (RunError G T N r))
      → notify N (redirect_impl G T N r) r n t ≡ some u
      → after G T N r (n ∷ ns) t next ≡ after G T N r ns u next
  unfolding notify_all
  after-cons n ns t u next told = rw (notify_all, told) refl

  stopped :
      (t : Tables T)
      → after G T N r [] t (stop G T N r) ≡ some ((stop G T N r t).0, (stop G T N r t).1)
  unfolding notify_all
  stopped t = refl

  watches_run :
      (schedule : List Action) (h : SignalHandler) (t : Tables T) (q : Daemon G T N r)
      (err : Option (RunError G T N r))
      → daemon_run G T N r (at h watches t) schedule ≡ some q
      → result G T N r q.stage ≡ some err
      → after G T N r (calls_of schedule) t (stop G T N r) ≡ some (q.tables, err)
  unfolding daemon_run daemon_step call_step sync_step clean_step
  watches_run [] h t q err e f =
      absurd
        (ground (arith, ap (λ d. result G T N r d.stage) (some-injective (at h watches t) q e), f))
  watches_run (signal ∷ rest) h t q err e f = watches_run rest (notify_signal h) t q err e f
  watches_run (take ∷ rest) h t q err e f = elim (Option-cases (take_signal h)) [
    | inl stuck ↦ absurd (ground (arith, stuck, e))
    | inr (h', taken) ↦ watches_run rest h' t q err (ground (arith, taken, e)) f
  ]
  watches_run (calls n ∷ rest) h t q err e f =
      elim (Option-cases (notify N (redirect_impl G T N r) r n t)) [
        | inl panics ↦ absurd (ground (arith, panics, e))
        | inr (u, told) ↦
            after-cons n (calls_of rest) t u (stop G T N r) told
            ∙ watches_run rest h u q err (ground (arith, told, e)) f
      ]
  watches_run (syncs l ∷ rest) h t q err e f = absurd (ground (arith, e))
  watches_run (cleans ∷ rest) h t q err e f = elim (Bool-cases h.taken) [
    | inl taken ↦
        let (t', err') = stop G T N r t in
        let (res, tabs, quiet) = finished_run rest h err' t' q (ground (arith, taken, e)) in
        let same : err' ≡ err = some-injective err' err (sym res ∙ f) in
        ap (λ ns. after G T N r ns t (stop G T N r)) quiet ∙ stopped t ∙ cc (same, tabs)
    | inr waiting ↦ absurd (ground (arith, waiting, e))
  ]

  -- The course of `run`, from the tables that `Prereqs` leaves.
  abbrev watch_from : Course → Tables T → Option (Tables T × Option (RunError G T N r))
  watch_from course t = elim (first_unsynced course.synced) [
    | none ↦ elim (notify_all N (redirect_impl G T N r) r course.early t) [
      | none ↦ none
      | some u ↦ after G T N r course.late u (stop G T N r)
    ]
    | some informer_type ↦
        after G T N r course.early t
          (λ u. (u, some (errorf ("failed to sync cache for " <> informer_type))))
  ]

  watch_from-cons :
      (n : Notification) (course : Course) (t u : Tables T)
      → notify N (redirect_impl G T N r) r n t ≡ some u
      → watch_from (record course { early = n ∷ course.early }) t ≡ watch_from course u
  unfolding notify_all
  watch_from-cons n course t u told = elim (Option-cases (first_unsynced course.synced)) [
    | inl fine ↦ rw (watch_from, fine, notify_all, told) refl
    | inr (_, unsynced) ↦ rw (watch_from, unsynced, notify_all, told) refl
  ]

  waits_run :
      (schedule : List Action) (h : SignalHandler) (t : Tables T) (q : Daemon G T N r)
      (err : Option (RunError G T N r))
      → daemon_run G T N r (at h waits t) schedule ≡ some q
      → result G T N r q.stage ≡ some err
      → watch_from (course_of schedule) t ≡ some (q.tables, err)
  unfolding daemon_run daemon_step call_step sync_step clean_step synced_stage notify_all
      first_unsynced
  waits_run [] h t q err e f =
      absurd
        (ground (arith, ap (λ d. result G T N r d.stage) (some-injective (at h waits t) q e), f))
  waits_run (signal ∷ rest) h t q err e f = waits_run rest (notify_signal h) t q err e f
  waits_run (take ∷ rest) h t q err e f = elim (Option-cases (take_signal h)) [
    | inl stuck ↦ absurd (ground (arith, stuck, e))
    | inr (h', taken) ↦ waits_run rest h' t q err (ground (arith, taken, e)) f
  ]
  waits_run (calls n ∷ rest) h t q err e f =
      elim (Option-cases (notify N (redirect_impl G T N r) r n t)) [
        | inl panics ↦ absurd (ground (arith, panics, e))
        | inr (u, told) ↦
            watch_from-cons n (course_of rest) t u told
            ∙ waits_run rest h u q err (ground (arith, told, e)) f
      ]
  waits_run (cleans ∷ rest) h t q err e f = absurd (ground (arith, e))
  waits_run (syncs l ∷ rest) h t q err e f = elim (Option-cases (first_unsynced l)) [
    | inl fine ↦ rw fine (watches_run rest h t q err (ground (arith, fine, e)) f)
    | inr (informer_type, unsynced) ↦ elim (Bool-cases h.taken) [
      | inl taken ↦
          let failure : Option (RunError G T N r) =
            some (errorf ("failed to sync cache for " <> informer_type)) in
          let (res, tabs, quiet) =
            finished_run rest h failure t q (ground (arith, unsynced, taken, e)) in
          let same : failure ≡ err = some-injective failure err (sym res ∙ f) in
          rw unsynced (cc (same, tabs))
      | inr waiting ↦ absurd (ground (arith, unsynced, waiting, e))
    ]
  ]

  -- Whatever the order of callbacks, signals and the return of `WaitForCacheSync` after `Prereqs`: when
  -- `run` has returned, a signal has arrived and has been taken, and the error and the tables that it
  -- left are those of the run on the course of those callbacks, the ones before and the ones after
  -- that return.
  pub daemon_run-watch :
      (s : Tables T) (schedule : List Action) (q : Daemon G T N r) (err : Option (RunError G T N r))
      → daemon_run G T N r (new_daemon G T N r s) schedule ≡ some q
      → result G T N r q.stage ≡ some err
      → (signalled schedule ≡ true)
        × (q.handler.taken ≡ true)
        × (watch G T N r (course_of schedule) s ≡ some (q.tables, err))
  unfolding watch
  daemon_run-watch s schedule q err e f =
      let (arrived, taken) = returned_taken G T N r s schedule q err e f in
      (
        arrived,
        taken,
        waits_run schedule (record { buffered = false; taken = false }) (prereqs T s).0 q err e f,
      )
