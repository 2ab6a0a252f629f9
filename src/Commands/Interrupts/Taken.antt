-- ===== src/Commands/Interrupts/Taken.antt =====
-- The daemon's `run` returns only after a signal.
use lightpath.Prelude.{
  ◌≡◌, refl, Bool, true, false, ◌||◌, not, Option, some, is_some, List, [], ◌∷◌, arith,
  Option-cases, inl, inr, String,
}
use lightpath.Prelude.MapRange.{MapRange}
use lightpath.Clients.{ClientGo}
use lightpath.Commands.Signals.{SignalHandler, notify_signal, take_signal}
use lightpath.Redirect.{Net}
use lightpath.Redirect.Iptables.{Iptables, Tables}
use lightpath.Redirect.Informer.{Notification, notify}
use lightpath.Redirect.Daemon.{RunError, redirect_impl, first_unsynced}
use lightpath.Commands.Interrupts.{
  Action, calls, syncs, signal, take, cleans, Stage, waits, watches, finished, Daemon, synced_stage,
  sync_step, clean_step, call_step, daemon_step, daemon_run, new_daemon, result,
}

abbrev is_signal : Action → Bool
is_signal signal = true
is_signal _ = false

-- A signal arrives.
abbrev pub signalled : List Action → Bool
signalled [] = false
signalled (a ∷ rest) = is_signal a || signalled rest

abbrev arrived : SignalHandler → Bool
arrived h = h.buffered || h.taken

module _ (G : ClientGo) (T : Iptables) (N : Net) (r : MapRange) where
  -- Where `run` has returned, the signal is taken.
  abbrev fits : Daemon G T N r → Bool
  fits d = not (is_some (result G T N r d.stage)) || d.handler.taken

  take-fits :
      (d : Daemon G T N r) (h : SignalHandler)
      → take_signal d.handler ≡ some h
      → (h.taken ≡ true) × (d.handler.buffered ≡ true)
  unfolding take_signal
  take-fits d h e = ground (arith, e)

  sync_step-fits :
      (l : List (String × Bool)) (d q : Daemon G T N r) (stage : Stage G T N r)
      → sync_step G T N r l d stage ≡ some q
      → (fits q ≡ true) × (q.handler ≡ d.handler)
  unfolding sync_step synced_stage
  sync_step-fits l d q waits e = elim (Option-cases (first_unsynced l)) [
    | inl fine ↦ ground (arith, e, fine)
    | inr (informer_type, unsynced) ↦ ground (arith, e, unsynced)
  ]
  sync_step-fits l d q watches e = absurd (ground (arith, e))
  sync_step-fits l d q (finished err) e = absurd (ground (arith, e))

  clean_step-fits :
      (d q : Daemon G T N r) (stage : Stage G T N r)
      → clean_step G T N r d stage ≡ some q
      → (fits q ≡ true) × (q.handler ≡ d.handler)
  unfolding clean_step
  clean_step-fits d q watches e = ground (arith, e)
  clean_step-fits d q waits e = absurd (ground (arith, e))
  clean_step-fits d q (finished err) e = absurd (ground (arith, e))

  call_step-fits :
      (n : Notification) (d q : Daemon G T N r) (stage : Stage G T N r)
      → call_step G T N r n d stage ≡ some q
      → (q.stage ≡ d.stage) × (q.handler ≡ d.handler)
  unfolding call_step
  call_step-fits n d q (finished err) e = absurd (ground (arith, e))
  call_step-fits n d q waits e =
      elim (Option-cases (notify N (redirect_impl G T N r) r n d.tables)) [
        | inl panics ↦ absurd (ground (arith, panics, e))
        | inr (t, told) ↦ ground (arith, told, e)
      ]
  call_step-fits n d q watches e =
      elim (Option-cases (notify N (redirect_impl G T N r) r n d.tables)) [
        | inl panics ↦ absurd (ground (arith, panics, e))
        | inr (t, told) ↦ ground (arith, told, e)
      ]

  step-fits :
      (d q : Daemon G T N r) (a : Action)
      → daemon_step G T N r d a ≡ some q
      → fits d ≡ true
      → (fits q ≡ true) × (arrived q.handler ≡ true → (arrived d.handler || is_signal a) ≡ true)
  unfolding daemon_step notify_signal
  step-fits d q (calls n) e h =
      let (stage, handler) = call_step-fits n d q d.stage e in ground (arith, stage, handler, h)
  step-fits d q (syncs l) e h =
      let (fit, handler) = sync_step-fits l d q d.stage e in ground (arith, fit, handler)
  step-fits d q signal e h = ground (arith, e, h)
  step-fits d q take e h = elim (Option-cases (take_signal d.handler)) [
    | inl stuck ↦ absurd (ground (arith, stuck, e))
    | inr (handler, taken) ↦ ground (arith, taken, e, take-fits d handler taken)
  ]
  step-fits d q cleans e h =
      let (fit, handler) = clean_step-fits d q d.stage e in ground (arith, fit, handler)

  run-fits :
      (d q : Daemon G T N r) (schedule : List Action)
      → daemon_run G T N r d schedule ≡ some q
      → fits d ≡ true
      → (fits q ≡ true)
        × (arrived q.handler ≡ true → (arrived d.handler || signalled schedule) ≡ true)
  unfolding daemon_run
  run-fits d q [] e h = ground (arith, e, h)
  run-fits d q (a ∷ rest) e h = elim (Option-cases (daemon_step G T N r d a)) [
    | inl stuck ↦ absurd (ground (arith, stuck, e))
    | inr (d', stepped) ↦
        let (fit, came) = step-fits d d' a stepped h in
        let (last, before) = run-fits d' q rest (ground (arith, stepped, e)) fit in
        (last, λ there. ground (arith, came, before, there))
  ]

  pub returned_taken :
      (s : Tables T) (schedule : List Action) (q : Daemon G T N r) (err : Option (RunError G T N r))
      → daemon_run G T N r (new_daemon G T N r s) schedule ≡ some q
      → result G T N r q.stage ≡ some err
      → (signalled schedule ≡ true) × (q.handler.taken ≡ true)
  returned_taken s schedule q err e f =
      let (fit, came) = run-fits (new_daemon G T N r s) q schedule e refl in
      let taken : q.handler.taken ≡ true = ground (arith, fit, f) in
      (came (ground (arith, taken)), taken)
