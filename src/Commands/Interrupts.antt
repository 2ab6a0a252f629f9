-- ===== src/Commands/Interrupts.antt =====
-- `main` of cmd/redirect/cmd.go from `signal.Notify` on, where `run` (cmd/redirect/redirect.go) waits
-- for its informer: the callbacks, the return of `WaitForCacheSync` and the signals one by one. A
-- callback that panics is no step.
pub mod Taken
pub mod Refines
use mathlib.Core.Option as option
use mathlib.Core.Option.{some-injective}
use lightpath.Prelude.{
  ◌≡◌, refl, sym, ap, ◌∙◌, String, ◌<>◌, Bool, true, false, ◌&&◌, not, Option, none, some, is_some,
  List, [], ◌∷◌, if◌then◌else◌, arith, Option-cases, Bool-cases, inl, inr,
}
use lightpath.Prelude.MapRange.{MapRange}
use lightpath.Clients.{ClientGo}
use lightpath.Commands.Signals.{SignalHandler, notify_signal, take_signal}
use lightpath.Redirect.{Net}
use lightpath.Redirect.Iptables.{Iptables, Tables, prereqs}
use lightpath.Redirect.Informer.{Notification, notify, notify_all}
use lightpath.Redirect.Daemon.{
  Course, first_unsynced, RunError, errorf, redirect_impl, after, stop, watch,
}

pub data Action : Type 0 where
  calls : Notification → Action
  syncs : List (String × Bool) → Action
  signal take cleans : Action

module _ (G : ClientGo) (T : Iptables) (N : Net) (r : MapRange) where
  -- `run` before `WaitForCacheSync` returns, while it waits for the context, and after its return.
  pub data Stage : Type 0 where
    waits watches : Stage
    finished : Option (RunError G T N r) → Stage

  -- What `run` has returned, if it has.
  abbrev pub result : Stage → Option (Option (RunError G T N r))
  result (finished err) = some err
  result _ = none

  pub record Daemon : Type 0 where
    pub handler : SignalHandler
    pub stage : Stage
    pub tables : Tables T

  -- A type is not synced only where the context is done.
  unfoldable pub synced_stage : Bool → Option String → Option Stage
  synced_stage cancelled none = some watches
  synced_stage cancelled (some informer_type) =
      if cancelled
      then some (finished (some (errorf ("failed to sync cache for " <> informer_type))))
      else none

  unfoldable pub sync_step : List (String × Bool) → Daemon → Stage → Option Daemon
  unfolding synced_stage
  sync_step synced d waits =
      option.map (λ stage. record d { stage = stage })
        (synced_stage d.handler.taken (first_unsynced synced))
  sync_step synced d _ = none

  unfoldable pub clean_step : Daemon → Stage → Option Daemon
  clean_step d watches =
      let (t, err) = stop G T N r d.tables in
      if d.handler.taken then some (record d { stage = finished err; tables = t }) else none
  clean_step d _ = none

  unfoldable pub call_step : Notification → Daemon → Stage → Option Daemon
  call_step n d (finished err) = none
  call_step n d _ =
      option.map (λ t. record d { tables = t }) (notify N (redirect_impl G T N r) r n d.tables)

  unfoldable pub daemon_step : Daemon → Action → Option Daemon
  unfolding sync_step clean_step call_step
  daemon_step d (calls n) = call_step n d d.stage
  daemon_step d (syncs synced) = sync_step synced d d.stage
  daemon_step d signal = some (record d { handler = notify_signal d.handler })
  daemon_step d take = option.map (λ h. record d { handler = h }) (take_signal d.handler)
  daemon_step d cleans = clean_step d d.stage

  unfoldable pub daemon_run : Daemon → List Action → Option Daemon
  daemon_run d [] = some d
  daemon_run d (a ∷ rest) = elim (daemon_step d a) [ none ↦ none | some e ↦ daemon_run e rest ]

  -- After `Prereqs`.
  abbrev pub new_daemon : Tables T → Daemon
  new_daemon s = record {
    handler = record { buffered = false; taken = false };
    stage = waits;
    tables = (prereqs T s).0;
  }
