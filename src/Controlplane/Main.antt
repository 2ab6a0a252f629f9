-- ===== src/Controlplane/Main.antt =====
-- `main` of cmd/controlplane/cmd.go, from the call of `signal.Notify` to its return, with the
-- goroutine that waits for a signal. The flags are parsed, and a library call that returns is one
-- action.
pub mod Progress
pub mod Ending
pub mod Signals
use lightpath.Prelude.{
  ℕ, String, Bool, true, false, ◌&&◌, ◌||◌, not, Option, none, some, List, [], ◌∷◌, ◌⊎◌, inl, inr,
  if◌then◌else◌,
}
use lightpath.Prelude.MapRange.{MapRange}
use lightpath.Clients.{ClientGo}
use lightpath.Commands.{Build, get_version, ControlplaneFlags}
use lightpath.Commands.Signals.{SignalHandler, notify_signal, take_signal}
use lightpath.Controlplane.{SnapshotCache}
use lightpath.Controlplane.Setup.{Network, XdsServer, SetupError, setup}
use lightpath.Controlplane.Lifecycle as lifecycle
use lightpath.Controlplane.Lifecycle.{Life, is_cancel, new_life, life_step}

module _ (C : SnapshotCache) (W : Network) (G : ClientGo) (r : MapRange) (E : Type 0) where
  -- What is logged.
  pub data Line : Type 0 where
    info : String → Line
    exited_with_error : SetupError C W G r → Line

  -- In `run` before its goroutines and after, with the return of `run`, and after the return of main.
  pub data Phase : Type 0 where
    sets_up : Phase
    runs : Life E → Phase
    returns : Option (SetupError C W G r) → Phase
    ended : List Line → Phase

  abbrev pub is_ended : Phase → Bool
  is_ended (ended _) = true
  is_ended _ = false

  pub record Process : Type 0 where
    pub handler : SignalHandler
    pub phase : Phase

  pub data Action : Type 0 where
    signal take set_up finish : Action
    act : lifecycle.Action E → Action

  -- `cancel` is called once; the context may be done by then.
  unfoldable pub cancel_phase : Phase → Phase
  cancel_phase (runs l) = runs (record l { done = true })
  cancel_phase phase = phase

  -- The return of the setup. Where a signal has been taken, the context is done at once.
  unfoldable pub set_up_phase : {A : Type 0} → Bool → SetupError C W G r ⊎ A → Phase
  set_up_phase cancelled (inl e) = returns (some e)
  set_up_phase cancelled (inr _) = runs (record (new_life E) { done = cancelled })

  -- `run` returns nil after its wait.
  unfoldable pub after_act : Option (Life E) → Option Phase
  after_act none = none
  after_act (some l) = some (if l.returned then returns none else runs l)

  -- Here the context is cancelled by `take`.
  unfoldable pub run_step : Phase → lifecycle.Action E → Option Phase
  unfolding after_act
  run_step (runs l) a = if is_cancel E a then none else after_act (life_step E l a)
  run_step _ a = none

  unfoldable pub logged : Option (SetupError C W G r) → List Line
  logged none = []
  logged (some e) = exited_with_error e ∷ []

  module _ (new_snapshot_cache : Bool → C.State) (build : Build) (flags : ControlplaneFlags)
      (kube : G.State) (network : W.State) where
    unfoldable pub in_phase : Process → Option Phase → Option Process
    in_phase p none = none
    in_phase p (some phase) = some (record p { phase = phase })

    unfoldable pub finish_phase : Phase → Option Phase
    unfolding logged
    finish_phase (returns err) = some (ended (info (get_version build) ∷ logged err))
    finish_phase _ = none

    unfoldable pub start_phase : Bool → Phase → Option Phase
    unfolding set_up_phase
    start_phase cancelled sets_up = some (
        set_up_phase cancelled
          (setup C W G r new_snapshot_cache flags.kubeconfig flags.node_id flags.host kube network))
    start_phase cancelled _ = none

    -- No goroutine is left when main has returned.
    unfoldable pub main_step : Process → Action → Option Process
    unfolding notify_signal take_signal cancel_phase run_step in_phase finish_phase start_phase
    main_step p signal =
        if is_ended p.phase then none else some (record p { handler = notify_signal p.handler })
    main_step p take = elim (take_signal p.handler) [
      | none ↦ none
      | some h ↦
          if is_ended p.phase
          then none
          else some (record { handler = h; phase = cancel_phase p.phase })
    ]
    main_step p set_up = in_phase p (start_phase p.handler.taken p.phase)
    main_step p finish = in_phase p (finish_phase p.phase)
    main_step p (act a) = in_phase p (run_step p.phase a)

    unfoldable pub main_run : Process → List Action → Option Process
    main_run p [] = some p
    main_run p (a ∷ rest) = elim (main_step p a) [ none ↦ none | some q ↦ main_run q rest ]

  abbrev pub new_process : Process
  new_process = record { handler = record { buffered = false; taken = false }; phase = sets_up }
