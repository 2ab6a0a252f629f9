-- ===== src/Controlplane/Main/Progress.antt =====
-- How far `main` of the control plane is from its return.
use mathlib.Core.Option.{some-injective}
use lightpath.Prelude.{
  ◌≡◌, refl, subst, ◌≤◌, ◌<◌, ◌+◌, ℕ, Bool, true, false, ◌&&◌, not, none, some, ◌⊎◌, inl, inr,
  if◌then◌else◌, arith, Option-cases, Bool-cases,
}
use lightpath.Prelude.MapRange.{MapRange}
use lightpath.Clients.{ClientGo}
use lightpath.Commands.{Build, ControlplaneFlags}
use lightpath.Controlplane.{SnapshotCache}
use lightpath.Controlplane.Setup.{Network, SetupError, setup}
use lightpath.Controlplane.Lifecycle as lifecycle
use lightpath.Controlplane.Lifecycle.{Life, new_life, life_step}
use lightpath.Controlplane.Lifecycle.Ending.{left, left_at_most, life_step-left}
use lightpath.Commands.Signals.{SignalHandler, notify_signal, take_signal}
use lightpath.Controlplane.Main.{
  Phase, sets_up, runs, returns, ended, Process, Action, signal, take, set_up, finish, act,
  cancel_phase, set_up_phase, after_act, run_step, in_phase, finish_phase, start_phase, is_ended,
  main_step,
}

module _ (C : SnapshotCache) (W : Network) (G : ClientGo) (r : MapRange) (E : Type 0) where
  -- The moves that are left at most, once the signal is taken.
  unfoldable pub phase_left : Phase C W G r E → ℕ
  phase_left sets_up = 14
  phase_left (runs l) = 1 + left E l
  phase_left (returns _) = 1
  phase_left (ended _) = 0

  -- While its goroutines run, `run` has not returned, and where the signal is taken the context is
  -- done.
  abbrev pub IsCancelled : Bool → Phase C W G r E → Type 0
  IsCancelled taken (runs l) = (taken ≡ true → l.done ≡ true) × (l.returned ≡ false)
  IsCancelled taken _ = Unit

  abbrev pub IsSound : Process C W G r E → Type 0
  IsSound p = IsCancelled p.handler.taken p.phase

  after-left :
      (l m : Life E) (a : lifecycle.Action E) (q : Phase C W G r E)
      → l.done ≡ true
      → life_step E l a ≡ some m
      → some (if m.returned then returns none else runs m) ≡ some q
      → (phase_left q < phase_left (runs l)) × IsCancelled true q
  unfolding phase_left
  after-left l m a q over stepped e =
      let (less, over') = life_step-left E l m a over stepped in
      elim (Bool-cases m.returned) [
        | inl back ↦
            let same : returns none ≡ q = ground (arith, back, e) in
            subst (λ x. (phase_left x < phase_left (runs l)) × IsCancelled true x) same
              (ground arith, tt)
        | inr on ↦
            let same : runs m ≡ q = ground (arith, on, e) in
            subst (λ x. (phase_left x < phase_left (runs l)) × IsCancelled true x) same
              (ground (arith, less), ((λ _. over'), on))
      ]

  run_step-left :
      (l : Life E) (a : lifecycle.Action E) (q : Phase C W G r E)
      → l.done ≡ true
      → run_step C W G r E (runs l) a ≡ some q
      → (phase_left q < phase_left (runs l)) × IsCancelled true q
  unfolding run_step after_act
  run_step-left l a q over e = elim (Option-cases (life_step E l a)) [
    | inl stuck ↦ ground (arith, stuck, e)
    | inr (m, stepped) ↦ after-left l m a q over stepped (ground (arith, stepped, e))
  ]

  run_step-IsCancelled :
      (taken : Bool) (l : Life E) (a : lifecycle.Action E) (q : Phase C W G r E)
      → IsCancelled taken (runs l)
      → run_step C W G r E (runs l) a ≡ some q
      → IsCancelled taken q
  unfolding run_step after_act
  run_step-IsCancelled true l a q (over, on) e = (run_step-left l a q (over refl) e).1
  run_step-IsCancelled false l a q h e = elim (Option-cases (life_step E l a)) [
    | inl stuck ↦ ground (arith, stuck, e)
    | inr (m, stepped) ↦ elim (Bool-cases m.returned) [
      | inl back ↦
          let same : returns none ≡ q = ground (arith, stepped, back, e) in
          subst (IsCancelled false) same tt
      | inr on ↦
          let same : runs m ≡ q = ground (arith, stepped, on, e) in
          subst (IsCancelled false) same ((λ f. ground (arith, f)), on)
    ]
  ]

  -- What an action other than a signal takes.
  abbrev pub weight : Action C W G r E → ℕ
  weight signal = 0
  weight _ = 1

  -- From one state to another: a taken signal stays taken, and the moves get fewer.
  abbrev pub IsNearer : Bool → Phase C W G r E → ℕ → Process C W G r E → Type 0
  IsNearer taken phase spent q =
      IsSound q
      × (taken ≡ true → (q.handler.taken ≡ true) × (spent + phase_left q.phase ≤ phase_left phase))

  set_up_phase-left :
      {A : Type 0} (taken : Bool) (made : SetupError C W G r ⊎ A)
      → (1 + phase_left (set_up_phase C W G r E taken made) ≤ 14)
        × IsCancelled taken (set_up_phase C W G r E taken made)
  unfolding set_up_phase phase_left
  set_up_phase-left taken (inl e) = (ground arith, tt)
  set_up_phase-left taken (inr a) =
      (ground (arith, left_at_most E (record (new_life E) { done = taken })), ((λ h. h), refl))

  module _ (new_snapshot_cache : Bool → C.State) (build : Build) (flags : ControlplaneFlags)
      (kube : G.State) (network : W.State) where
    take_step-IsNearer :
        (h : SignalHandler) (phase : Phase C W G r E) (q : Process C W G r E)
        → IsCancelled h.taken phase
        → (h.buffered && not h.taken) ≡ true
        → (if is_ended C W G r E phase
            then none
            else some (record {
              handler = record { buffered = false; taken = true };
              phase = cancel_phase C W G r E phase;
            }))
          ≡ some q
        → IsNearer h.taken phase 1 q
    unfolding cancel_phase
    take_step-IsNearer h sets_up q v takes e =
        subst (IsNearer h.taken sets_up 1) (some-injective _ q e)
          (tt, λ t. ground (arith, t, takes))
    take_step-IsNearer h (runs l) q v takes e =
        subst (IsNearer h.taken (runs l) 1) (some-injective _ q e)
          (((λ _. refl), v.1), λ t. ground (arith, t, takes))
    take_step-IsNearer h (returns err) q v takes e =
        subst (IsNearer h.taken (returns err) 1) (some-injective _ q e)
          (tt, λ t. ground (arith, t, takes))
    take_step-IsNearer h (ended lines) q v takes e = ground (arith, e)

    pub main_step-IsNearer :
        (h : SignalHandler) (phase : Phase C W G r E) (a : Action C W G r E) (q : Process C W G r E)
        → IsCancelled h.taken phase
        → main_step C W G r E new_snapshot_cache build flags kube network
            (record { handler = h; phase = phase })
            a
          ≡ some q
        → IsNearer h.taken phase (weight a) q
    unfolding main_step notify_signal take_signal cancel_phase in_phase finish_phase start_phase
        phase_left run_step
    main_step-IsNearer h (ended lines) signal q v e = ground (arith, e)
    main_step-IsNearer h sets_up signal q v e =
        subst (IsNearer h.taken sets_up 0) (some-injective _ q e) (tt, λ t. (t, ground arith))
    main_step-IsNearer h (runs l) signal q v e =
        subst (IsNearer h.taken (runs l) 0) (some-injective _ q e) (v, λ t. (t, ground arith))
    main_step-IsNearer h (returns err) signal q v e =
        subst (IsNearer h.taken (returns err) 0) (some-injective _ q e) (tt, λ t. (t, ground arith))
    main_step-IsNearer h phase take q v e = elim (Bool-cases (h.buffered && not h.taken)) [
      | inl takes ↦ take_step-IsNearer h phase q v takes (ground (arith, e, takes))
      | inr stuck ↦ ground (arith, e, stuck)
    ]
    main_step-IsNearer h sets_up set_up q v e =
        let (less, cancelled) = set_up_phase-left h.taken (
          setup C W G r new_snapshot_cache flags.kubeconfig flags.node_id flags.host kube
            network) in
        subst (IsNearer h.taken sets_up 1) (some-injective _ q e) (cancelled, λ t. (t, less))
    main_step-IsNearer h (runs l) set_up q v e = ground (arith, e)
    main_step-IsNearer h (returns err) set_up q v e = ground (arith, e)
    main_step-IsNearer h (ended lines) set_up q v e = ground (arith, e)
    main_step-IsNearer h (returns err) finish q v e =
        subst (IsNearer h.taken (returns err) 1) (some-injective _ q e) (tt, λ t. (t, ground arith))
    main_step-IsNearer h sets_up finish q v e = ground (arith, e)
    main_step-IsNearer h (runs l) finish q v e = ground (arith, e)
    main_step-IsNearer h (ended lines) finish q v e = ground (arith, e)
    main_step-IsNearer h sets_up (act a) q v e = ground (arith, e)
    main_step-IsNearer h (returns err) (act a) q v e = ground (arith, e)
    main_step-IsNearer h (ended lines) (act a) q v e = ground (arith, e)
    main_step-IsNearer h (runs l) (act a) q v e =
        elim (Option-cases (run_step C W G r E (runs l) a)) [
          | inl stuck ↦ ground (arith, e, stuck)
          | inr (next, stepped) ↦
              let same : some (record { handler = h; phase = next }) ≡ some q =
                ground (arith, e, stepped) in
              subst (IsNearer h.taken (runs l) 1) (some-injective _ q same) (
                run_step-IsCancelled h.taken l a next v stepped,
                λ t. (t, ground (arith, (run_step-left l a next (v.0 t) stepped).0)),
              )
        ]
