-- ===== src/Controlplane/Main/Ending.antt =====
-- After a signal, `main` of the control plane returns.
use mathlib.Core.Option.{some-injective}
use lightpath.Prelude.{
  Option, ◌≡◌, refl, subst, ◌≤◌, ◌+◌, ℕ, Bool, true, false, ◌||◌, some, is_some, List, [], ◌∷◌, ◌⊎◌,
  inl, inr, arith, Option-cases, Bool-cases,
}
use lightpath.Prelude.MapRange.{MapRange}
use lightpath.Clients.{ClientGo}
use lightpath.Commands.{Build, ControlplaneFlags}
use lightpath.Controlplane.{SnapshotCache}
use lightpath.Controlplane.Setup.{Network}
use lightpath.Controlplane.Lifecycle.Ending.{
  left_at_most, next_action, next_action-is_some, next_action-is_cancel,
}
use lightpath.Commands.Signals.{SignalHandler}
use lightpath.Controlplane.Main.{
  Phase, sets_up, runs, returns, ended, Process, Action, signal, set_up, finish, act, after_act,
  run_step, in_phase, finish_phase, start_phase, is_ended, main_step, main_run, new_process,
}
use lightpath.Controlplane.Main.Progress.{phase_left, IsSound, IsNearer, weight, main_step-IsNearer}

module _ (C : SnapshotCache) (W : Network) (G : ClientGo) (r : MapRange) (E : Type 0) where
  abbrev pub is_signal : Action C W G r E → Bool
  is_signal signal = true
  is_signal _ = false

  -- Some action is a signal.
  abbrev pub signalled : List (Action C W G r E) → Bool
  signalled [] = false
  signalled (a ∷ rest) = is_signal a || signalled rest

  -- The actions other than signals.
  abbrev pub moves : List (Action C W G r E) → ℕ
  moves [] = 0
  moves (a ∷ rest) = weight C W G r E a + moves rest

  -- An action that brings main nearer to its return.
  pub next_move : Phase C W G r E → Action C W G r E
  next_move sets_up = set_up
  next_move (runs l) = act (next_action E l)
  next_move (returns _) = finish
  next_move (ended _) = finish

  pub next_move-weight :
      (phase : Phase C W G r E)
      → (weight C W G r E (next_move phase) ≡ 1) × (is_signal (next_move phase) ≡ false)
  unfolding next_move
  next_move-weight sets_up = (refl, refl)
  next_move-weight (runs l) = (refl, refl)
  next_move-weight (returns _) = (refl, refl)
  next_move-weight (ended _) = (refl, refl)

  pub phase_left_at_most : (phase : Phase C W G r E) → phase_left C W G r E phase ≤ 14
  unfolding phase_left
  phase_left_at_most sets_up = ground arith
  phase_left_at_most (runs l) = ground (arith, left_at_most E l)
  phase_left_at_most (returns _) = ground arith
  phase_left_at_most (ended _) = ground arith

  module _ (new_snapshot_cache : Bool → C.State) (build : Build) (flags : ControlplaneFlags)
      (kube : G.State) (network : W.State) where
    abbrev go : Process C W G r E → Action C W G r E → Option (Process C W G r E)
    go = main_step C W G r E new_snapshot_cache build flags kube network

    abbrev go_all : Process C W G r E → List (Action C W G r E) → Option (Process C W G r E)
    go_all = main_run C W G r E new_snapshot_cache build flags kube network

    main_run-IsSound :
        (schedule : List (Action C W G r E)) (p q : Process C W G r E)
        → IsSound C W G r E p
        → go_all p schedule ≡ some q
        → IsNearer C W G r E p.handler.taken p.phase (moves schedule) q
    unfolding main_run
    main_run-IsSound [] p q v e =
        subst (IsNearer C W G r E p.handler.taken p.phase 0) (some-injective p q e)
          (v, λ t. (t, ground arith))
    main_run-IsSound (a ∷ schedule) p q v e = elim (Option-cases (go p a)) [
      | inl stuck ↦ ground (arith, stuck, e)
      | inr (m, stepped) ↦
          let (v', one) =
            main_step-IsNearer C W G r E new_snapshot_cache build flags kube network p.handler
              p.phase a m v stepped in
          let (v'', rest) = main_run-IsSound schedule m q v' (ground (arith, stepped, e)) in
          (v'', λ t. ground (arith, one t, rest (one t).0))
    ]

    pub next_is_some :
        (h : SignalHandler) (phase : Phase C W G r E)
        → IsSound C W G r E (record { handler = h; phase = phase })
        → h.taken ≡ true
        → is_ended C W G r E phase ≡ false
        → is_some (go (record { handler = h; phase = phase }) (next_move phase)) ≡ true
    unfolding next_move main_step in_phase start_phase finish_phase run_step after_act
    next_is_some h sets_up v t on = refl
    next_is_some h (runs l) v t on =
        ground (arith, next_action-is_some E l (v.0 t) v.1, next_action-is_cancel E l)
    next_is_some h (returns err) v t on = refl
    next_is_some h (ended lines) v t on = ground (arith, on)

    pub start-IsSound :
        (schedule : List (Action C W G r E)) (p : Process C W G r E)
        → go_all (new_process C W G r E) schedule ≡ some p
        → IsSound C W G r E p
    start-IsSound schedule p e = (main_run-IsSound schedule (new_process C W G r E) p tt e).0

    -- In every history of main, once the signal is taken: at most fourteen further actions other
    -- than signals are left in any order, and main has ended, or an action other than a signal can
    -- be taken.
    pub main_run-ends :
        (before after : List (Action C W G r E)) (p q : Process C W G r E)
        → go_all (new_process C W G r E) before ≡ some p
        → p.handler.taken ≡ true
        → go_all p after ≡ some q
        → (moves after ≤ 14)
          × ((is_ended C W G r E q.phase ≡ true)
              ⊎ ((a : Action C W G r E) × (is_signal a ≡ false) × (is_some (go q a) ≡ true)))
    main_run-ends before after p q reached t e =
        let (v, near) = main_run-IsSound after p q (start-IsSound before p reached) e in
        let (t', few) = near t in
        (
          ground (arith, few, phase_left_at_most p.phase),
          elim (Bool-cases (is_ended C W G r E q.phase)) [
            | inl over ↦ inl over
            | inr on ↦ inr (
              next_move q.phase,
              (next_move-weight q.phase).1,
              next_is_some q.handler q.phase v t' on,
            )
          ],
        )
