-- ===== src/Controlplane/Main/Signals.antt =====
-- A signal that arrives is taken, and then `main` of the control plane can end.

use lightpath.Prelude.{
  zero, suc, Option, ◌≡◌, refl, ◌≤◌, ◌<◌, ℕ, Bool, true, false, ◌||◌, some, List, [], ◌∷◌, inl, inr,
  arith, Option-cases, Bool-cases,
}
use lightpath.Prelude.MapRange.{MapRange}
use lightpath.Clients.{ClientGo}
use lightpath.Commands.{Build, ControlplaneFlags}
use lightpath.Controlplane.{SnapshotCache}
use lightpath.Controlplane.Setup.{Network}
use lightpath.Prelude.Lists.{length}
use lightpath.Commands.Signals.{SignalHandler, notify_signal, take_signal}
use lightpath.Controlplane.Main.{
  Phase, Process, Action, signal, take, set_up, finish, act, cancel_phase, in_phase, is_ended,
  main_step, main_run, new_process,
}
use lightpath.Controlplane.Main.Progress.{phase_left, IsSound, main_step-IsNearer}
use lightpath.Controlplane.Main.Ending.{
  signalled, is_signal, next_move, next_move-weight, next_is_some, phase_left_at_most,
  start-IsSound,
}

module _ (C : SnapshotCache) (W : Network) (G : ClientGo) (r : MapRange) (E : Type 0) where
  module _ (new_snapshot_cache : Bool → C.State) (build : Build) (flags : ControlplaneFlags)
      (kube : G.State) (network : W.State) where
    abbrev go : Process C W G r E → Action C W G r E → Option (Process C W G r E)
    go = main_step C W G r E new_snapshot_cache build flags kube network

    abbrev go_all : Process C W G r E → List (Action C W G r E) → Option (Process C W G r E)
    go_all = main_run C W G r E new_snapshot_cache build flags kube network

    -- The ways to the end, once the signal is taken.
    pub record Ends (p : Process C W G r E) (n : ℕ) : Type 0 where
      pub rest : List (Action C W G r E)
      pub last : Process C W G r E
      pub few : length rest ≤ n
      pub unsignalled : signalled C W G r E rest ≡ false
      pub leads : go_all p rest ≡ some last
      pub over : is_ended C W G r E last.phase ≡ true

    ended-Ends : (n : ℕ) (p : Process C W G r E) → is_ended C W G r E p.phase ≡ true → Ends p n
    unfolding main_run
    ended-Ends n p over = record {
      rest = [];
      last = p;
      few = omega arith;
      unsignalled = refl;
      leads = refl;
      over = over;
    }

    go-Ends :
        (n : ℕ) (p m : Process C W G r E) (a : Action C W G r E)
        → is_signal C W G r E a ≡ false
        → go p a ≡ some m
        → Ends m n
        → Ends p (suc n)
    unfolding main_run
    go-Ends n p m a other stepped on = record {
      rest = a ∷ on.rest;
      last = on.last;
      few = ground (arith, on.few);
      unsignalled = ground (arith, on.unsignalled, other);
      leads = ground (arith, stepped, on.leads);
      over = on.over;
    }

    next_step :
        (p : Process C W G r E)
        → IsSound C W G r E p
        → p.handler.taken ≡ true
        → is_ended C W G r E p.phase ≡ false
        → (m : Process C W G r E) × (go p (next_move C W G r E p.phase) ≡ some m)
          × (IsSound C W G r E m
              × (m.handler.taken ≡ true)
              × (phase_left C W G r E m.phase < phase_left C W G r E p.phase))
    next_step p v t on = elim (Option-cases (go p (next_move C W G r E p.phase))) [
      | inl stuck ↦ absurd (
          ground (
            arith,
            stuck,
            next_is_some C W G r E new_snapshot_cache build flags kube network p.handler p.phase v t
                on,
          ))
      | inr (m, stepped) ↦
          let (v', near) =
            main_step-IsNearer C W G r E new_snapshot_cache build flags kube network p.handler
              p.phase (next_move C W G r E p.phase) m v stepped in
          let (t', less) = near t in
          (m, stepped, (v', t', ground (arith, less, next_move-weight C W G r E p.phase)))
    ]

    goes_to_end :
        (n : ℕ) (p : Process C W G r E)
        → IsSound C W G r E p
        → p.handler.taken ≡ true
        → phase_left C W G r E p.phase ≤ n
        → Ends p n
    goes_to_end zero p v t h = elim (Bool-cases (is_ended C W G r E p.phase)) [
      | inl over ↦ ended-Ends zero p over
      | inr on ↦
          let (m, stepped, (v', t', less)) = next_step p v t on in absurd (ground (arith, less, h))
    ]
    goes_to_end (suc n) p v t h = elim (Bool-cases (is_ended C W G r E p.phase)) [
      | inl over ↦ ended-Ends (suc n) p over
      | inr on ↦
          let (m, stepped, (v', t', less)) = next_step p v t on in
          go-Ends n p m (next_move C W G r E p.phase) (next_move-weight C W G r E p.phase).1 stepped
            (goes_to_end n m v' t' (ground (arith, less, h)))
    ]

    go-heeded :
        (p q : Process C W G r E) (a : Action C W G r E)
        → go p a ≡ some q
        → (is_signal C W G r E a || (p.handler.buffered || p.handler.taken)) ≡ true
        → (q.handler.buffered || q.handler.taken) ≡ true
    unfolding main_step take_signal notify_signal in_phase
    go-heeded p q signal e h = ground (arith, e, h)
    go-heeded p q take e h = ground (arith, e, h)
    go-heeded p q set_up e h = ground (arith, e, h)
    go-heeded p q finish e h = ground (arith, e, h)
    go-heeded p q (act a) e h = ground (arith, e, h)

    go_all-heeded :
        (schedule : List (Action C W G r E)) (p q : Process C W G r E)
        → go_all p schedule ≡ some q
        → (signalled C W G r E schedule || (p.handler.buffered || p.handler.taken)) ≡ true
        → (q.handler.buffered || q.handler.taken) ≡ true
    unfolding main_run
    go_all-heeded [] p q e h = ground (arith, e, h)
    go_all-heeded (a ∷ schedule) p q e h = elim (Option-cases (go p a)) [
      | inl stuck ↦ ground (arith, stuck, e)
      | inr (m, stepped) ↦
          let kept = go-heeded p m a stepped in
          go_all-heeded schedule m q (ground (arith, stepped, e)) (ground (arith, h, kept))
    ]

    can_take :
        (h : SignalHandler) (phase : Phase C W G r E)
        → h.buffered ≡ true
        → h.taken ≡ false
        → is_ended C W G r E phase ≡ false
        → (m : Process C W G r E) × (go (record { handler = h; phase = phase }) take ≡ some m)
          × (m.handler.taken ≡ true)
    unfolding main_step take_signal
    can_take h phase b t on = (
      record {
        handler = record { buffered = false; taken = true };
        phase = cancel_phase C W G r E phase;
      },
      ground (arith, b, t, on),
      refl,
    )

    -- In every history of main in which a signal has arrived, the goroutines can bring it to its end,
    -- in at most fifteen actions and without a further signal.
    pub main_run-can_end :
        (schedule : List (Action C W G r E)) (p : Process C W G r E)
        → go_all (new_process C W G r E) schedule ≡ some p
        → signalled C W G r E schedule ≡ true
        → Ends p 15
    main_run-can_end schedule p reached s =
        let v =
          start-IsSound C W G r E new_snapshot_cache build flags kube network schedule p reached in
        let heeded = go_all-heeded schedule (new_process C W G r E) p reached (ground (arith, s)) in
        elim (Bool-cases (is_ended C W G r E p.phase)) [
          | inl over ↦ ended-Ends 15 p over
          | inr on ↦ elim (Bool-cases p.handler.taken) [
            | inl t ↦ goes_to_end 15 p v t (ground (arith, phase_left_at_most C W G r E p.phase))
            | inr t ↦
                let (m, stepped, t') =
                  can_take p.handler p.phase (ground (arith, heeded, t)) t on in
                let (v', _) =
                  main_step-IsNearer C W G r E new_snapshot_cache build flags kube network p.handler
                    p.phase take m v stepped in
                go-Ends 14 p m take refl stepped
                  (goes_to_end 14 m v' t' (phase_left_at_most C W G r E m.phase))
          ]
        ]
