-- ===== src/Controlplane/Lifecycle/Order.antt =====
-- What has happened before `run` returns.
use lightpath.Prelude.{
  ◌≡◌, subst, Bool, true, false, some, is_some, List, [], ◌∷◌, arith, inl, inr, Option-cases,
}
use lightpath.Controlplane.Lifecycle.{
  stopped, exits, leaves, Serve, sent, Life, Action, all_done, may_return, informers_step,
  server_step, loop_step, life_step, life_run, new_life,
}

module _ (E : Type 0) where
  -- What Start has received from the goroutine that serves is an error.
  abbrev pub failed : Serve E → Bool
  failed (sent result) = is_some result
  failed _ = false

  -- The informers and the loop end only after the context is done, an error that `Start` receives
  -- makes it done, and `run` returns only after its three goroutines.
  abbrev IsOrdered : Life E → Type 0
  IsOrdered l =
      (l.informers ≡ stopped → l.done ≡ true)
      × (l.loop ≡ leaves → l.done ≡ true)
      × (failed l.serve ≡ true → l.done ≡ true)
      × (l.returned ≡ true → all_done E l.informers l.server l.loop ≡ true)

  life_step-IsOrdered :
      (l m : Life E) (a : Action E) → IsOrdered l → life_step E l a ≡ some m → IsOrdered m
  unfolding life_step informers_step server_step loop_step all_done may_return
  life_step-IsOrdered l m a (i, p, f, r) e = ground (arith, i, p, f, r, e)

  life_run-IsOrdered :
      (schedule : List (Action E)) (l m : Life E)
      → IsOrdered l
      → life_run E l schedule ≡ some m
      → IsOrdered m
  unfolding life_run
  life_run-IsOrdered [] l m o e = subst IsOrdered (ground (arith, e)) o
  life_run-IsOrdered (a ∷ schedule) l m o e = elim (Option-cases (life_step E l a)) [
    | inl stuck ↦ ground (arith, e, stuck)
    | inr (k, stepped) ↦
        life_run-IsOrdered schedule k m (life_step-IsOrdered l k a o stepped)
          (ground (arith, e, stepped))
  ]

  started-IsOrdered :
      (schedule : List (Action E)) (l : Life E)
      → life_run E (new_life E) schedule ≡ some l
      → IsOrdered l
  unfolding all_done
  started-IsOrdered schedule l e =
      life_run-IsOrdered schedule (new_life E) l
        (
          (λ h. ground (arith, h)),
          (λ h. ground (arith, h)),
          (λ h. ground (arith, h)),
          λ h. ground (arith, h),
        )
        e

  -- In every schedule from the start of the goroutines, `run` has returned only where the context is
  -- done and the informers, the server and the loop have ended.
  pub returned-done :
      (schedule : List (Action E)) (l : Life E)
      → life_run E (new_life E) schedule ≡ some l
      → l.returned ≡ true
      → (l.done ≡ true) × (l.informers ≡ stopped) × (l.server ≡ exits) × (l.loop ≡ leaves)
  unfolding all_done
  returned-done schedule l e back =
      let (i, p, f, r) = started-IsOrdered schedule l e in ground (arith, r back, i, back)

  -- In every such schedule, an error of `Serve` that `Start` has received has made the context done.
  pub failed-done :
      (schedule : List (Action E)) (l : Life E)
      → life_run E (new_life E) schedule ≡ some l
      → failed l.serve ≡ true
      → l.done ≡ true
  failed-done schedule l e = (started-IsOrdered schedule l e).2
