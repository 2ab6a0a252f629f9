-- ===== src/Controlplane/Lifecycle/Ending.antt =====
-- Once the context is done, `run` returns.
use lightpath.Prelude.{
  ◌≡◌, ◌≤◌, ◌<◌, ◌+◌, ℕ, true, false, some, is_some, List, [], ◌∷◌, if◌then◌else◌, arith, ◌⊎◌, inl,
  inr, Option-cases, Bool-cases,
}
use lightpath.Prelude.Lists.{length}
use lightpath.Controlplane.Lifecycle.{
  Informers, created, started, stopped, Server, begins, selects, stops, exits, Loop, checks,
  updates, leaves, Serve, sends, sent, Life, Action, start_informers, stop_informers, start_server,
  stop_server, stopped_server, check, updated, wait, is_cancel, all_done, may_return,
  informers_step, server_step, loop_step, life_step, life_run,
}

informers_left : Informers → ℕ
informers_left created = 2
informers_left started = 1
informers_left stopped = 0

server_left : Server → ℕ
server_left begins = 5
server_left selects = 2
server_left stops = 1
server_left exits = 0

loop_left : Loop → ℕ
loop_left updates = 2
loop_left checks = 1
loop_left leaves = 0

module _ (E : Type 0) where
  serve_left : Serve E → ℕ
  serve_left (sends _) = 1
  serve_left (sent _) = 0
  serve_left _ = 2

  -- The actions that are left at most.
  pub left : Life E → ℕ
  left l =
      informers_left l.informers
      + server_left l.server
      + serve_left l.serve
      + loop_left l.loop
      + (if l.returned then 0 else 1)

  pub life_step-left :
      (l m : Life E) (a : Action E)
      → l.done ≡ true
      → life_step E l a ≡ some m
      → (left m < left l) × (m.done ≡ true)
  unfolding life_step informers_step server_step loop_step left informers_left server_left loop_left
      serve_left all_done may_return
  life_step-left l m a over e = ground (arith, over, e)

  pub left_at_most : (l : Life E) → left l ≤ 12
  unfolding left informers_left server_left loop_left serve_left
  left_at_most l = ground arith

  life_run-left :
      (schedule : List (Action E)) (l m : Life E)
      → l.done ≡ true
      → life_run E l schedule ≡ some m
      → (length schedule + left m ≤ left l) × (m.done ≡ true)
  unfolding life_run
  life_run-left [] l m over e = ground (arith, over, e)
  life_run-left (a ∷ schedule) l m over e = elim (Option-cases (life_step E l a)) [
    | inl stuck ↦ ground (arith, e, stuck)
    | inr (k, stepped) ↦
        let (less, over') = life_step-left l k a over stepped in
        let (rest, over'') = life_run-left schedule k m over' (ground (arith, e, stepped)) in
        (ground (arith, less, rest), over'')
  ]

  -- An action that brings `run` nearer to its return.
  pub next_action : Life E → Action E
  next_action l = elim l.informers [
    | created ↦ start_informers
    | started ↦ stop_informers
    | stopped ↦ elim l.server [
      | begins ↦ start_server
      | selects ↦ stop_server
      | stops ↦ stopped_server
      | exits ↦ elim l.loop [ checks ↦ check | updates ↦ updated | leaves ↦ wait ]
    ]
  ]

  pub next_action-is_some :
      (l : Life E)
      → l.done ≡ true
      → l.returned ≡ false
      → is_some (life_step E l (next_action l)) ≡ true
  unfolding next_action life_step informers_step server_step loop_step all_done
  next_action-is_some l over on = ground (arith, over, on)

  pub next_action-is_cancel : (l : Life E) → is_cancel E (next_action l) ≡ false
  unfolding next_action
  next_action-is_cancel l = ground arith

  -- Once the context is done, at most twelve actions are left in any order of the goroutines, and
  -- the goroutines are never stuck before `run` has returned: some action can always be taken.
  pub life_run-ends :
      (schedule : List (Action E)) (l m : Life E)
      → l.done ≡ true
      → life_run E l schedule ≡ some m
      → (length schedule ≤ 12)
        × ((m.returned ≡ true) ⊎ ((a : Action E) × (is_some (life_step E m a) ≡ true)))
  life_run-ends schedule l m over e =
      let (few, over') = life_run-left schedule l m over e in
      (
        ground (arith, few, left_at_most l),
        elim (Bool-cases m.returned) [
          | inl back ↦ inl back
          | inr on ↦ inr (next_action m, next_action-is_some m over' on)
        ],
      )
