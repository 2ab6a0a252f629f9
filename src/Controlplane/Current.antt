-- ===== src/Controlplane/Current.antt =====
-- The server holds the configuration of the services as they stand.
use mathlib.Core.Option.{some-injective}
use lightpath.Prelude.{
  ◌≡◌, refl, sym, ap, subst, ◌∙◌, String, none, some, Option-cases, inl, inr, List, [], ◌∷◌, arith,
  false,
}
use lightpath.Prelude.MapRange.{MapRange}
use lightpath.State.Cache.{snapshot}
use lightpath.State.Subscriber.{
  Subscriber, Action, handles, dispatches, locks, marks, receives, checks, times_out, takes,
  new_subscriber, step, run,
}
use lightpath.State.Subscriber.Delivery.{in_flight, run-delivers, run-IsWellFormed}
use lightpath.State.Cache.Invariant.{IsWellFormed}
use lightpath.Translations.Envoy.{Snapshot}
use lightpath.Translations.Mapper.{service_loop, envoy_snapshot_from_kube_snapshot}
use lightpath.Controlplane.{
  SnapshotCache, IsLawful, Plane, new_plane, update_server, update_snapshot, returned, deliver,
  plane_step, plane_run, empty_snapshot,
}

abbrev pub moves : List (String × Action) → List Action
moves [] = []
moves ((_, a) ∷ schedule) = a ∷ moves schedule

module _ (C : SnapshotCache) (L : IsLawful C) (node_id : String) (r : MapRange) where
  -- The server holds the translation, made at some time, of the snapshot.
  pub record Serves (server : C.State) (snap : lightpath.State.Snapshot.Snapshot) : Type 0 where
    pub time : String
    pub held : Snapshot
    pub holds : C.get_snapshot node_id server ≡ some held
    pub translates : envoy_snapshot_from_kube_snapshot r time snap ≡ some held

  pub new_plane-Serves :
      (s : C.State) → Serves (new_plane C node_id r s).server (new_subscriber r).delivered
  unfolding new_plane update_server envoy_snapshot_from_kube_snapshot service_loop new_subscriber
  new_plane-Serves s = record {
    time = "";
    held = empty_snapshot C node_id r;
    holds = L.get-set node_id (empty_snapshot C node_id r) s;
    translates = refl;
  }

  -- A state of the control plane in line with a state of the subscriber.
  abbrev IsInLine : Plane C node_id r → Subscriber → Type 0
  IsInLine q s = (q.subscriber ≡ s) × Serves q.server s.delivered

  quiet-IsInLine :
      (p q : Plane C node_id r) (s : Subscriber)
      → some (record p { subscriber = s }) ≡ some q
      → s.delivered ≡ p.subscriber.delivered
      → Serves p.server p.subscriber.delivered
      → IsInLine q s
  quiet-IsInLine p q s e kept v =
      subst (λ o. IsInLine o s) (some-injective (record p { subscriber = s }) q e)
        (refl, subst (Serves p.server) (sym kept) v)

  updated-IsInLine :
      (p q : Plane C node_id r) (now : String) (s : Subscriber)
      → deliver C node_id r p now s (some (some s.delivered)) ≡ some q
      → IsInLine q s
  unfolding deliver update_snapshot update_server
  updated-IsInLine p q now s e =
      elim (Option-cases (envoy_snapshot_from_kube_snapshot r now s.delivered)) [
        | inl panics ↦
            let stops : deliver C node_id r p now s (some (some s.delivered)) ≡ none =
              rw (deliver, update_snapshot, panics) refl in
            cc (stops, e)
        | inr (made, fine) ↦
            let next : Plane C node_id r = record {
              subscriber = s;
              server = (update_server C node_id r made p.server).0;
            } in
            let goes : deliver C node_id r p now s (some (some s.delivered)) ≡ some next =
              rw (deliver, update_snapshot, fine) refl in
            subst (λ o. IsInLine o s) (some-injective next q (sym goes ∙ e))
              (
                refl,
                record {
                  time = now;
                  held = made;
                  holds = L.get-set node_id made p.server;
                  translates = fine;
                },
              )
      ]

  delivered-IsInLine :
      (p q : Plane C node_id r) (now : String) (s : Subscriber) (a : Action)
      → step r p.subscriber a ≡ some s
      → deliver C node_id r p now s (returned C node_id r a s) ≡ some q
      → Serves p.server p.subscriber.delivered
      → IsInLine q s
  unfolding returned deliver update_snapshot step
  delivered-IsInLine p q now s takes h e v = updated-IsInLine p q now s e
  delivered-IsInLine p q now s times_out h e v = quiet-IsInLine p q s e (ground arith) v
  delivered-IsInLine p q now s (handles event) h e v = quiet-IsInLine p q s e (ground arith) v
  delivered-IsInLine p q now s dispatches h e v = quiet-IsInLine p q s e (ground arith) v
  delivered-IsInLine p q now s locks h e v = quiet-IsInLine p q s e (ground arith) v
  delivered-IsInLine p q now s marks h e v = quiet-IsInLine p q s e (ground arith) v
  delivered-IsInLine p q now s receives h e v = quiet-IsInLine p q s e (ground arith) v
  delivered-IsInLine p q now s checks h e v = quiet-IsInLine p q s e (ground arith) v

  -- A step is a step of the subscriber, and keeps the server in line with what was delivered.
  plane_step-Serves :
      (p q : Plane C node_id r) (now : String) (a : Action)
      → plane_step C node_id r p now a ≡ some q
      → Serves p.server p.subscriber.delivered
      → (step r p.subscriber a ≡ some q.subscriber) × Serves q.server q.subscriber.delivered
  unfolding plane_step
  plane_step-Serves p q now a h v = elim (Option-cases (step r p.subscriber a)) [
    | inl stuck ↦
        let stops : plane_step C node_id r p now a ≡ none = rw (plane_step, stuck) refl in
        cc (stops, h)
    | inr (s, stepped) ↦
        let goes : plane_step C node_id r p now a
            ≡ deliver C node_id r p now s (returned C node_id r a s) =
          rw (plane_step, stepped) refl in
        let (same, serves) = delivered-IsInLine p q now s a stepped (sym goes ∙ h) v in
        (stepped ∙ ap some (sym same), subst (λ t. Serves q.server t.delivered) (sym same) serves)
  ]

  pub plane_run-Serves :
      (p q : Plane C node_id r) (schedule : List (String × Action))
      → plane_run C node_id r p schedule ≡ some q
      → Serves p.server p.subscriber.delivered
      → (run r p.subscriber (moves schedule) ≡ some q.subscriber)
        × Serves q.server q.subscriber.delivered
  unfolding plane_run run
  plane_run-Serves p q [] h v =
      subst (λ o. (some p.subscriber ≡ some o.subscriber) × Serves o.server o.subscriber.delivered)
        (some-injective p q h) (refl, v)
  plane_run-Serves p q ((now, a) ∷ schedule) h v =
      elim (Option-cases (plane_step C node_id r p now a)) [
        | inl stuck ↦
            let stops : plane_run C node_id r p ((now, a) ∷ schedule) ≡ none =
              rw (plane_run, stuck) refl in
            cc (stops, h)
        | inr (next, stepped) ↦
            let goes : plane_run C node_id r p ((now, a) ∷ schedule)
                ≡ plane_run C node_id r next schedule =
              rw (plane_run, stepped) refl in
            let (one, w) = plane_step-Serves p next now a stepped v in
            let (rest, x) = plane_run-Serves next q schedule (sym goes ∙ h) w in
            let first : run r p.subscriber (a ∷ moves schedule)
                ≡ run r next.subscriber (moves schedule) =
              rw (run, one) refl in
            (first ∙ rest, x)
      ]

  -- In every history of the control plane that no translation ends by a panic: whenever no news is on
  -- its way, the server holds for its node the translation of the snapshot of the cache as it stands.
  pub plane_run-current :
      (s : C.State) (schedule : List (String × Action)) (p : Plane C node_id r)
      → plane_run C node_id r (new_plane C node_id r s) schedule ≡ some p
      → in_flight p.subscriber ≡ false
      → Serves p.server (snapshot r p.subscriber.cluster_state)
  unfolding new_plane
  plane_run-current s schedule p h quiet =
      let (ran, v) = plane_run-Serves (new_plane C node_id r s) p schedule h (new_plane-Serves s) in
      subst (Serves p.server) (run-delivers r (moves schedule) p.subscriber ran quiet) v

  -- In every such history the cache is well formed.
  pub plane_run-IsWellFormed :
      (s : C.State) (schedule : List (String × Action)) (p : Plane C node_id r)
      → plane_run C node_id r (new_plane C node_id r s) schedule ≡ some p
      → IsWellFormed p.subscriber.cluster_state
  unfolding new_plane
  plane_run-IsWellFormed s schedule p h =
      let (ran, _) = plane_run-Serves (new_plane C node_id r s) p schedule h (new_plane-Serves s) in
      run-IsWellFormed r (moves schedule) p.subscriber ran
