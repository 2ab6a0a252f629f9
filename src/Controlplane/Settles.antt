-- ===== src/Controlplane/Settles.antt =====
-- From every state of the control plane the server can come to hold the configuration of the services.
use mathlib.Core.Option.{some-injective}
use lightpath.Prelude.{
  Option, ◌≡◌, refl, sym, ap, subst, ◌∙◌, String, true, some, Option-cases, inl, inr, List, [], ◌∷◌,
  arith,
}
use lightpath.Prelude.Lists.{All}
use lightpath.Prelude.MapRange.{MapRange}
use lightpath.State.Cache.{snapshot}
use lightpath.State.Subscriber.{Subscriber, Action, handles, times_out, takes, step, run}
use lightpath.State.Subscriber.Progress.{IsInternal, run-settles}
use lightpath.Translations.Mapper.{envoy_snapshot_from_kube_snapshot}
use lightpath.Translations.Mapper.Totality.{all_extractable, envoy_snapshot-is_some}
use lightpath.Controlplane.{
  SnapshotCache, IsLawful, Plane, new_plane, update_server, update_snapshot, returned, deliver,
  plane_step, plane_run,
}
use lightpath.Controlplane.Current.{Serves, moves, plane_run-Serves, new_plane-Serves}

-- An action of the subscriber itself keeps the cache.
step-cluster_state :
    (r : MapRange) (s t : Subscriber) (a : Action)
    → IsInternal a
    → step r s a ≡ some t
    → t.cluster_state ≡ s.cluster_state
unfolding step
step-cluster_state r s t (handles e) h k = ground (arith, h)
step-cluster_state r s t a h k = ground (arith, k)

takes-delivered :
    (r : MapRange) (s t : Subscriber)
    → step r s takes ≡ some t
    → t.delivered ≡ snapshot r s.cluster_state
unfolding step
takes-delivered r s t k = ground (arith, k)

-- All at one time.
abbrev timed : String → List Action → List (String × Action)
timed now [] = []
timed now (a ∷ rest) = (now, a) ∷ timed now rest

moves-timed : (now : String) (rest : List Action) → moves (timed now rest) ≡ rest
moves-timed now [] = refl
moves-timed now (a ∷ rest) = ap (◌∷◌ a) (moves-timed now rest)

module _ (C : SnapshotCache) (node_id : String) (r : MapRange) where
  -- The loop goes on, with the subscriber.
  abbrev GoesOn : Option (Plane C node_id r) → Subscriber → Type 0
  GoesOn o t = (q : Plane C node_id r) × (o ≡ some q) × (q.subscriber ≡ t)

  deliver-GoesOn :
      (p : Plane C node_id r) (now : String) (t : Subscriber) (a : Action)
      → step r p.subscriber a ≡ some t
      → all_extractable (snapshot r p.subscriber.cluster_state).services ≡ true
      → GoesOn (deliver C node_id r p now t (returned C node_id r a t)) t
  unfolding returned deliver update_snapshot
  deliver-GoesOn p now t takes k fine =
      let made = envoy_snapshot-is_some r now t.delivered in
      let shown = takes-delivered r p.subscriber t k in
      elim (Option-cases (envoy_snapshot_from_kube_snapshot r now t.delivered)) [
        | inl panics ↦
            absurd (ground (arith, panics, made, fine, ap (λ d. all_extractable d.services) shown))
        | inr (snap, ok) ↦ (
          record { subscriber = t; server = (update_server C node_id r snap p.server).0 },
          rw (deliver, update_snapshot, ok) refl,
          refl,
        )
      ]
  deliver-GoesOn p now t times_out k fine = (record p { subscriber = t }, refl, refl)
  deliver-GoesOn p now t a k fine = (record p { subscriber = t }, refl, refl)

  plane_step-GoesOn :
      (p : Plane C node_id r) (now : String) (t : Subscriber) (a : Action)
      → step r p.subscriber a ≡ some t
      → all_extractable (snapshot r p.subscriber.cluster_state).services ≡ true
      → GoesOn (plane_step C node_id r p now a) t
  unfolding plane_step
  plane_step-GoesOn p now t a k fine =
      let (q, goes, same) = deliver-GoesOn p now t a k fine in (q, rw (plane_step, k) goes, same)

  plane_run-GoesOn :
      (p : Plane C node_id r) (now : String) (t : Subscriber) (rest : List Action)
      → All IsInternal rest
      → run r p.subscriber rest ≡ some t
      → all_extractable (snapshot r p.subscriber.cluster_state).services ≡ true
      → GoesOn (plane_run C node_id r p (timed now rest)) t
  unfolding plane_run run
  plane_run-GoesOn p now t [] h k fine = (p, refl, some-injective p.subscriber t k)
  plane_run-GoesOn p now t (a ∷ rest) (i, h) k fine = elim (Option-cases (step r p.subscriber a)) [
    | inl stuck ↦ absurd (ground (arith, stuck, k))
    | inr (u, stepped) ↦
        let (m, goes, same) = plane_step-GoesOn p now u a stepped fine in
        let kept : m.subscriber.cluster_state ≡ p.subscriber.cluster_state =
          ap (λ v. v.cluster_state) same ∙ step-cluster_state r p.subscriber u a i stepped in
        let ahead : run r m.subscriber rest ≡ some t =
          ap (λ v. run r v rest) same ∙ ground (arith, stepped, k) in
        let (q, ran, over) =
          plane_run-GoesOn m now t rest h ahead
            (ap (λ c. all_extractable (snapshot r c).services) kept ∙ fine) in
        (q, rw (plane_run, goes) ran, over)
  ]

module _ (C : SnapshotCache) (L : IsLawful C) (node_id : String) (r : MapRange) where
  -- From wherever a history of the control plane leads, over a lawful snapshot cache: if every endpoint
  -- of every slice of the cache of services that has a port has an address, there is a schedule of
  -- dispatches, receipts, time-outs and updates, with no further event, after which the server holds
  -- for its node the translation of the cache as it stood at the start of the schedule.
  pub plane_run-settles :
      (s : C.State) (history : List (String × Action)) (p : Plane C node_id r) (now : String)
      → plane_run C node_id r (new_plane C node_id r s) history ≡ some p
      → all_extractable (snapshot r p.subscriber.cluster_state).services ≡ true
      → (rest : List (String × Action)) × (q : Plane C node_id r) × All IsInternal (moves rest)
        × (plane_run C node_id r p rest ≡ some q)
        × Serves C L node_id r q.server (snapshot r p.subscriber.cluster_state)
  unfolding new_plane
  plane_run-settles s history p now h fine =
      let (ran, v) =
        plane_run-Serves C L node_id r (new_plane C node_id r s) p history h
          (new_plane-Serves C L node_id r s) in
      let (rest, t, internal, goes, delivered) = run-settles r (moves history) p.subscriber ran in
      let (q, follows, same) = plane_run-GoesOn C node_id r p now t rest internal goes fine in
      let (_, w) = plane_run-Serves C L node_id r p q (timed now rest) follows v in
      (
        timed now rest,
        q,
        subst (All IsInternal) (sym (moves-timed now rest)) internal,
        follows,
        subst (Serves C L node_id r q.server) (ap (λ u. u.delivered) same ∙ delivered) w,
      )
