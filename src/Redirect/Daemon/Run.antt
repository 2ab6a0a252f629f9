-- ===== src/Redirect/Daemon/Run.antt =====
-- How the daemon ends.

use lightpath.Prelude.{
  ◌≡◌, refl, ◌∙◌, String, ◌<>◌, Bool, true, false, ◌&&◌, ◌||◌, is_some, none, some, List, ◌⊎◌, inl,
  inr, ◌==◌, string_eq, arith, Option-cases,
}
use lightpath.Prelude.MapRange.{MapRange}
use lightpath.Wellknown.{lightpath_proxy_name, lightpath_redirect_iptables, lightpath_envoy_port}
use lightpath.Clients.{ClientGo, create_clients, label_selector, succeeds}
use lightpath.Redirect.{Net}
use lightpath.Redirect.Iptables.{Iptables, Tables, prereqs, cleanup}
use lightpath.Redirect.Iptables.Lawful.{IsReliable, has_redirect, iptables_redirect-IsLawful}
use lightpath.Redirect.Iptables.Prereqs.{JumpsFrom}
use lightpath.Redirect.Iptables.Cleanup.{NoJumps, cleanup-NoJumps}
use lightpath.Redirect.Informer.{Notification, notify_all}
use lightpath.Redirect.Informer.Panics.{remove_nothing, notify_all-is_some}
use lightpath.Redirect.Daemon.{
  Course, first_unsynced, RunError, kube_error, errorf, redirect_impl, stop, start, watch, run,
}
use lightpath.Redirect.Daemon.Kept.{
  notify_all-JumpsFrom, notify_all-NoJumps, notify_all-HasChain, prereqs-HasChain,
}

module _ (G : ClientGo) (T : Iptables) (N : Net) (r : MapRange) where
  -- What the calls before `Prereqs` return lets the daemon start.
  abbrev starts :
      G.Error ⊎ (G.Client × G.EventsGetter) → G.Error ⊎ List G.Requirement → String → Bool
  starts client selector redirect_mode =
      succeeds client && (succeeds selector && redirect_mode == lightpath_redirect_iptables)

  -- The clients and the label selector are made, and the mode is known.
  abbrev pub can_start : String → String → G.State → Bool
  can_start kubeconfig redirect_mode kube =
      starts (create_clients G kubeconfig kube).1 (label_selector G lightpath_proxy_name)
        redirect_mode

  start_lem :
      (client : G.Error ⊎ (G.Client × G.EventsGetter)) (selector : G.Error ⊎ List G.Requirement)
      (redirect_mode : String) (course : Course) (s : Tables T)
      → (starts client selector redirect_mode ≡ true
          → start G T N r client selector redirect_mode course s ≡ watch G T N r course s)
        × (starts client selector redirect_mode ≡ false
            → (e : RunError G T N r) × (start G T N r client selector redirect_mode course s
                ≡ some (s, some e)))
  unfolding start
  start_lem (inl e) selector redirect_mode course s =
      ((λ h. ground (arith, h)), λ h. (kube_error e, refl))
  start_lem (inr a) (inl e) redirect_mode course s =
      ((λ h. ground (arith, h)), λ h. (kube_error e, refl))
  start_lem (inr a) (inr b) redirect_mode course s =
      ((λ h. rw h refl), λ h. (errorf ("invalid redirect mode: " <> redirect_mode), rw h refl))

  callbacks_return :
      (L : IsReliable T) (ns : List Notification) (s : Tables T)
      → remove_nothing ns ≡ true
      → (t : Tables T) × (notify_all N (redirect_impl G T N r) r ns s ≡ some t)
  callbacks_return L ns s fine = elim (Option-cases (notify_all N (redirect_impl G T N r) r ns s)) [
    | inl e ↦ ground (
      arith,
      e,
      fine,
      notify_all-is_some N (redirect_impl G T N r) (has_redirect T L N lightpath_envoy_port)
          (iptables_redirect-IsLawful T L N lightpath_envoy_port) r ns s,
    )
    | inr found ↦ found
  ]

  -- Over reliable iptables, where `run` can start: `run` returns exactly where no callback that it
  -- runs has anything to remove (updates keep all addresses, and deleted services have none), that is
  -- the early ones, and where every type is synced also the late ones. Else the process ends in a
  -- panic.
  pub run-is_some :
      (L : IsReliable T) (kubeconfig redirect_mode : String) (course : Course) (kube : G.State)
      (s : Tables T)
      → can_start kubeconfig redirect_mode kube ≡ true
      → is_some (run G T N r kubeconfig redirect_mode course kube s) ≡ (
          remove_nothing course.early
          && (is_some (first_unsynced course.synced) || remove_nothing course.late))
  unfolding run watch
  run-is_some L kubeconfig redirect_mode course kube s starts =
      let R = redirect_impl G T N r in
      let has = has_redirect T L N lightpath_envoy_port in
      let lawful = iptables_redirect-IsLawful T L N lightpath_envoy_port in
      let went = (start_lem _ _ redirect_mode course s).0 starts in
      let early = notify_all-is_some N R has lawful r course.early (prereqs T s).0 in
      elim (Option-cases (notify_all N R r course.early (prereqs T s).0)) [
        | inl panics ↦ ground (arith, went, early, panics)
        | inr (t, told) ↦
            ground (arith, went, early, told, notify_all-is_some N R has lawful r course.late t)
      ]

  module _ (L : IsReliable T) (kubeconfig redirect_mode : String) (course : Course) (kube : G.State)
      (s : Tables T) (starts : can_start kubeconfig redirect_mode kube ≡ true)
      (early : remove_nothing course.early ≡ true) where
    -- Over reliable iptables, where `run` can start, every type is synced, and none of the
    -- callbacks has anything to remove (updates keep all addresses, and deleted services have none):
    -- `run` returns nil once the context is done, and no family jumps to the chain of the
    -- redirects any more, whatever callbacks still run after the cleanup.
    pub run-NoJumps :
        (remaining : List Notification)
        → first_unsynced course.synced ≡ none
        → remove_nothing course.late ≡ true
        → remove_nothing remaining ≡ true
        → (t u : Tables T) × (run G T N r kubeconfig redirect_mode course kube s ≡ some (t, none))
          × (notify_all N (redirect_impl G T N r) r remaining t ≡ some u)
          × NoJumps T L u.iptables
          × NoJumps T L u.ip6tables
    unfolding run watch stop
    run-NoJumps remaining synced late still =
        let (t, told) = callbacks_return L course.early (prereqs T s).0 early in
        let (u, rest) = callbacks_return L course.late t late in
        let (fine, v4, v6) = cleanup-NoJumps T L u (
          notify_all-HasChain T L N lightpath_envoy_port r course.late t u rest (
            notify_all-HasChain T L N lightpath_envoy_port r course.early _ t told
              (prereqs-HasChain T L N lightpath_envoy_port s))) in
        let (v, last) = callbacks_return L remaining (cleanup T u).0 still in
        let (still4, still6) =
          notify_all-NoJumps T L N lightpath_envoy_port r remaining _ v last (v4, v6) in
        (
          (cleanup T u).0,
          v,
          (start_lem _ _ redirect_mode course s).0 starts
              ∙ rw (synced, told, rest, fine, watch, stop) refl,
          last,
          still4,
          still6,
        )

    -- Over reliable iptables, where `run` can start and the early callbacks have nothing to remove: if a type
    -- is not synced, `run` returns an error that names the first such type, without the cleanup, so that
    -- both families go on jumping to the chain of the redirects.
    pub run_unsynced :
        (informer_type : String)
        → first_unsynced course.synced ≡ some informer_type
        → (t : Tables T) × (run G T N r kubeconfig redirect_mode course kube s
            ≡ some (t, some (errorf ("failed to sync cache for " <> informer_type))))
          × JumpsFrom T L t.iptables
          × JumpsFrom T L t.ip6tables
    unfolding run watch
    run_unsynced informer_type unsynced =
        let (t, told) = callbacks_return L course.early (prereqs T s).0 early in
        let (v4, v6) = notify_all-JumpsFrom T L N lightpath_envoy_port r course.early s t told in
        (
          t,
          (start_lem _ _ redirect_mode course s).0 starts ∙ rw (unsynced, told, watch) refl,
          v4,
          v6,
        )
