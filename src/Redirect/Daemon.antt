-- ===== src/Redirect/Daemon.antt =====
-- `run` of cmd/redirect/redirect.go, over the tables, with what the informer reports while it runs.
pub mod Kept
pub mod Watching
pub mod Run
use lightpath.Prelude.{
  String, ◌<>◌, if◌then◌else◌, Bool, true, false, Option, none, some, List, [], ◌∷◌, ◌⊎◌, inl, inr,
  ◌==◌, string_eq,
}
use mathlib.Core.Option as option
use lightpath.Prelude.MapRange.{MapRange}
use lightpath.Wellknown.{lightpath_proxy_name, lightpath_redirect_iptables, lightpath_envoy_port}
use lightpath.Clients.{ClientGo, create_clients, label_selector}
use lightpath.Redirect.{Net, Redirect}
use lightpath.Redirect.Iptables.{Iptables, Tables, iptables_redirect, prereqs, cleanup}
use lightpath.Redirect.Informer.{Notification, notify_all}

-- What happens while the daemon runs: the callbacks until `WaitForCacheSync` returns, its answer for
-- each type in the order of `range`, and the callbacks until the context is done.
pub record Course : Type 0 where
  pub early : List Notification
  pub synced : List (String × Bool)
  pub late : List Notification

-- The first type that is not synced.
unfoldable pub first_unsynced : List (String × Bool) → Option String
first_unsynced [] = none
first_unsynced ((informer_type, ok) ∷ rest) =
    let next = first_unsynced rest in if ok then next else some informer_type

module _ (G : ClientGo) (T : Iptables) (N : Net) (r : MapRange) where
  -- `errorf` has the text of `fmt.Errorf`.
  pub data RunError : Type 0 where
    kube_error : G.Error → RunError
    errorf : String → RunError
    iptables_error : T.Error → RunError

  abbrev pub redirect_impl : Redirect N
  redirect_impl = iptables_redirect T N lightpath_envoy_port

  -- After the callbacks: `none` where one of them panics, which ends the process.
  abbrev pub after :
      List Notification
      → Tables T
      → (Tables T → Tables T × Option RunError)
      → Option (Tables T × Option RunError)
  after ns s next = option.map next (notify_all N redirect_impl r ns s)

  -- From the wait for the context to be done.
  unfoldable pub stop : Tables T → Tables T × Option RunError
  stop s = let (t, err) = cleanup T s in (t, option.map iptables_error err)

  -- From `Prereqs`, whose error is dropped.
  unfoldable pub watch : Course → Tables T → Option (Tables T × Option RunError)
  unfolding stop
  watch course s = elim (first_unsynced course.synced) [
    | none ↦ elim (notify_all N redirect_impl r course.early (prereqs T s).0) [
      | none ↦ none
      | some t ↦ after course.late t stop
    ]
    | some informer_type ↦
        after course.early (prereqs T s).0
          (λ t. (t, some (errorf ("failed to sync cache for " <> informer_type))))
  ]

  -- The errors before `Prereqs`, by what the calls return.
  unfoldable pub start :
      G.Error ⊎ (G.Client × G.EventsGetter)
      → G.Error ⊎ List G.Requirement
      → String
      → Course
      → Tables T
      → Option (Tables T × Option RunError)
  unfolding watch
  start (inl e) selector redirect_mode course s = some (s, some (kube_error e))
  start (inr _) (inl e) redirect_mode course s = some (s, some (kube_error e))
  start (inr _) (inr _) redirect_mode course s =
      let watched = watch course s in
      if redirect_mode == lightpath_redirect_iptables
      then watched
      else some (s, some (errorf ("invalid redirect mode: " <> redirect_mode)))

  unfoldable pub run :
      String → String → Course → G.State → Tables T → Option (Tables T × Option RunError)
  unfolding start
  run kubeconfig redirect_mode course kube s =
      start (create_clients G kubeconfig kube).1 (label_selector G lightpath_proxy_name)
        redirect_mode course s
