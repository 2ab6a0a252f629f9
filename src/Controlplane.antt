-- ===== src/Controlplane.antt =====
-- The update loop of cmd/controlplane/controlplane.go, and `UpdateSnapshot` of pkg/server/server.go.
-- The calls that the loop makes after `ReceiveEvent` has returned are taken with that return: nothing
-- else touches the server.
pub mod Current
pub mod Settles
pub mod Lifecycle
pub mod Setup
pub mod Endpoints
pub mod Events
pub mod Main
use lightpath.Prelude.{String, Option, none, some, List, [], ◌∷◌, ◌≡◌}
use lightpath.Prelude.MapRange.{MapRange}
use lightpath.State.Snapshot as kube_snapshot
use lightpath.State.Subscriber.{Subscriber, Action, takes, times_out, new_subscriber, step}
use lightpath.Translations.Envoy.{Snapshot}
use lightpath.Translations.Mapper.{envoy_snapshot_from_kube_snapshot}

-- `cache.SnapshotCache` of go-control-plane: the snapshot of each node.
pub record SnapshotCache : Type 1 where
  pub State : Type 0
  pub Error : Type 0
  pub set_snapshot : String → Snapshot → State → State × Option Error
  pub get_snapshot : String → State → Option Snapshot

-- What is set is there, while no call fails.
pub record IsLawful (C : SnapshotCache) : Type 0 where
  pub get-set :
      (node : String) (snap : Snapshot) (s : C.State)
      → C.get_snapshot node (C.set_snapshot node snap s).0 ≡ some snap

module _ (C : SnapshotCache) (node_id : String) (r : MapRange) where
  -- `UpdateSnapshot` of the server; an inconsistent snapshot is only logged.
  unfoldable pub update_server : Snapshot → C.State → C.State × Option C.Error
  update_server snapshot s = C.set_snapshot node_id snapshot s

  -- `updateSnapshot`, by what `ReceiveEvent` returns; `none` where the translation panics.
  unfoldable pub update_snapshot :
      String → Option kube_snapshot.Snapshot → C.State → Option (C.State × Option C.Error)
  unfolding update_server
  update_snapshot now none s = some (s, none)
  update_snapshot now (some snap) s = elim (envoy_snapshot_from_kube_snapshot r now snap) [
    | none ↦ none
    | some envoy_snap ↦ some (update_server envoy_snap s)
  ]

  -- The subscriber and the server of the control plane.
  pub record Plane : Type 0 where
    pub subscriber : Subscriber
    pub server : C.State

  -- `&cache.Snapshot{}`
  abbrev pub empty_snapshot : Snapshot
  empty_snapshot = record { version = ""; listeners = []; clusters = []; endpoints = [] }

  -- `run` up to its loops: the server starts with an empty snapshot.
  unfoldable pub new_plane : C.State → Plane
  unfolding update_server
  new_plane s = record {
    subscriber = new_subscriber r;
    server = (update_server empty_snapshot s).0;
  }

  -- The return of `ReceiveEvent` that an action is, if it is one.
  unfoldable pub returned : Action → Subscriber → Option (Option kube_snapshot.Snapshot)
  returned takes s = some (some s.delivered)
  returned times_out s = some none
  returned _ s = none

  -- What the loop does with the return; an error of the update is logged, and the loop goes on.
  unfoldable pub deliver :
      Plane → String → Subscriber → Option (Option kube_snapshot.Snapshot) → Option Plane
  unfolding update_snapshot
  deliver p now s none = some (record p { subscriber = s })
  deliver p now s (some received) = elim (update_snapshot now received p.server) [
    | none ↦ none
    | some (server, _) ↦ some (record { subscriber = s; server = server })
  ]

  -- An action at a time.
  unfoldable pub plane_step : Plane → String → Action → Option Plane
  plane_step p now a = elim (step r p.subscriber a) [
    | none ↦ none
    | some s ↦ deliver p now s (returned a s)
  ]

  unfoldable pub plane_run : Plane → List (String × Action) → Option Plane
  plane_run p [] = some p
  plane_run p ((now, a) ∷ schedule) = elim (plane_step p now a) [
    | none ↦ none
    | some q ↦ plane_run q schedule
  ]
