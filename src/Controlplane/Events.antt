-- ===== src/Controlplane/Events.antt =====
-- From what the informers report to the endpoints that the server holds.
use mathlib.Core.List.{Perm}
use lightpath.Prelude.{◌≡◌, ◌∙◌, String, false, none, some, List}
use lightpath.Prelude.Lists.{All}
use lightpath.Prelude.MapRange.{MapRange}
use lightpath.Kube.{ServicePort}
use lightpath.State.Service.{ServiceContainer}
use lightpath.State.Cache.Contents.{view}
use lightpath.State.Subscriber.{Action, new_subscriber, run}
use lightpath.State.Subscriber.Delivery.{in_flight}
use lightpath.State.Subscriber.Entries.{call, events_of, about, entry_run, run-entries}
use lightpath.State.Subscriber.Objects.{OfCall, run-AllObjects}
use lightpath.Translations.Envoy.{Snapshot}
use lightpath.Translations.PortSettings.{PortSettings}
use lightpath.Translations.Cluster.{gen_cluster}
use lightpath.Translations.Helper.Names.{has_bar}
use lightpath.Translations.Endpoints.{Locality}
use lightpath.Translations.Endpoints.Reported.{reported}
use lightpath.Translations.Endpoints.Serving.{IsPlain, serving}
use lightpath.Translations.Mapper.Index as index
use lightpath.Translations.Mapper.Index.{ResourceIndex, looked_up}
use lightpath.Controlplane.{SnapshotCache, IsLawful, Plane, new_plane, plane_run}
use lightpath.Controlplane.Current.{moves, plane_run-Serves, new_plane-Serves}
use lightpath.Controlplane.Endpoints.{plane_run-looked_up}

module _ (C : SnapshotCache) (L : IsLawful C) (node_id : String) (r : MapRange) where
  plane_run-subscriber :
      (s : C.State) (schedule : List (String × Action)) (p : Plane C node_id r)
      → plane_run C node_id r (new_plane C node_id r s) schedule ≡ some p
      → run r (new_subscriber r) (moves schedule) ≡ some p.subscriber
  unfolding new_plane
  plane_run-subscriber s schedule p ran =
      (plane_run-Serves C L node_id r (new_plane C node_id r s) p schedule ran
        (new_plane-Serves C L node_id r s)).0

  -- In every history of the control plane that no translation ends by a panic, over a lawful snapshot
  -- cache with a lawful index: whenever no news is on its way, and if no name or namespace of a
  -- reported service and no IP family has a bar, then for a name of which the events of that name
  -- leave an entry, the server holds for its node a snapshot in which what is found under the name of
  -- the cluster of a port and an IP family of that service has in each locality exactly the endpoints
  -- that the slices of the entry report in that family and at that target port, each once, up to
  -- order: one for each port of a slice and first address of an endpoint, with the
  -- health that its last report gives.
  pub plane_run-served :
      (I : ResourceIndex) (s : C.State) (schedule : List (String × Action)) (p : Plane C node_id r)
      (name : String) (container : ServiceContainer) (port : ServicePort)
      (port_settings : PortSettings) (family : String) (locality : Locality)
      → index.IsLawful I
      → plane_run C node_id r (new_plane C node_id r s) schedule ≡ some p
      → in_flight p.subscriber ≡ false
      → All (λ e. OfCall IsPlain (call e)) (events_of (moves schedule))
      → entry_run none (about name (events_of (moves schedule))) ≡ some container
      → has_bar family ≡ false
      → (held : Snapshot) × (C.get_snapshot node_id p.server ≡ some held)
        × Perm
            (serving family port.target_port.int_val locality
              (reported (view r container).endpoint_slices))
            (looked_up I
              (gen_cluster container.obj port port_settings family).name
              locality
              held.endpoints)
  plane_run-served I s schedule p name container port port_settings family locality M ran quiet
        plain left barless =
      let went = plane_run-subscriber s schedule p ran in
      plane_run-looked_up C L node_id r I s schedule p name container port port_settings family
        locality M ran quiet (run-entries r (moves schedule) p.subscriber name went ∙ left)
        (run-AllObjects IsPlain r (moves schedule) p.subscriber went plain) barless
