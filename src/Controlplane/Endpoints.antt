-- ===== src/Controlplane/Endpoints.antt =====
-- From the cache of services to the endpoints that the server holds.
pub mod Stored
use mathlib.Core.List.{Perm}
use lightpath.Prelude.{subst, ◌≡◌, sym, ap, ◌∙◌, String, false, some, List, string_eq}
use lightpath.Prelude.Dict.{lookup, AllEntries}
use lightpath.Prelude.MapRange.{MapRange}
use lightpath.Kube.{ServicePort}
use lightpath.State.Service.{ServiceContainer}
use lightpath.State.Cache.Contents.{view}
use lightpath.Translations.Endpoints.Serving.{IsPlain, serving}
use lightpath.State.Subscriber.{Action}
use lightpath.State.Subscriber.Delivery.{in_flight}
use lightpath.Controlplane.{SnapshotCache, IsLawful, Plane, new_plane, plane_run}
use lightpath.Controlplane.Current.{plane_run-current, plane_run-IsWellFormed}
use mathlib.Core.Option.{some-injective}
use lightpath.Translations.Mapper.Index as index
use lightpath.Translations.Mapper.Index.{ResourceIndex, looked_up, assigned-looked_up}
use lightpath.Translations.Envoy.{Snapshot}
use lightpath.Translations.PortSettings.{PortSettings}
use lightpath.Translations.Cluster.{gen_cluster}
use lightpath.Translations.Helper.Names.{has_bar}
use lightpath.Translations.Endpoints.{Locality}
use lightpath.Translations.Endpoints.Reported.{reported}
use lightpath.Translations.Endpoints.Assigned.{assigned}
use lightpath.Controlplane.Endpoints.Stored.{translated-serving, translated-few}

module _ (C : SnapshotCache) (L : IsLawful C) (node_id : String) (r : MapRange) where
  -- In every history of the control plane that no translation ends by a panic, over a lawful snapshot
  -- cache: whenever no news is on its way, and if no name or namespace in the cache of services and
  -- no IP family has a bar, the server holds for its node a snapshot in which the cluster of each
  -- port and IP family of a stored service has in each locality exactly the endpoints that the
  -- stored slices report in that family and at that target port, each once, up to order.
  pub plane_run-serving :
      (s : C.State) (schedule : List (String × Action)) (p : Plane C node_id r) (name : String)
      (container : ServiceContainer) (port : ServicePort) (port_settings : PortSettings)
      (family : String) (locality : Locality)
      → plane_run C node_id r (new_plane C node_id r s) schedule ≡ some p
      → in_flight p.subscriber ≡ false
      → lookup name p.subscriber.cluster_state.services ≡ some container
      → AllEntries (λ k s. IsPlain s.obj) p.subscriber.cluster_state.services
      → has_bar family ≡ false
      → (held : Snapshot) × (C.get_snapshot node_id p.server ≡ some held)
        × Perm
            (serving family port.target_port.int_val locality
              (reported (view r container).endpoint_slices))
            (assigned
              (gen_cluster container.obj port port_settings family).name
              locality
              held.endpoints)
  plane_run-serving s schedule p name container port port_settings family locality ran quiet found
        plain barless =
      let current = plane_run-current C L node_id r s schedule p ran quiet in
      (
        current.held,
        current.holds,
        translated-serving r p.subscriber.cluster_state name current.time container port
            port_settings family current.held
            (plane_run-IsWellFormed C L node_id r s schedule p ran) found plain barless
            current.translates locality,
      )

  -- In every history of the control plane that no translation ends by a panic, over a lawful snapshot
  -- cache with a lawful index: whenever no news is on its way, and if no name or namespace in the
  -- cache of services and no IP family has a bar, the server holds for its node a snapshot in which
  -- what is found under the name of the cluster of a port and an IP family of a stored service has
  -- in each locality exactly the endpoints that the stored slices report in that family and at that
  -- target port, each once, up to order.
  pub plane_run-looked_up :
      (I : ResourceIndex) (s : C.State) (schedule : List (String × Action)) (p : Plane C node_id r)
      (name : String) (container : ServiceContainer) (port : ServicePort)
      (port_settings : PortSettings) (family : String) (locality : Locality)
      → index.IsLawful I
      → plane_run C node_id r (new_plane C node_id r s) schedule ≡ some p
      → in_flight p.subscriber ≡ false
      → lookup name p.subscriber.cluster_state.services ≡ some container
      → AllEntries (λ k s. IsPlain s.obj) p.subscriber.cluster_state.services
      → has_bar family ≡ false
      → (held : Snapshot) × (C.get_snapshot node_id p.server ≡ some held)
        × Perm
            (serving family port.target_port.int_val locality
              (reported (view r container).endpoint_slices))
            (looked_up I
              (gen_cluster container.obj port port_settings family).name
              locality
              held.endpoints)
  plane_run-looked_up I s schedule p name container port port_settings family locality M ran quiet
        found plain barless =
      let current = plane_run-current C L node_id r s schedule p ran quiet in
      let (held, holds, shown) =
        plane_run-serving s schedule p name container port port_settings family locality ran quiet
          found plain barless in
      let same = some-injective current.held held (sym current.holds ∙ holds) in
      let few =
        translated-few r p.subscriber.cluster_state name current.time container port port_settings
          family held (plane_run-IsWellFormed C L node_id r s schedule p ran) found plain barless
          (current.translates ∙ ap some same) in
      (
        held,
        holds,
        subst
            (Perm (
              serving family port.target_port.int_val locality
                (reported (view r container).endpoint_slices)))
            (assigned-looked_up I M _ locality held.endpoints few) shown,
      )
