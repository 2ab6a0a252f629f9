-- ===== src/Controlplane/Setup.antt =====
-- `run` of cmd/controlplane/controlplane.go up to its goroutines, with `New` and the registrations of
-- `Start` in pkg/server/server.go.
use lightpath.Prelude.{◌≡◌, refl, ℕ, ◌*◌, String, Bool, true, ◌&&◌, some, List, ◌⊎◌, inl, inr}
use lightpath.Prelude.MapRange.{MapRange}
use lightpath.Wellknown.{second, lightpath_proxy_name}
use lightpath.Clients.{ClientGo, create_clients, label_selector, succeeds}
use lightpath.State.Subscriber.{new_subscriber}
use lightpath.Controlplane.{
  SnapshotCache, IsLawful, Plane, empty_snapshot, new_plane, update_server,
}

-- Durations in nanoseconds.
abbrev grpc_keepalive_time : ℕ
grpc_keepalive_time = 10 * second

abbrev grpc_keepalive_timeout : ℕ
grpc_keepalive_timeout = 5 * second

abbrev grpc_keepalive_min_time : ℕ
grpc_keepalive_min_time = 5 * second

abbrev grpc_max_concurrent_streams : ℕ
grpc_max_concurrent_streams = 1000000

-- Without the logger.
pub record XdsServerOpts : Type 0 where
  pub grpc_keepalive_time : ℕ
  pub grpc_keepalive_timeout : ℕ
  pub grpc_keepalive_min_time : ℕ
  pub grpc_max_concurrent_streams : ℕ
  pub node_id : String
  pub host : String

-- What the options of `grpc.NewServer` are set to.
pub record GrpcOptions : Type 0 where
  pub max_concurrent_streams : ℕ
  pub time : ℕ
  pub timeout : ℕ
  pub min_time : ℕ
  pub permit_without_stream : Bool

-- `net.Listen`, over the state of the network.
pub record Network : Type 1 where
  pub State : Type 0
  pub Listener : Type 0
  pub Error : Type 0
  pub listen : String → String → State → Error ⊎ Listener

module _ (C : SnapshotCache) (W : Network) where
  pub record XdsServer : Type 0 where
    pub node_id : String
    pub cache : C.State
    pub listen : W.Listener
    pub server : GrpcOptions

  unfoldable pub with_listener :
      (Bool → C.State) → XdsServerOpts → W.Error ⊎ W.Listener → W.Error ⊎ XdsServer
  with_listener new_snapshot_cache opts (inl e) = inl e
  with_listener new_snapshot_cache opts (inr listen) = inr (record {
    node_id = opts.node_id;
    cache = new_snapshot_cache true;
    listen = listen;
    server = record {
      max_concurrent_streams = opts.grpc_max_concurrent_streams;
      time = opts.grpc_keepalive_time;
      timeout = opts.grpc_keepalive_timeout;
      min_time = opts.grpc_keepalive_min_time;
      permit_without_stream = true;
    };
  })

  -- `cache.NewSnapshotCache` is given: its argument is whether it keeps the order of ADS.
  unfoldable pub new_xds_server : (Bool → C.State) → XdsServerOpts → W.State → W.Error ⊎ XdsServer
  unfolding with_listener
  new_xds_server new_snapshot_cache opts s =
      with_listener new_snapshot_cache opts (W.listen "tcp" opts.host s)

  module _ (G : ClientGo) (r : MapRange) where
    pub data SetupError : Type 0 where
      kube_error : G.Error → SetupError
      listen_error : W.Error → SetupError

    -- By what the calls return. The empty snapshot is set before the selector is made.
    unfoldable pub set_up :
        G.Error ⊎ (G.Client × G.EventsGetter)
        → W.Error ⊎ XdsServer
        → G.Error ⊎ List G.Requirement
        → SetupError ⊎ ((server : XdsServer) × Plane C server.node_id r)
    set_up (inl e) server selector = inl (kube_error e)
    set_up (inr _) (inl e) selector = inl (listen_error e)
    set_up (inr _) (inr server) (inl e) = inl (kube_error e)
    set_up (inr _) (inr server) (inr _) = inr (server, new_plane C server.node_id r server.cache)

    abbrev opts_of : String → String → XdsServerOpts
    opts_of node_id host = record {
      grpc_keepalive_time = grpc_keepalive_time;
      grpc_keepalive_timeout = grpc_keepalive_timeout;
      grpc_keepalive_min_time = grpc_keepalive_min_time;
      grpc_max_concurrent_streams = grpc_max_concurrent_streams;
      node_id = node_id;
      host = host;
    }

    unfoldable pub setup :
        (Bool → C.State)
        → String
        → String
        → String
        → G.State
        → W.State
        → SetupError ⊎ ((server : XdsServer) × Plane C server.node_id r)
    unfolding set_up new_xds_server
    setup new_snapshot_cache kubeconfig node_id host kube network =
        set_up (create_clients G kubeconfig kube).1
          (new_xds_server new_snapshot_cache (opts_of node_id host) network)
          (label_selector G lightpath_proxy_name)

    -- What a setup without an error leaves.
    abbrev pub IsSetUp :
        String → SetupError ⊎ ((server : XdsServer) × Plane C server.node_id r) → Type 0
    IsSetUp node_id (inl _) = Unit
    IsSetUp node_id (inr (server, p)) =
        (server.node_id ≡ node_id)
        × (C.get_snapshot server.node_id p.server ≡ some (empty_snapshot C node_id r))
        × (p.subscriber ≡ new_subscriber r)

    set_up_lem :
        (L : IsLawful C) (new_snapshot_cache : Bool → C.State) (opts : XdsServerOpts)
        (client : G.Error ⊎ (G.Client × G.EventsGetter)) (listener : W.Error ⊎ W.Listener)
        (selector : G.Error ⊎ List G.Requirement)
        → (succeeds (set_up client (with_listener new_snapshot_cache opts listener) selector)
            ≡ (succeeds client && (succeeds listener && succeeds selector)))
          × IsSetUp opts.node_id
              (set_up client (with_listener new_snapshot_cache opts listener) selector)
    unfolding set_up with_listener new_plane update_server
    set_up_lem L new_snapshot_cache opts (inl e) listener selector = (refl, tt)
    set_up_lem L new_snapshot_cache opts (inr c) (inl e) selector = (refl, tt)
    set_up_lem L new_snapshot_cache opts (inr c) (inr l) (inl e) = (refl, tt)
    set_up_lem L new_snapshot_cache opts (inr c) (inr l) (inr sel) =
        (refl, (refl, L.get-set opts.node_id _ _, refl))

    -- With a lawful cache: the setup succeeds exactly when the clients, the listener and the label
    -- selector can be made, and then the server holds the empty snapshot for the node that the
    -- options name, and the subscriber is new.
    pub setup_lem :
        (L : IsLawful C) (new_snapshot_cache : Bool → C.State) (kubeconfig node_id host : String)
        (kube : G.State) (network : W.State)
        → (succeeds (setup new_snapshot_cache kubeconfig node_id host kube network) ≡ (
            succeeds (create_clients G kubeconfig kube).1
            && (succeeds (W.listen "tcp" host network)
                && succeeds (label_selector G lightpath_proxy_name))))
          × IsSetUp node_id (setup new_snapshot_cache kubeconfig node_id host kube network)
    unfolding setup new_xds_server
    setup_lem L new_snapshot_cache kubeconfig node_id host kube network =
        set_up_lem L new_snapshot_cache (opts_of node_id host) (create_clients G kubeconfig kube).1
          (W.listen "tcp" host network) (label_selector G lightpath_proxy_name)
