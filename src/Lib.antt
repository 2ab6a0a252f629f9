-- ===== src/Lib.antt =====
-- Verification of lightpath, a control plane that turns the services of a Kubernetes cluster into
-- configuration for Envoy, and a daemon that redirects the traffic of those services to the proxy.
--
-- How the parts interact. Informers call the handlers of the subscriber (pkg/state/subscriber.go),
-- which update the cache of services and endpoint slices (pkg/state/cache.go, pkg/state/service.go)
-- and wake `ReceiveEvent`. The control plane translates the snapshot that it returns into Envoy
-- clusters, listeners and load assignments (pkg/translations). On each node the event handler of
-- pkg/redirect/kube.go keeps the rules of pkg/redirect/iptables.go in step with the services.
--
-- Which file models what:
--   State/Snapshot      pkg/state/snapshot/snapshot.go
--   State/Service       pkg/state/service.go (serviceContainer and its methods)
--   State/Cache         pkg/state/cache.go (clusterServiceStateCache and its methods)
--   State/Subscriber    pkg/state/subscriber.go, as a step relation over schedules
--   Redirect            pkg/redirect/redirect.go, as a record of operations and laws
--   Redirect/Diff       svcIPDiff of pkg/redirect/kube.go
--   Redirect/Handler    getComment and NewEventHandler of pkg/redirect/kube.go
--   Redirect/Iptables   pkg/redirect/iptables.go
--   Redirect/Informer   the informer's calls of those handlers, and its store as a relation
--   Redirect/Daemon     run of cmd/redirect/redirect.go, by what the informer reports while it runs
--   Clients             internal/utils/kube.go, and the label selector of both commands
--   Wellknown           pkg/wellknown/wellknown.go
--   Translations/Helper, PortSettings, Cluster, Filter, Listener, Endpoints, Mapper
--                       helper.go, portsettings.go and types.go, mapper_cluster.go, filter_tcp.go and
--                       filter_http.go, mapper_listener.go, mapper_endpoints.go, mapper.go of
--                       pkg/translations
--   Controlplane        updateSnapshot and the update loop of cmd/controlplane/controlplane.go, with
--                       UpdateSnapshot of pkg/server/server.go, joined with the subscriber
--   Controlplane/Endpoints, Controlplane/Events
--                       the handlers, the loop and the translation together: from a stored service,
--                       and from the events of a service, to the endpoints that the server holds
--   Translations/Mapper/Index
--                       cache.NewSnapshot of go-control-plane, as a parameter: what is found by name
--   Controlplane/Setup  run of cmd/controlplane/controlplane.go up to its goroutines, and New of
--                       pkg/server/server.go
--   Controlplane/Lifecycle
--                       the goroutines of that run and of Start of pkg/server/server.go, as a step
--                       relation over schedules
--   Controlplane/Main   main of cmd/controlplane/cmd.go with its signal handler, around that run, as a
--                       step relation over schedules
--   Kube, Translations/Envoy
--                       the fields of the Kubernetes objects and the Envoy messages that the code
--                       reads and sets
--   Logger              pkg/logger/logger.go
--   Commands            cmd/redirect/cmd.go, the flags of cmd/controlplane/cmd.go, and
--                       internal/version/version.go
--   Commands/Signals, Commands/Interrupts
--                       the signal handler of both commands, and the redirect daemon under signals, as
--                       a step relation over schedules
-- A function keeps its name in snake case. The files below a component's file prove its properties;
-- Tests runs the definitions and the theorems on concrete data.
--
-- State is passed explicitly; each method under a mutex is one step. A Go map is an association list,
-- and the order of `range` over it is a parameter, any function that permutes a list (MapRange).
-- `none` stands for nil, for an error or for a panic, as each file says. Signed integers are ℤ over
-- the native numbers; a cast to uint32 keeps the low 32 bits. A duration is a number of nanoseconds.
--
-- Fuel: the decimal of n is printed with fuel n + 1, more than it has digits. The schedule of
-- State.Subscriber.Progress, every schedule of Controlplane.Lifecycle once the context is done, and
-- every schedule of Controlplane.Main once its signal is taken, further signals aside, is bounded
-- by a measure that every step makes smaller.
--
-- Parameters, for code outside the repository: `net.ParseIP` and the printing of addresses (Net);
-- k8s.io/kubernetes/pkg/util/iptables (Iptables, with the laws IsReliable: calls succeed but for
-- the deletion of a chain, and a rule is there exactly after it was ensured and until it is
-- deleted; its IsNotFoundError reads the error's text, which panics for nil, as in RemoveIP after a
-- deletion that succeeds); the snapshot cache of go-control-plane (SnapshotCache, with the law that what was set
-- for a node is there); its index of resources by name (ResourceIndex, with the laws that a name of
-- no resource is not found and the name of one is found as that one); client-go with its label
-- requirements (ClientGo) and net.Listen (Network), without laws; and logr (Logr, with the law that
-- a message is logged at its verbosity). The informer of the redirect daemon adds a service once,
-- updates from the stored object and deletes with the stored addresses (Feed). Calls of libraries
-- return; a panic ends the process.
--
-- Not modelled: the calls of the loggers; the error branches of packing messages into anypb and of
-- making a snapshot of the three resource types; the gRPC services themselves; the parsing of flags;
-- hack; bpf, which is C.
pub mod Prelude
pub mod Kube
pub mod State
pub mod Redirect
pub mod Wellknown
pub mod Clients
pub mod Logger
pub mod Commands
pub mod Translations
pub mod Controlplane
mod Tests
