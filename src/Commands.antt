-- ===== src/Commands.antt =====
-- The flags and `main` of cmd/redirect/cmd.go, the flags of cmd/controlplane/cmd.go, and
-- internal/version/version.go.
pub mod Signals
pub mod Interrupts
use lightpath.Prelude.{
  ◌≡◌, ℕ, String, ◌<>◌, ◌&&◌, Option, none, some, List, [], ◌∷◌, arith, string_eq,
}
use lightpath.Prelude.MapRange.{MapRange}
use lightpath.Wellknown.{lightpath_proxy_name}
use lightpath.Clients.{ClientGo, create_clients, label_selector, succeeds}
use lightpath.Redirect.{Net}
use lightpath.Redirect.Iptables.{Iptables, Tables}
use lightpath.Redirect.Daemon.{Course, RunError, run}
use lightpath.Redirect.Daemon.Run.{can_start}

-- The variables that the linker sets.
pub record Build : Type 0 where
  pub commit : String
  pub date : String
  pub tag : String

unfoldable pub get_version : Build → String
get_version b = "tag=" <> b.tag <> " commit=" <> b.commit <> " date=" <> b.date

-- The flags of the redirect daemon, and their values when none is given.
pub record RedirectFlags : Type 0 where
  pub kubeconfig : String
  pub mode : String

abbrev redirect_flags : RedirectFlags
redirect_flags = record { kubeconfig = ""; mode = "iptables" }

-- Those of the control plane.
pub record ControlplaneFlags : Type 0 where
  pub metric_port : ℕ
  pub node_id : String
  pub host : String
  pub kubeconfig : String

abbrev controlplane_flags : ControlplaneFlags
controlplane_flags = record {
  metric_port = 9000;
  node_id = "k8s";
  host = "127.0.0.1:18000";
  kubeconfig = "";
}

module _ (G : ClientGo) (T : Iptables) (N : Net) (r : MapRange) where
  -- What is logged.
  pub data Line : Type 0 where
    info : String → Line
    exited_with_error : RunError G T N r → Line

  logged : Option (RunError G T N r) → List Line
  logged none = []
  logged (some e) = exited_with_error e ∷ []

  -- The tables and the log; `none` where the run panics.
  unfoldable main :
      Build → RedirectFlags → Course → G.State → Tables T → Option (Tables T × List Line)
  unfolding get_version logged
  main build flags course kube s = elim (run G T N r flags.kubeconfig flags.mode course kube s) [
    | none ↦ none
    | some (t, err) ↦ some (t, info (get_version build) ∷ logged err)
  ]

  -- Without flags, the daemon starts wherever a client and the label selector can be made.
  default-can_start :
      (kube : G.State)
      → can_start G T N r redirect_flags.kubeconfig redirect_flags.mode kube ≡ (
          succeeds (create_clients G "" kube).1 && succeeds (label_selector G lightpath_proxy_name))
  default-can_start kube = ground arith
