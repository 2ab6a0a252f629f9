-- ===== src/Tests/Controlplane/Goroutines.antt =====
-- The goroutines of the control plane, and what they start from.
use lightpath.Prelude.{◌≡◌, refl, String, true, none, some, List, [], ◌∷◌, inr, ◌&&◌, string_eq}
use lightpath.Prelude.MapRange.{in_order}
use lightpath.Wellknown.{lightpath_proxy_name}
use lightpath.Clients.{ClientGo, create_clients, label_selector, succeeds}
use lightpath.Controlplane.Lifecycle.{
  stopped, exits, leaves, Life, Action, start_informers, stop_informers, start_server,
  serve_returns, receive, check, updated, wait, life_step, life_run, new_life, all_done, may_return,
  informers_step, server_step, loop_step,
}
use lightpath.Controlplane.Lifecycle.Order.{returned-done}
use lightpath.Controlplane.Setup.{Network, setup, setup_lem, IsSetUp}
use lightpath.Tests.Controlplane.{one_node, one_node-IsLawful}

-- The port is taken away from the server while the loop updates.
abbrev pub failing : List (Action String)
failing =
    start_informers
    ∷ start_server
    ∷ check
    ∷ serve_returns (some "closed")
    ∷ receive
    ∷ updated
    ∷ check
    ∷ stop_informers
    ∷ wait
    ∷ []

life_after : Life String → List (Action String) → Life String
unfolding life_run
life_after l schedule = elim (life_run String l schedule) [ none ↦ l | some m ↦ m ]

returned-done_example :
    ((life_after (new_life String) failing).done ≡ true)
    × ((life_after (new_life String) failing).informers ≡ stopped)
    × ((life_after (new_life String) failing).server ≡ exits)
    × ((life_after (new_life String) failing).loop ≡ leaves)
unfolding life_after life_step informers_step server_step loop_step all_done may_return
returned-done_example =
    returned-done String failing (life_after (new_life String) failing) refl refl

abbrev pub client_go : ClientGo
client_go = record {
  State = Unit {0};
  Config = String;
  Client = String;
  EventsGetter = String;
  Requirement = String;
  Error = String;
  in_cluster_config = λ s. (s, inr "cluster");
  client_config = λ path s. (s, inr path);
  new_for_config = λ config s. (s, inr config);
  core_v1 = λ client. client;
  new_requirement = λ key op vals. inr key;
}

abbrev pub open_network : Network
open_network = record {
  State = Unit {0};
  Listener = String;
  Error = String;
  listen = λ network host s. inr host;
}

setup_lem_example :
    (succeeds (
        setup one_node open_network client_go in_order
          (λ ads. none)
          ""
          "k8s"
          "127.0.0.1:18000"
          tt
          tt)
      ≡ (succeeds (create_clients client_go "" tt).1
          && (true && succeeds (label_selector client_go lightpath_proxy_name))))
    × IsSetUp one_node open_network client_go in_order "k8s" (
        setup one_node open_network client_go in_order
          (λ ads. none)
          ""
          "k8s"
          "127.0.0.1:18000"
          tt
          tt)
setup_lem_example =
    setup_lem one_node open_network client_go in_order one_node-IsLawful (λ ads. none) "" "k8s"
      "127.0.0.1:18000" tt tt
