-- ===== src/Tests/Controlplane/Signals.antt =====
-- `main` of the control plane, with a signal that arrives while it runs.
use lightpath.Prelude.{
  ◌≡◌, refl, ◌≤◌, true, false, String, none, some, is_some, List, [], ◌∷◌, ◌⊎◌, string_eq,
}
use lightpath.Prelude.MapRange.{in_order}
use lightpath.Commands.{Build, ControlplaneFlags}
use lightpath.Controlplane.Main.{
  Process, Action, signal, take, set_up, finish, act, is_ended, main_step, main_run, new_process,
}
use lightpath.Controlplane.Main.Ending.{moves, is_signal, main_run-ends}
use lightpath.Controlplane.Main.Signals.{Ends, main_run-can_end}
use lightpath.Controlplane.Lifecycle.{
  start_informers, stop_informers, start_server, stop_server, stopped_server, check, updated, wait,
  life_step, all_done,
}
use lightpath.Clients.{create_clients, label_selector}
use lightpath.Controlplane.Setup.{setup}
use lightpath.Tests.Controlplane.{one_node}
use lightpath.Tests.Controlplane.Goroutines.{client_go, open_network}

abbrev Act : Type 0
Act = Action one_node open_network client_go in_order String

abbrev State : Type 0
State = Process one_node open_network client_go in_order String

abbrev build : Build
build = record { commit = "abc"; date = "today"; tag = "v1" }

abbrev flags : ControlplaneFlags
flags = record { metric_port = 9000; node_id = "k8s"; host = "127.0.0.1:18000"; kubeconfig = "" }

process_after : State → List Act → State
unfolding main_run
process_after p schedule =
    elim (main_run one_node open_network client_go in_order String (λ ads. none) build flags tt tt p
      schedule) [ none ↦ p | some q ↦ q ]

abbrev start : State
start = new_process one_node open_network client_go in_order String

abbrev interrupted : List Act
interrupted =
    set_up ∷ act start_informers ∷ signal ∷ act start_server ∷ act check ∷ signal ∷ take ∷ []

abbrev ending : List Act
ending =
    act stop_informers
    ∷ signal
    ∷ act stop_server
    ∷ act updated
    ∷ act stopped_server
    ∷ act check
    ∷ act wait
    ∷ finish
    ∷ []

main_run-ends_example :
    (moves one_node open_network client_go in_order String ending ≤ 14)
    × ((is_ended one_node open_network client_go in_order String
            (process_after (process_after start interrupted) ending).phase
          ≡ true)
        ⊎ ((a : Act) × (is_signal one_node open_network client_go in_order String a ≡ false)
            × (is_some (
                  main_step one_node open_network client_go in_order String
                    (λ ads. none)
                    build
                    flags
                    tt
                    tt
                    (process_after (process_after start interrupted) ending)
                    a)
                ≡ true)))
unfolding process_after main_step main_run setup create_clients string_eq label_selector life_step
    all_done
main_run-ends_example =
    main_run-ends one_node open_network client_go in_order String (λ ads. none) build flags tt tt
      interrupted ending (process_after start interrupted)
      (process_after (process_after start interrupted) ending) refl refl refl

-- Here the second signal is dropped, and the first is not taken yet.
abbrev waiting : List Act
waiting = signal ∷ set_up ∷ signal ∷ act start_server ∷ []

main_run-can_end_example :
    Ends one_node open_network client_go in_order String
      (λ ads. none)
      build
      flags
      tt
      tt
      (process_after start waiting)
      15
unfolding process_after main_step main_run setup create_clients string_eq label_selector life_step
main_run-can_end_example =
    main_run-can_end one_node open_network client_go in_order String (λ ads. none) build flags tt tt
      waiting (process_after start waiting) refl refl
