-- ===== src/Tests/Redirect/Interrupts.antt =====
-- The redirect daemon, with signals between the callbacks.
use lightpath.Prelude.{◌≡◌, refl, true, none, some, List, [], ◌∷◌, string_eq}
use lightpath.Redirect.Diff.{svc_ip_diff}
use lightpath.Prelude.Dict.{insert, lookup}
use lightpath.Prelude.MapRange.{in_order}
use lightpath.Commands.Interrupts.{
  Action, calls, syncs, signal, take, cleans, Daemon, daemon_step, daemon_run, new_daemon,
}
use lightpath.Commands.Interrupts.Refines.{course_of, daemon_run-watch}
use lightpath.Commands.Interrupts.Taken.{signalled}
use lightpath.Redirect.Daemon.{watch, first_unsynced, stop}
use lightpath.Commands.Signals.{take_signal, notify_signal}
use lightpath.Redirect.Iptables.{cleanup}
use lightpath.Redirect.Informer.{added, updated, notify}
use lightpath.Tests.Redirect.{text_net, tables, empty}
use lightpath.Tests.Redirect.Daemons.{client_go, first, second}

abbrev interrupted : List Action
interrupted =
    calls (added first)
    ∷ signal
    ∷ syncs (("*v1.Service", true) ∷ [])
    ∷ calls (updated first second)
    ∷ take
    ∷ signal
    ∷ cleans
    ∷ []

daemon_after : List Action → Daemon client_go tables text_net in_order
unfolding daemon_run
daemon_after schedule =
    elim (daemon_run client_go tables text_net in_order
      (new_daemon client_go tables text_net in_order empty) schedule) [
        | none ↦ new_daemon client_go tables text_net in_order empty
        | some d ↦ d
      ]

daemon_run-watch_example :
    (signalled interrupted ≡ true)
    × ((daemon_after interrupted).handler.taken ≡ true)
    × (watch client_go tables text_net in_order (course_of interrupted) empty
        ≡ some ((daemon_after interrupted).tables, none))
unfolding daemon_after daemon_step notify first_unsynced take_signal notify_signal stop cleanup
    svc_ip_diff insert lookup string_eq
daemon_run-watch_example =
    daemon_run-watch client_go tables text_net in_order empty interrupted (daemon_after interrupted)
      none refl refl
