-- ===== src/Tests/Redirect/Daemons.antt =====
-- The redirect daemon, from its start to its end.

use lightpath.Prelude.{
  ◌≡◌, refl, String, ◌<>◌, true, false, none, some, is_some, List, [], ◌∷◌, inl, inr, arith,
  string_eq,
}
use lightpath.Prelude.Dict.{Dict, lookup, insert}
use lightpath.Prelude.MapRange.{in_order}
use lightpath.Prelude.Int.{pos}
use lightpath.Kube.{Service}
use lightpath.Clients.{ClientGo, create_clients, label_selector}
use lightpath.Redirect.Iptables.{Tables, prereqs}
use lightpath.Redirect.Iptables.Prereqs.{JumpsFrom}
use lightpath.Redirect.Iptables.Cleanup.{NoJumps}
use lightpath.Redirect.Informer.{
  Notification, added, updated, deleted, notify_all, History, add, update, feeds, quiet,
}
use lightpath.Redirect.Informer.Panics.{notify_all-is_some}
use lightpath.Redirect.Informer.Synced.{IsSynced}
use lightpath.Redirect.Daemon.{Course, first_unsynced, RunError, errorf, redirect_impl, run}
use lightpath.Redirect.Daemon.Watching.{watching_lem}
use lightpath.Redirect.Daemon.Run.{run-is_some, run-NoJumps, run_unsynced}
use lightpath.Tests.Redirect.{
  text_net, tables, tables-IsReliable, empty, redirect, has, service_at, first-IsCanonical,
  second-IsCanonical, redirect-IsLawful,
}

abbrev pub first : Service
first = service_at ("10.0.0.1" ∷ [])

abbrev pub second : Service
second = service_at ("10.0.0.1" ∷ "10.0.0.2" ∷ [])

-- A service is added and gets a second address.
abbrev news : List Notification
news = added first ∷ updated first second ∷ []

abbrev last_store : Dict String Service
last_store = ("shop/web", second) ∷ []

news-History : History [] news last_store
unfolding lookup insert string_eq
news-History = feeds (add refl) (feeds (update refl) quiet)

abbrev Synced : Tables tables → Type 0
Synced = IsSynced text_net redirect has last_store

-- A service with an address is deleted.
abbrev gone : List Notification
gone = added first ∷ deleted first ∷ []

notify_all-is_some_example : is_some (notify_all text_net redirect in_order gone empty) ≡ false
unfolding string_eq
notify_all-is_some_example =
    notify_all-is_some text_net redirect has redirect-IsLawful in_order gone empty

watching_lem_example :
    (t : Tables tables) × (notify_all text_net redirect in_order news (prereqs tables empty).0
      ≡ some t)
    × JumpsFrom tables tables-IsReliable t.iptables
    × JumpsFrom tables tables-IsReliable t.ip6tables
    × Synced t
unfolding string_eq
watching_lem_example =
    watching_lem tables tables-IsReliable text_net (pos 1666) in_order news last_store empty
      (λ key j. ground arith) news-History refl (first-IsCanonical, (second-IsCanonical, tt))

-- A configuration is its path; only a cluster and one file have any.
abbrev pub client_go : ClientGo
client_go = record {
  State = Unit {0};
  Config = String;
  Client = String;
  EventsGetter = String;
  Requirement = String;
  Error = String;
  in_cluster_config = λ s. (s, inr "cluster");
  client_config = λ path s. (s, inl ("no file " <> path));
  new_for_config = λ config s. (s, inr config);
  core_v1 = λ client. client;
  new_requirement = λ key op vals. inr key;
}

abbrev Outcome : Type 0
Outcome = RunError client_go tables text_net in_order

abbrev synced_course : Course
synced_course = record { early = news; synced = ("*v1.Service", true) ∷ []; late = [] }

run-NoJumps_example :
    (t u : Tables tables) × (run client_go tables text_net in_order "" "iptables" synced_course tt
        empty
      ≡ some (t, none))
    × (notify_all text_net
          (redirect_impl client_go tables text_net in_order)
          in_order
          (added first ∷ [])
          t
        ≡ some u)
    × NoJumps tables tables-IsReliable u.iptables
    × NoJumps tables tables-IsReliable u.ip6tables
unfolding create_clients label_selector string_eq first_unsynced
run-NoJumps_example =
    run-NoJumps client_go tables text_net in_order tables-IsReliable "" "iptables" synced_course tt
      empty refl refl (added first ∷ []) refl refl refl

abbrev unsynced_course : Course
unsynced_course = record { early = news; synced = ("*v1.Service", false) ∷ []; late = [] }

run_unsynced_example :
    (t : Tables tables) × (run client_go tables text_net in_order "" "iptables" unsynced_course tt
        empty
      ≡ some (t, some (errorf ("failed to sync cache for " <> "*v1.Service"))))
    × JumpsFrom tables tables-IsReliable t.iptables
    × JumpsFrom tables tables-IsReliable t.ip6tables
unfolding create_clients label_selector string_eq first_unsynced
run_unsynced_example =
    run_unsynced client_go tables text_net in_order tables-IsReliable "" "iptables" unsynced_course
      tt empty refl refl "*v1.Service" refl

run-is_some_example :
    is_some (
      run client_go tables text_net in_order "" "iptables"
        (record { early = news; synced = ("*v1.Service", true) ∷ []; late = deleted second ∷ [] })
        tt
        empty)
    ≡ false
unfolding create_clients label_selector string_eq first_unsynced
run-is_some_example =
    run-is_some client_go tables text_net in_order tables-IsReliable "" "iptables"
      (record { early = news; synced = ("*v1.Service", true) ∷ []; late = deleted second ∷ [] }) tt
      empty refl
