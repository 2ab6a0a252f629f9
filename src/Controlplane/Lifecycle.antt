-- ===== src/Controlplane/Lifecycle.antt =====
-- The goroutines of `run` (cmd/controlplane/controlplane.go) and of `Start` (pkg/server/server.go),
-- from their start to the return of `run`. A library call that returns is one action. A panic of the
-- translation is not among them.
pub mod Ending
pub mod Order
use lightpath.Prelude.{
  Bool, true, false, ◌&&◌, ◌||◌, not, Option, none, some, is_some, List, [], ◌∷◌, if◌then◌else◌,
}

-- The goroutine that starts the informers and waits for the context.
pub data Informers : Type 0 where
  created started stopped : Informers

-- `Start`: before its select, at it, in `GracefulStop`, and after its return.
pub data Server : Type 0 where
  begins selects stops exits : Server

-- The loop of updates: at its select, in `updateSnapshot`, and after its return.
pub data Loop : Type 0 where
  checks updates leaves : Loop

module _ (E : Type 0) where
  -- The goroutine that serves. It holds what `Serve` has returned until `Start` receives it: the
  -- channel has no buffer.
  pub data Serve : Type 0 where
    idle serving : Serve
    sends : Option E → Serve
    sent : Option E → Serve

  pub record Life : Type 0 where
    -- Whether the context is done.
    pub done : Bool
    pub informers : Informers
    pub server : Server
    pub serve : Serve
    pub loop : Loop
    -- Whether `run` has returned.
    pub returned : Bool

  -- What the goroutines do next, a signal that cancels the context included.
  pub data Action : Type 0 where
    cancel start_informers stop_informers start_server : Action
    serve_returns : Option E → Action
    stop_server stopped_server receive : Action
    check updated wait : Action

  abbrev pub is_cancel : Action → Bool
  is_cancel cancel = true
  is_cancel _ = false

  -- When the wait of `run` on its three goroutines ends.
  unfoldable pub all_done : Informers → Server → Loop → Bool
  all_done stopped exits leaves = true
  all_done _ _ _ = false

  -- `GracefulStop` makes `Serve` return nil.
  unfoldable pub may_return : Server → Option E → Bool
  may_return s (some e) = true
  may_return stops none = true
  may_return exits none = true
  may_return _ none = false

  unfoldable pub informers_step : Action → Life → Option Life
  informers_step start_informers l = elim l.informers [
    | created ↦ some (record l { informers = started })
    | _ ↦ none
  ]
  informers_step stop_informers l = elim l.informers [
    | started ↦ if l.done then some (record l { informers = stopped }) else none
    | _ ↦ none
  ]
  informers_step _ l = none

  -- After the error is received, it cancels the context.
  unfoldable pub server_step : Action → Life → Option Life
  server_step start_server l = elim l.server [
    | begins ↦ some (record l { server = selects; serve = serving })
    | _ ↦ none
  ]
  server_step (serve_returns result) l = elim l.serve [
    | serving ↦
        if may_return l.server result then some (record l { serve = sends result }) else none
    | _ ↦ none
  ]
  server_step stop_server l = elim l.server [
    | selects ↦ if l.done then some (record l { server = stops }) else none
    | _ ↦ none
  ]
  server_step stopped_server l = elim l.server [
    | stops ↦ some (record l { server = exits })
    | _ ↦ none
  ]
  server_step receive l = elim l.server [
    | selects ↦ elim l.serve [
      | sends result ↦
          some (record l { server = exits; serve = sent result; done = l.done || is_some result })
      | _ ↦ none
    ]
    | _ ↦ none
  ]
  server_step _ l = none

  unfoldable pub loop_step : Action → Life → Option Life
  loop_step check l = elim l.loop [
    | checks ↦ some (record l { loop = if l.done then leaves else updates })
    | _ ↦ none
  ]
  loop_step updated l = elim l.loop [ updates ↦ some (record l { loop = checks }) | _ ↦ none ]
  loop_step _ l = none

  unfoldable pub life_step : Life → Action → Option Life
  unfolding informers_step server_step loop_step
  life_step l cancel = if l.done then none else some (record l { done = true })
  life_step l start_informers = informers_step start_informers l
  life_step l stop_informers = informers_step stop_informers l
  life_step l check = loop_step check l
  life_step l updated = loop_step updated l
  life_step l wait =
      if all_done l.informers l.server l.loop && not l.returned
      then some (record l { returned = true })
      else none
  life_step l a = server_step a l

  unfoldable pub life_run : Life → List Action → Option Life
  life_run l [] = some l
  life_run l (a ∷ rest) = elim (life_step l a) [ none ↦ none | some m ↦ life_run m rest ]

  -- Where `run` has made its goroutines.
  abbrev pub new_life : Life
  new_life = record {
    done = false;
    informers = created;
    server = begins;
    serve = idle;
    loop = checks;
    returned = false;
  }
