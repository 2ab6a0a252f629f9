-- ===== src/Logger.antt =====
-- pkg/logger/logger.go, over the logging library logr. A format string is handed on as the message, and
-- the arguments as its keys and values.
use lightpath.Prelude.{◌≡◌, ℕ, String, List, ◌∷◌, map, leb, if◌then◌else◌, arith}

-- `logr.Logger` with klogr, and `fmt.Sprintf("%v", v)` for a value.
pub record Logr : Type 1 where
  pub Sink : Type 0
  pub Value : Type 0
  pub Error : Type 0
  pub State : Type 0
  -- `klogr.NewWithOptions(klogr.WithFormat(klogr.FormatKlog))`
  pub klogr : Sink
  pub with_name : String → Sink → Sink
  pub with_values : List Value → Sink → Sink
  -- A sink whose messages are this much more verbose.
  pub v : ℕ → Sink → Sink
  pub info : Sink → String → List Value → State → State
  pub error : Sink → Error → String → List Value → State → State
  pub text : String → Value
  pub sprint : Value → String

-- What a message at a verbosity adds to the log.
pub record IsLeveled (G : Logr) : Type 0 where
  pub verbosity : ℕ
  pub lines : G.State → List (String × List G.Value)
  pub lines-info :
      (n : ℕ) (sink : G.Sink) (message : String) (values : List G.Value) (s : G.State)
      → lines (G.info (G.v n sink) message values s)
        ≡ (if leb n verbosity then (message, values) ∷ lines s else lines s)

module _ (G : Logr) where
  pub record Logger : Type 0 where
    pub name : String
    pub logr : G.Sink

  abbrev new : String → Logger
  new name = record { name = name; logr = G.with_name name G.klogr }

  abbrev with_values : List G.Value → Logger → Logger
  with_values with_keys_and_values l = record {
    name = l.name;
    logr = G.with_values with_keys_and_values l.logr;
  }

  abbrev get_logger : Logger → G.Sink
  get_logger l = l.logr

  sanitize : List G.Value → List G.Value
  sanitize = map (λ value. G.text (G.sprint value))

  debugf : Logger → String → List G.Value → G.State → G.State
  unfolding sanitize
  debugf l format args s = G.info (G.v 4 l.logr) format (sanitize args) s

  infof : Logger → String → List G.Value → G.State → G.State
  unfolding sanitize
  infof l format args s = G.info (G.v 2 l.logr) format (sanitize args) s

  warnf : Logger → String → List G.Value → G.State → G.State
  unfolding sanitize
  warnf l format args s = G.info (G.v 1 l.logr) format (sanitize args) s

  errorf : Logger → String → List G.Value → G.State → G.State
  unfolding sanitize
  errorf l format args s = G.info (G.v 0 l.logr) format (sanitize args) s

  unfoldable error : Logger → G.Error → String → List G.Value → G.State → G.State
  unfolding sanitize
  error l err format args s = G.error (G.v 0 l.logr) err format (sanitize args) s

  module _ (L : IsLeveled G) (l : Logger) (format : String) (args : List G.Value)
      (s : G.State) where
    -- The format as it stands, with the printed arguments.
    line : String × List G.Value
    unfolding sanitize
    line = (format, sanitize args)

    -- Every method logs the format with the printed arguments at its level, and an error message is
    -- logged at every verbosity.
    levels :
        (L.lines (errorf l format args s) ≡ line ∷ L.lines s)
        × (L.lines (warnf l format args s)
            ≡ (if leb 1 L.verbosity then line ∷ L.lines s else L.lines s))
        × (L.lines (infof l format args s)
            ≡ (if leb 2 L.verbosity then line ∷ L.lines s else L.lines s))
        × (L.lines (debugf l format args s)
            ≡ (if leb 4 L.verbosity then line ∷ L.lines s else L.lines s))
    unfolding errorf warnf infof debugf line
    levels = (
      ground (arith, L.lines-info 0 l.logr format (sanitize args) s),
      L.lines-info 1 l.logr format (sanitize args) s,
      L.lines-info 2 l.logr format (sanitize args) s,
      L.lines-info 4 l.logr format (sanitize args) s,
    )
