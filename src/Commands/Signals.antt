-- ===== src/Commands/Signals.antt =====
-- The signal handler of cmd/controlplane/cmd.go and cmd/redirect/cmd.go, which is the same in both.
use lightpath.Prelude.{Bool, true, false, ◌&&◌, not, Option, none, some, if◌then◌else◌}

-- The channel of signals, which holds one, and the goroutine that takes one from it.
pub record SignalHandler : Type 0 where
  pub buffered : Bool
  pub taken : Bool

-- `signal.Notify` does not wait for room in the channel: a further signal is dropped.
unfoldable pub notify_signal : SignalHandler → SignalHandler
notify_signal h = record h { buffered = true }

-- The goroutine takes one signal, once.
unfoldable pub take_signal : SignalHandler → Option SignalHandler
take_signal h =
    if h.buffered && not h.taken then some (record { buffered = false; taken = true }) else none
