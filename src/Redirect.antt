-- ===== src/Redirect.antt =====
-- pkg/redirect/redirect.go: the interface, over the addresses of package net, and what its clients
-- rely on.
pub mod Diff
pub mod Handler
pub mod Informer
pub mod Iptables
pub mod Daemon
use lightpath.Prelude.{◌≡◌, String, Bool, ◌&&◌, ◌||◌, not, Option, none, Eq, ◌==◌, string_eq}

-- `net.ParseIP`, the method `String`, and whether `To4` is not nil. An `Ip` is a value that
-- `ParseIP` returns, nil included.
pub record Net : Type 1 where
  pub Ip : Type 0
  pub parse_ip : String → Ip
  pub ip_string : Ip → String
  pub is_v4 : Ip → Bool
  -- Values that are printed alike are alike.
  pub ip_string_inj : (i j : Ip) → ip_string i ≡ ip_string j → i ≡ j

-- An implementation, over a state of its own. An error is `none` where the code returns nil, and
-- `remove_ip` is `none` where the code panics.
pub record Redirect (N : Net) : Type 1 where
  pub State : Type 0
  pub Error : Type 0
  pub prereqs : State → State × Option Error
  pub add_ip : String → N.Ip → State → State × Option Error
  pub remove_ip : String → N.Ip → State → Option (State × Option Error)
  pub cleanup : State → State × Option Error

-- The same text, and addresses that are printed alike.
abbrev pub same_rule : (N : Net) → String → N.Ip → String → N.Ip → Bool
same_rule N c i d j = c == d && N.ip_string i == N.ip_string j

-- What the iptables implementation gives its clients of the rules that a state has, while no command
-- fails.
pub record IsLawful (N : Net) (R : Redirect N) (has : R.State → String → N.Ip → Bool) : Type 0 where
  pub has-add_ip :
      (c d : String) (i j : N.Ip) (s : R.State)
      → has (R.add_ip c i s).0 d j ≡ (same_rule N d j c i || has s d j)
  pub remove_ip_panics : (c : String) (i : N.Ip) (s : R.State) → R.remove_ip c i s ≡ none
