-- ===== src/Redirect/Daemon/Kept.antt =====
-- What the callbacks keep of the tables: the jumps, their absence, and the chain.
use text.Mathlib.TextEquality.{eq_iff}
use lightpath.Prelude.{◌≡◌, ◌≢◌, Bool, String, true, false, Option, some, List, string_eq, arith}
use lightpath.Prelude.Int.{ℤ}
use lightpath.Prelude.MapRange.{MapRange}
use lightpath.Redirect.{Net}
use lightpath.Redirect.Iptables.{
  append, Iptables, Tables, table_nat, chain_prerouting, chain_output, lightpath_chain_name,
  jump_chain_args, redir_args, prereqs, add_ip, remove_ip, iptables_redirect,
}
use lightpath.Redirect.Iptables.Lawful.{IsReliable, iptables_redirect-IsLawful}
use lightpath.Redirect.Iptables.Cleanup.{NoJumps, HasChain}
use lightpath.Redirect.Iptables.Prereqs.{JumpsFrom, prereqs-JumpsFrom}
use lightpath.Redirect.Informer.{Notification, notify_all}
use lightpath.Redirect.Informer.Frame.{notify_all-keeps}

module _ (T : Iptables) (L : IsReliable T) (N : Net) (port : ℤ) where
  -- Whether both tables have a rule in a chain.
  abbrev Standing : String → List String → Bool → Tables T → Type 0
  Standing c a b s =
      (L.holds s.iptables table_nat c a ≡ b) × (L.holds s.ip6tables table_nat c a ≡ b)

  add_ip-Standing :
      (c : String) (a : List String) (b : Bool)
      → c ≢ lightpath_chain_name
      → (comment : String) (i : N.Ip) (s : Tables T) → Standing c a b s
      → Standing c a b (add_ip T N port comment i s).0
  unfolding add_ip
  add_ip-Standing c a b other comment i s (v4, v6) = ground (
    arith,
    L.holds-ensure_rule append table_nat lightpath_chain_name (redir_args T N port comment i)
        table_nat c a s.iptables,
    L.holds-ensure_rule append table_nat lightpath_chain_name (redir_args T N port comment i)
        table_nat c a s.ip6tables,
  )

  -- No removal returns.
  removes :
      (comment : String) (i : N.Ip) (s t : Tables T) (err : Option T.Error)
      → remove_ip T N port comment i s ≡ some (t, err)
      → ⊥
  removes comment i s t err e =
      let panics = (iptables_redirect-IsLawful T L N port).remove_ip_panics comment i s in
      ground (arith, panics, e)

  remove_ip-Standing :
      (c : String) (a : List String) (b : Bool)
      → c ≢ lightpath_chain_name
      → (comment : String) (i : N.Ip) (s t : Tables T) (err : Option T.Error)
      → remove_ip T N port comment i s ≡ some (t, err)
      → Standing c a b s
      → Standing c a b t
  remove_ip-Standing c a b other comment i s t err e h = absurd (removes comment i s t err e)

  notify_all-Standing :
      (r : MapRange) (c : String) (a : List String) (b : Bool)
      → c ≢ lightpath_chain_name
      → (ns : List Notification) (s t : Tables T)
      → notify_all N (iptables_redirect T N port) r ns s ≡ some t
      → Standing c a b s
      → Standing c a b t
  notify_all-Standing r c a b other =
      notify_all-keeps N (iptables_redirect T N port) (Standing c a b) (add_ip-Standing c a b other)
        (remove_ip-Standing c a b other) r

  -- Whether both chains of both tables jump to the chain of the redirects.
  abbrev Jumping : Bool → Tables T → Type 0
  Jumping b s =
      Standing chain_prerouting jump_chain_args b s × Standing chain_output jump_chain_args b s

  notify_all-Jumping :
      (r : MapRange) (b : Bool) (ns : List Notification) (s t : Tables T)
      → notify_all N (iptables_redirect T N port) r ns s ≡ some t
      → Jumping b s
      → Jumping b t
  notify_all-Jumping r b ns s t e (pre, out) = (
    notify_all-Standing r chain_prerouting jump_chain_args b
        (ground (arith, eq_iff chain_prerouting lightpath_chain_name)) ns s t e pre,
    notify_all-Standing r chain_output jump_chain_args b
        (ground (arith, eq_iff chain_output lightpath_chain_name)) ns s t e out,
  )

  -- The callbacks keep the jumps of `Prereqs` in both families.
  pub notify_all-JumpsFrom :
      (r : MapRange) (ns : List Notification) (s t : Tables T)
      → notify_all N (iptables_redirect T N port) r ns (prereqs T s).0 ≡ some t
      → JumpsFrom T L t.iptables × JumpsFrom T L t.ip6tables
  notify_all-JumpsFrom r ns s t e =
      let (_, (pre4, out4), (pre6, out6)) = prereqs-JumpsFrom T L s in
      let (pre, out) = notify_all-Jumping r true ns _ t e ((pre4, pre6), (out4, out6)) in
      ((pre.0, out.0), (pre.1, out.1))

  add_ip-HasChain :
      (comment : String) (i : N.Ip) (s : Tables T)
      → HasChain T L s
      → HasChain T L (add_ip T N port comment i s).0
  unfolding add_ip
  add_ip-HasChain comment i s (v4, v6) = grind (arith, v4, v6, L.has_chain-ensure_rule)

  remove_ip-HasChain :
      (comment : String) (i : N.Ip) (s t : Tables T) (err : Option T.Error)
      → remove_ip T N port comment i s ≡ some (t, err)
      → HasChain T L s
      → HasChain T L t
  remove_ip-HasChain comment i s t err e h = absurd (removes comment i s t err e)

  pub prereqs-HasChain : (s : Tables T) → HasChain T L (prereqs T s).0
  unfolding prereqs
  prereqs-HasChain s = grind (
    arith, L.ensure_chain_succeeds, L.ensure_rule_succeeds, L.has_chain-ensure_chain,
    L.has_chain-ensure_rule,
  )

  -- The callbacks keep the chain.
  pub notify_all-HasChain :
      (r : MapRange) (ns : List Notification) (s t : Tables T)
      → notify_all N (iptables_redirect T N port) r ns s ≡ some t
      → HasChain T L s
      → HasChain T L t
  notify_all-HasChain =
      notify_all-keeps N (iptables_redirect T N port) (HasChain T L) add_ip-HasChain
        remove_ip-HasChain

  -- The callbacks make no jump.
  pub notify_all-NoJumps :
      (r : MapRange) (ns : List Notification) (s t : Tables T)
      → notify_all N (iptables_redirect T N port) r ns s ≡ some t
      → NoJumps T L s.iptables × NoJumps T L s.ip6tables
      → NoJumps T L t.iptables × NoJumps T L t.ip6tables
  notify_all-NoJumps r ns s t e ((pre4, out4), (pre6, out6)) =
      let (pre, out) = notify_all-Jumping r false ns s t e ((pre4, pre6), (out4, out6)) in
      ((pre.0, out.0), (pre.1, out.1))
