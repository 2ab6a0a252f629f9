-- ===== src/Redirect/Iptables/Prereqs.antt =====
-- What `Prereqs` sets up.
use lightpath.Prelude.{◌≡◌, true, none, arith, string_eq}
use lightpath.Redirect.Iptables.{
  Iptables, Tables, table_nat, chain_prerouting, chain_output, jump_chain_args, prereqs,
}
use lightpath.Redirect.Iptables.Lawful.{IsReliable}

module _ (T : Iptables) (L : IsReliable T) where
  -- The jump to the chain stands in both chains of the tables of a family.
  abbrev pub JumpsFrom : T.State → Type 0
  JumpsFrom t =
      (L.holds t table_nat chain_prerouting jump_chain_args ≡ true)
      × (L.holds t table_nat chain_output jump_chain_args ≡ true)

  -- Over reliable iptables `Prereqs` returns nil, and both families then jump to the chain of the
  -- redirects from PREROUTING and from OUTPUT.
  pub prereqs-JumpsFrom :
      (s : Tables T)
      → ((prereqs T s).1 ≡ none)
        × JumpsFrom (prereqs T s).0.iptables
        × JumpsFrom (prereqs T s).0.ip6tables
  unfolding prereqs
  prereqs-JumpsFrom s =
      grind (arith, L.ensure_chain_succeeds, L.ensure_rule_succeeds, L.holds-ensure_rule)
