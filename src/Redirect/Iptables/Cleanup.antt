-- ===== src/Redirect/Iptables/Cleanup.antt =====
-- What `Cleanup` removes, and which errors it returns.
use text.Mathlib.TextEquality.{eq_iff}
use lightpath.Prelude.{
  Bool-cases, Option-cases, inl, inr, subst, sym, refl, ◌∙◌, ◌≡◌, ◌≢◌, String, true, false, Option,
  none, some, List, [], ◌∷◌, arith, string_eq,
}
use lightpath.Redirect.Iptables.{
  Iptables, Tables, table_nat, chain_prerouting, chain_output, lightpath_chain_name,
  jump_chain_args, clean_all, cleanup_steps, cleanup, last_error,
}
use lightpath.Redirect.Iptables.Lawful.{IsReliable}

module _ (T : Iptables) where
  abbrev OnlyNotFound : Option T.Error → Type 0
  OnlyNotFound none = Unit
  OnlyNotFound (some e) = T.is_not_found_error e ≡ true

  last_error-OnlyNotFound :
      (last err : Option T.Error) → OnlyNotFound last → OnlyNotFound (last_error T last err)
  last_error-OnlyNotFound last none h = h
  last_error-OnlyNotFound last (some e) h = elim (Bool-cases (T.is_not_found_error e)) [
    | inl missing ↦ rw missing missing
    | inr failed ↦ rw failed h
  ]

  clean_all-OnlyNotFound :
      (fs : List (Tables T → Tables T × Option T.Error)) (r : Tables T × Option T.Error)
      → OnlyNotFound r.1
      → OnlyNotFound (clean_all T fs r).1
  unfolding clean_all
  clean_all-OnlyNotFound [] r h = h
  clean_all-OnlyNotFound (f ∷ fs) r h =
      clean_all-OnlyNotFound fs _ (last_error-OnlyNotFound r.1 (f r.0).1 h)

  -- `Cleanup` returns an error only where a rule or chain was not found. Every other failure of
  -- iptables is dropped.
  pub cleanup_only_not_found :
      (s : Tables T) (e : T.Error) → (cleanup T s).1 ≡ some e → T.is_not_found_error e ≡ true
  unfolding cleanup
  cleanup_only_not_found s e h =
      subst OnlyNotFound h (clean_all-OnlyNotFound (cleanup_steps T) (s, none) tt)

chains_differ :
    (chain_prerouting ≢ chain_output)
    × (chain_prerouting ≢ lightpath_chain_name)
    × (chain_output ≢ lightpath_chain_name)
chains_differ = (
  ground (arith, eq_iff chain_prerouting chain_output),
  ground (arith, eq_iff chain_prerouting lightpath_chain_name),
  ground (arith, eq_iff chain_output lightpath_chain_name),
)

module _ (T : Iptables) (L : IsReliable T) where
  -- No jump to the chain of the redirects is left in the tables of a family.
  abbrev pub NoJumps : T.State → Type 0
  NoJumps t =
      (L.holds t table_nat chain_prerouting jump_chain_args ≡ false)
      × (L.holds t table_nat chain_output jump_chain_args ≡ false)

  abbrev without : String → T.State → T.State
  without c t = (T.delete_rule table_nat c jump_chain_args t).0

  cleaned-NoJumps :
      (t : T.State)
      → NoJumps
          (T.delete_chain table_nat lightpath_chain_name
            (without chain_output (without chain_prerouting t))).0
  cleaned-NoJumps t =
      let t₁ = without chain_prerouting t in
      let t₂ = without chain_output t₁ in
      ground (
        arith,
        chains_differ,
        L.holds-delete_chain table_nat lightpath_chain_name table_nat chain_prerouting
            jump_chain_args t₂,
        L.holds-delete_chain table_nat lightpath_chain_name table_nat chain_output jump_chain_args
            t₂,
        L.holds-delete_rule table_nat chain_output jump_chain_args table_nat chain_prerouting
            jump_chain_args t₁,
        L.holds-delete_rule table_nat chain_output jump_chain_args table_nat chain_output
            jump_chain_args t₁,
        L.holds-delete_rule table_nat chain_prerouting jump_chain_args table_nat chain_prerouting
            jump_chain_args t,
      )

  -- An error that is not of a missing rule or chain is dropped.
  abbrev Dropped : Option T.Error → Type 0
  Dropped none = Unit
  Dropped (some e) = T.is_not_found_error e ≡ false

  last_error-Dropped : (last err : Option T.Error) → Dropped err → last_error T last err ≡ last
  last_error-Dropped last none h = refl
  last_error-Dropped last (some e) h = rw h refl

  deletion-Dropped :
      (t : T.State)
      → L.has_chain t table_nat lightpath_chain_name ≡ true
      → Dropped (T.delete_chain table_nat lightpath_chain_name t).1
  deletion-Dropped t there =
      elim (Option-cases (T.delete_chain table_nat lightpath_chain_name t).1) [
        | inl fine ↦ subst Dropped (sym fine) tt
        | inr (e, fails) ↦
            subst Dropped (sym fails)
              (L.delete_chain_fails table_nat lightpath_chain_name t e there fails)
      ]

  -- Both tables have the chain of the redirects.
  abbrev pub HasChain : Tables T → Type 0
  HasChain s =
      (L.has_chain s.iptables table_nat lightpath_chain_name ≡ true)
      × (L.has_chain s.ip6tables table_nat lightpath_chain_name ≡ true)

  bare-Dropped :
      (t : T.State)
      → L.has_chain t table_nat lightpath_chain_name ≡ true
      → Dropped
          (T.delete_chain table_nat lightpath_chain_name
            (without chain_output (without chain_prerouting t))).1
  bare-Dropped t there = deletion-Dropped (without chain_output (without chain_prerouting t)) (
      L.has_chain-delete_rule table_nat chain_output jump_chain_args table_nat lightpath_chain_name
        (without chain_prerouting t)
      ∙ L.has_chain-delete_rule table_nat chain_prerouting jump_chain_args table_nat
          lightpath_chain_name t
      ∙ there)

  -- Over reliable iptables that have the chain, `Cleanup` returns nil, and no family jumps to the
  -- chain any more.
  pub cleanup-NoJumps :
      (s : Tables T)
      → HasChain s
      → ((cleanup T s).1 ≡ none)
        × NoJumps (cleanup T s).0.iptables
        × NoJumps (cleanup T s).0.ip6tables
  unfolding cleanup
  cleanup-NoJumps s (v4, v6) = (
    last_error-Dropped _ _ (bare-Dropped s.ip6tables v6)
        ∙ last_error-Dropped _ _ (bare-Dropped s.iptables v4)
        ∙ grind (arith, L.delete_rule_succeeds),
    cleaned-NoJumps s.iptables,
    cleaned-NoJumps s.ip6tables,
  )
