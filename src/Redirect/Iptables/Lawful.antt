-- ===== src/Redirect/Iptables/Lawful.antt =====
-- What the code relies on of iptables while no command fails, and what the redirect then gives
-- its clients.
use lightpath.Prelude.{
  ◌≡◌, ◌≢◌, String, Bool, true, false, not, ◌&&◌, ◌||◌, none, some, List, [], ◌∷◌, arith, ◌==◌,
  string_eq, if◌then◌else◌,
}
use lightpath.Prelude.Int.{ℤ}
use lightpath.Redirect.{Net, IsLawful, same_rule}
use lightpath.Redirect.Iptables.{
  RulePosition, append, Iptables, Tables, table_nat, lightpath_chain_name, redir_args, add_ip,
  remove_ip, iptables_redirect,
}

abbrev pub same_texts : List String → List String → Bool
same_texts [] [] = true
same_texts (x ∷ xs) (y ∷ ys) = x == y && same_texts xs ys
same_texts _ _ = false

-- A rule of a chain of a table, by its arguments.
abbrev pub same_place : String → String → List String → String → String → List String → Bool
same_place t c a t' c' a' = t == t' && (c == c' && same_texts a a')

-- Commands that do not fail, but for the deletion of a chain, where the error does not say that a
-- chain that is there was not found. `EnsureRule` makes a rule exist, `DeleteRule` makes it not exist,
-- and both leave the other rules and the chains; `EnsureChain` makes a chain exist and leaves all
-- rules, and `DeleteChain` leaves the rules of the other chains.
pub record IsReliable (T : Iptables) : Type 0 where
  pub holds : T.State → String → String → List String → Bool
  pub holds-ensure_rule :
      (p : RulePosition) (t c : String) (a : List String) (t' c' : String) (a' : List String)
      (s : T.State)
      → holds (T.ensure_rule p t c a s).0 t' c' a' ≡ (same_place t' c' a' t c a || holds s t' c' a')
  pub holds-delete_rule :
      (t c : String) (a : List String) (t' c' : String) (a' : List String) (s : T.State)
      → holds (T.delete_rule t c a s).0 t' c' a'
        ≡ (not (same_place t' c' a' t c a) && holds s t' c' a')
  pub holds-ensure_chain :
      (t c t' c' : String) (a' : List String) (s : T.State)
      → holds (T.ensure_chain t c s).0 t' c' a' ≡ holds s t' c' a'
  pub holds-delete_chain :
      (t c t' c' : String) (a' : List String) (s : T.State)
      → c' ≢ c
      → holds (T.delete_chain t c s).0 t' c' a' ≡ holds s t' c' a'
  pub ensure_chain_succeeds : (t c : String) (s : T.State) → (T.ensure_chain t c s).1 ≡ none
  pub ensure_rule_succeeds :
      (p : RulePosition) (t c : String) (a : List String) (s : T.State)
      → (T.ensure_rule p t c a s).1 ≡ none
  pub delete_rule_succeeds :
      (t c : String) (a : List String) (s : T.State) → (T.delete_rule t c a s).1 ≡ none
  pub has_chain : T.State → String → String → Bool
  pub has_chain-ensure_chain :
      (t c : String) (s : T.State) → has_chain (T.ensure_chain t c s).0 t c ≡ true
  pub has_chain-ensure_rule :
      (p : RulePosition) (t c : String) (a : List String) (t' c' : String) (s : T.State)
      → has_chain (T.ensure_rule p t c a s).0 t' c' ≡ has_chain s t' c'
  pub has_chain-delete_rule :
      (t c : String) (a : List String) (t' c' : String) (s : T.State)
      → has_chain (T.delete_rule t c a s).0 t' c' ≡ has_chain s t' c'
  -- As where it still has rules.
  pub delete_chain_fails :
      (t c : String) (s : T.State) (e : T.Error)
      → has_chain s t c ≡ true
      → (T.delete_chain t c s).1 ≡ some e
      → T.is_not_found_error e ≡ false

module _ (T : Iptables) (L : IsReliable T) (N : Net) (port : ℤ) where
  -- The redirect rule of a comment and an address, in the tables of the address's family.
  abbrev pub has_redirect : Tables T → String → N.Ip → Bool
  has_redirect s c i =
      if N.is_v4 i
      then L.holds s.iptables table_nat lightpath_chain_name (redir_args T N port c i)
      else L.holds s.ip6tables table_nat lightpath_chain_name (redir_args T N port c i)

  -- Two redirect rules are alike just where their comments and their printed addresses are.
  same_redir_args :
      (c d : String) (i j : N.Ip)
      → same_place table_nat lightpath_chain_name
          (redir_args T N port c i)
          table_nat
          lightpath_chain_name
          (redir_args T N port d j)
        ≡ same_rule N c i d j
  unfolding redir_args
  same_redir_args c d i j = ground arith

  added :
      (c d : String) (i j : N.Ip) (s : Tables T)
      → has_redirect (add_ip T N port c i s).0 d j ≡ (same_rule N d j c i || has_redirect s d j)
  unfolding add_ip
  added c d i j s = ground (
    arith,
    same_redir_args d c j i,
    N.ip_string_inj j i,
    L.holds-ensure_rule append table_nat lightpath_chain_name (redir_args T N port c i) table_nat
        lightpath_chain_name (redir_args T N port d j) s.iptables,
    L.holds-ensure_rule append table_nat lightpath_chain_name (redir_args T N port c i) table_nat
        lightpath_chain_name (redir_args T N port d j) s.ip6tables,
  )

  panics : (c : String) (i : N.Ip) (s : Tables T) → remove_ip T N port c i s ≡ none
  unfolding remove_ip
  panics c i s = ground (
    arith,
    L.delete_rule_succeeds table_nat lightpath_chain_name (redir_args T N port c i) s.iptables,
    L.delete_rule_succeeds table_nat lightpath_chain_name (redir_args T N port c i) s.ip6tables,
  )

  -- Over reliable iptables `AddIP` adds the one rule of its comment and address to the tables of the
  -- address's family and changes no other rule, and `RemoveIP` panics, whatever the comment, the
  -- address and the tables: its deletion returns nil, which it hands to `IsNotFoundError`.
  pub iptables_redirect-IsLawful : IsLawful N (iptables_redirect T N port) has_redirect
  iptables_redirect-IsLawful = record { has-add_ip = added; remove_ip_panics = panics }
