-- ===== src/Redirect/Daemon/Watching.antt =====
-- The tables while the daemon runs.
use text.Mathlib.TextEquality.{eq_iff}
use lightpath.Prelude.{◌≡◌, ◌∙◌, String, true, false, some, List, [], string_eq, arith}
use lightpath.Prelude.Int.{ℤ}
use lightpath.Prelude.Lists.{All}
use lightpath.Prelude.MapRange.{MapRange}
use lightpath.Prelude.Dict.{Dict}
use lightpath.Kube.{Service}
use lightpath.Redirect.{Net}
use lightpath.Redirect.Iptables.{
  Iptables, Tables, chain_prerouting, chain_output, lightpath_chain_name, prereqs,
  iptables_redirect,
}
use lightpath.Redirect.Iptables.Lawful.{IsReliable, has_redirect, iptables_redirect-IsLawful}
use lightpath.Redirect.Iptables.Prereqs.{JumpsFrom}
use lightpath.Redirect.Daemon.Kept.{notify_all-JumpsFrom}
use lightpath.Redirect.Informer.{Notification, notify_all, History}
use lightpath.Redirect.Informer.Panics.{remove_nothing}
use lightpath.Redirect.Informer.Synced.{
  comment_of, IsSynced, IsCanonicalNews, notify_all-IsSynced, empty-IsSynced,
  empty-IsCanonicalStore,
}

module _ (T : Iptables) (L : IsReliable T) (N : Net) (port : ℤ) where
  prereqs-has_redirect :
      (c : String) (j : N.Ip) (s : Tables T)
      → has_redirect T L N port (prereqs T s).0 c j ≡ has_redirect T L N port s c j
  unfolding prereqs
  prereqs-has_redirect c j s = grind (
    arith,
    eq_iff chain_prerouting lightpath_chain_name,
    eq_iff chain_output lightpath_chain_name,
    L.ensure_chain_succeeds,
    L.ensure_rule_succeeds,
    L.holds-ensure_rule,
    L.holds-ensure_chain,
  )

  -- Over reliable iptables, from tables without rules under the comments of services, and for
  -- addresses that are written as they are printed: for any history of the informer's store, which
  -- starts empty, in which nothing is to be removed (updates keep all addresses, and deleted services
  -- have none), the callbacks return, both families jump to the chain of the redirects, and it has
  -- exactly the rules of the services that the store holds.
  pub watching_lem :
      (r : MapRange) (ns : List Notification) (last : Dict String Service) (s : Tables T)
      → ((key : String) (j : N.Ip) → has_redirect T L N port s (comment_of key) j ≡ false)
      → History [] ns last
      → remove_nothing ns ≡ true
      → All (IsCanonicalNews N) ns
      → (t : Tables T) × (notify_all N (iptables_redirect T N port) r ns (prereqs T s).0 ≡ some t)
        × JumpsFrom T L t.iptables
        × JumpsFrom T L t.ip6tables
        × IsSynced N (iptables_redirect T N port) (has_redirect T L N port) last t
  watching_lem r ns last s bare history kept canonical =
      let (t, told, synced) =
        notify_all-IsSynced N (iptables_redirect T N port) (has_redirect T L N port)
          (iptables_redirect-IsLawful T L N port) r [] last ns (prereqs T s).0 history kept
          canonical (empty-IsCanonicalStore N)
          (empty-IsSynced N (iptables_redirect T N port) (has_redirect T L N port) _
            (λ key j. prereqs-has_redirect (comment_of key) j s ∙ bare key j)) in
      let (v4, v6) = notify_all-JumpsFrom T L N port r ns s t told in (t, told, v4, v6, synced)
