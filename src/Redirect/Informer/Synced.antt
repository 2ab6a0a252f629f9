-- ===== src/Redirect/Informer/Synced.antt =====
-- The redirect has the rules of the services in the informer's store.
use text.Mathlib.TextLemmas.{append_cancel_left}
use lightpath.Prelude.{
  ◌≡◌, refl, sym, ap, ◌∙◌, subst, String, ◌<>◌, Bool, true, false, Option, none, some, List, [],
  ◌∷◌, ◌==◌, string_eq, arith,
}
use lightpath.Prelude.Lists.{All}
use lightpath.Prelude.Texts.{contains, within, within-contains}
use lightpath.Redirect.Informer.Panics.{removes_nothing, remove_nothing}
use lightpath.Prelude.Dict.{Dict, lookup, insert, erase, lookup-insert, lookup-erase}
use lightpath.Prelude.MapRange.{MapRange}
use lightpath.Kube.{Service}
use lightpath.Redirect.{Net, Redirect, IsLawful}
use lightpath.Redirect.Diff.{service_ips}
use lightpath.Redirect.Handler.{get_comment, add_func, update_func}
use lightpath.Redirect.Handler.Rules.{
  IsCanonical, printed_canonical, has-add_func, has-update_func, update_func_returns,
  delete_func_lem,
}
use lightpath.Redirect.Informer.{
  Notification, added, updated, notify, notify_all, key_of, Feed, add, update, delete, History,
  quiet, feeds,
}

-- The comment of the rules of the service with a key.
abbrev pub comment_of : String → String
comment_of key = "lightpath:" <> key

get_comment_lem : (svc : Service) → get_comment svc ≡ comment_of (key_of svc)
unfolding get_comment
get_comment_lem svc = refl

comment_of_inj : (j k : String) → (comment_of j == comment_of k) ≡ (j == k)
comment_of_inj j k = ground (arith, append_cancel_left "lightpath:" j k)

-- The addresses of the service that is stored under the key, as texts.
abbrev ips_of : Option Service → List String
ips_of none = []
ips_of (some svc) = service_ips svc

abbrev pub stored_ips : String → Dict String Service → List String
stored_ips key store = ips_of (lookup key store)

module _ (N : Net) where
  -- The addresses of the notified service are written as they are printed.
  abbrev pub IsCanonicalNews : Notification → Type 0
  IsCanonicalNews (added svc) = IsCanonical N (service_ips svc)
  IsCanonicalNews (updated _ svc) = IsCanonical N (service_ips svc)
  IsCanonicalNews _ = Unit

  -- So are those of the store.
  abbrev pub IsCanonicalStore : Dict String Service → Type 0
  IsCanonicalStore store = (key : String) → IsCanonical N (stored_ips key store)

  pub empty-IsCanonicalStore : IsCanonicalStore []
  unfolding lookup
  empty-IsCanonicalStore key t m = ground (arith, m)

  canonical-insert :
      (store : Dict String Service) (svc : Service)
      → IsCanonical N (service_ips svc)
      → IsCanonicalStore store
      → IsCanonicalStore (insert (key_of svc) svc store)
  canonical-insert store svc canonical stored key t m =
      ground (arith, lookup-insert key (key_of svc) svc store, canonical t, stored key t)

  canonical-erase :
      (store : Dict String Service) (svc : Service)
      → IsCanonicalStore store
      → IsCanonicalStore (erase (key_of svc) store)
  canonical-erase store svc stored key t m =
      ground (arith, lookup-erase key (key_of svc) store, stored key t)

module _ (N : Net) (R : Redirect N) (has : R.State → String → N.Ip → Bool) where
  -- Under the comment of every key stand the rules of the stored addresses and no other.
  abbrev pub IsSynced : Dict String Service → R.State → Type 0
  IsSynced store s =
      (key : String) (j : N.Ip)
      → has s (comment_of key) j ≡ contains (N.ip_string j) (stored_ips key store)

  pub empty-IsSynced :
      (s : R.State) → ((key : String) (j : N.Ip) → has s (comment_of key) j ≡ false) → IsSynced [] s
  unfolding lookup
  empty-IsSynced s bare key j = bare key j

module _ (N : Net) (R : Redirect N) (has : R.State → String → N.Ip → Bool) (L : IsLawful N R has)
    (r : MapRange) where
  add-IsSynced :
      (store : Dict String Service) (svc : Service) (s : R.State)
      → lookup (key_of svc) store ≡ none
      → IsCanonical N (service_ips svc)
      → IsSynced N R has store s
      → IsSynced N R has (insert (key_of svc) svc store) (add_func N R svc s)
  add-IsSynced store svc s fresh canonical synced key j = ground (
    arith,
    fresh,
    synced key j,
    get_comment_lem svc,
    comment_of_inj key (key_of svc),
    lookup-insert key (key_of svc) svc store,
    printed_canonical N (service_ips svc) canonical,
    has-add_func N R has L svc (comment_of key) j s,
  )

  update-IsSynced :
      (store : Dict String Service) (old_svc new_svc : Service) (s : R.State)
      → lookup (key_of new_svc) store ≡ some old_svc
      → within (service_ips old_svc) (service_ips new_svc) ≡ true
      → IsCanonicalStore N store
      → IsCanonical N (service_ips new_svc)
      → IsSynced N R has store s
      → (t : R.State) × (update_func N R r old_svc new_svc s ≡ some t)
        × IsSynced N R has (insert (key_of new_svc) new_svc store) t
  update-IsSynced store old_svc new_svc s found kept stored canonical synced =
      let at_key : stored_ips (key_of new_svc) store ≡ service_ips old_svc = ap ips_of found in
      let (t, returned) = update_func_returns N R has L r old_svc new_svc s kept in
      (
        t,
        returned,
        λ key j. ground (
          arith,
          found,
          kept,
          returned,
          synced key j,
          get_comment_lem new_svc,
          comment_of_inj key (key_of new_svc),
          lookup-insert key (key_of new_svc) new_svc store,
          has-update_func N R has L r old_svc new_svc (comment_of key) j s
              (subst (IsCanonical N) at_key (stored (key_of new_svc))) canonical
              (ap (λ c. has s c j) (get_comment_lem new_svc)
                ∙ synced (key_of new_svc) j
                ∙ ap (contains (N.ip_string j)) at_key),
        ),
      )

  delete-IsSynced :
      (store : Dict String Service) (old_svc svc : Service) (s : R.State)
      → lookup (key_of svc) store ≡ some old_svc
      → service_ips svc ≡ service_ips old_svc
      → within (service_ips svc) [] ≡ true
      → IsSynced N R has store s
      → IsSynced N R has (erase (key_of svc) store) s
  delete-IsSynced store old_svc svc s found same bare synced key j =
      let at_key : stored_ips (key_of svc) store ≡ service_ips svc = ap ips_of found ∙ sym same in
      ground (
        arith,
        found,
        same,
        at_key,
        synced key j,
        lookup-erase key (key_of svc) store,
        within-contains (N.ip_string j) (service_ips svc) [] bare,
      )

  notify-IsSynced :
      (store : Dict String Service) (s : R.State) {n : Notification} {next : Dict String Service}
      → Feed store n next
      → removes_nothing n ≡ true
      → IsCanonicalNews N n
      → IsCanonicalStore N store
      → IsSynced N R has store s
      → (t : R.State) × (notify N R r n s ≡ some t)
        × IsCanonicalStore N next
        × IsSynced N R has next t
  unfolding notify
  notify-IsSynced store s (add {svc = svc} fresh) kept canonical stored synced = (
    add_func N R svc s,
    refl,
    canonical-insert N store svc canonical stored,
    add-IsSynced store svc s fresh canonical synced,
  )
  notify-IsSynced store s (update {old_svc = old_svc} {new_svc = svc} found) kept canonical stored
        synced =
      let (t, returned, still) =
        update-IsSynced store old_svc svc s found kept stored canonical synced in
      (t, returned, canonical-insert N store svc canonical stored, still)
  notify-IsSynced store s (delete {svc = svc} found same) kept canonical stored synced = (
    s,
    delete_func_lem N R has L svc s ∙ rw kept refl,
    canonical-erase N store svc stored,
    delete-IsSynced store _ svc s found same kept synced,
  )

  -- For a redirect as the iptables implementation and addresses that are written as they are printed:
  -- from where the redirect has exactly the rules of the informer's store, the callbacks return for
  -- every history of the store in which nothing is to be removed, and afterwards the redirect has
  -- exactly the rules of what the store holds then.
  pub notify_all-IsSynced :
      (store last : Dict String Service) (ns : List Notification) (s : R.State)
      → History store ns last
      → remove_nothing ns ≡ true
      → All (IsCanonicalNews N) ns
      → IsCanonicalStore N store
      → IsSynced N R has store s
      → (t : R.State) × (notify_all N R r ns s ≡ some t) × IsSynced N R has last t
  unfolding notify_all
  notify_all-IsSynced store last [] s quiet kept canonical stored synced = (s, refl, synced)
  notify_all-IsSynced store last (n ∷ rest) s (feeds f h) kept (c, cs) stored synced =
      let (t, told, stored', synced') =
        notify-IsSynced store s f (ground (arith, kept)) c stored synced in
      let (u, rest_told, last_synced) =
        notify_all-IsSynced _ last rest t h (ground (arith, kept)) cs stored' synced' in
      (
        u,
        ap (λ o. elim o [ none ↦ none | some t ↦ notify_all N R r rest t ]) told ∙ rest_told,
        last_synced,
      )
