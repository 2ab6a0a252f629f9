-- ===== src/Redirect/Handler/Rules.antt =====
-- The rules that the event handlers leave, while no command of iptables fails, and where they panic.
use lightpath.Prelude.{
  ◌≡◌, refl, sym, ap, ◌∙◌, none, some, Bool-cases, Option-cases, inl, inr, String, Bool, true, not,
  ◌&&◌, ◌||◌, List, [], ◌∷◌, map, arith, ◌==◌, ==_refl, string_eq, if◌then◌else◌,
}
use mathlib.Core.Option as option
use lightpath.Prelude.Texts.{
  contains, outside, contains-outside, within, within-contains, within_same, outside_none,
}
use lightpath.Prelude.MapRange.{MapRange}
use lightpath.Kube.{Service}
use lightpath.Redirect.{Net, Redirect, IsLawful}
use lightpath.Redirect.Diff.{service_ips, svc_ip_diff_lem, visited, contains-visited, removed}
use lightpath.Redirect.Handler.{
  get_comment, add_all, remove_all, add_func, update_func, delete_func,
}

module _ (N : Net) where
  -- The texts that the addresses are printed as.
  abbrev pub printed : List String → List String
  printed = map (λ t. N.ip_string (N.parse_ip t))

  -- Every address is written as it is printed.
  abbrev pub IsCanonical : List String → Type 0
  IsCanonical xs = (t : String) → contains t xs ≡ true → N.ip_string (N.parse_ip t) ≡ t

  pub printed_canonical : (xs : List String) → IsCanonical xs → printed xs ≡ xs
  printed_canonical [] h = refl
  printed_canonical (x ∷ xs) h =
      cc (h x (ground (arith, ==_refl x)), printed_canonical xs (λ t m. h t (ground arith)))

  printed-outside :
      (t : String) (ns xs : List String)
      → IsCanonical xs
      → contains t (printed (outside ns xs)) ≡ (contains t xs && not (contains t ns))
  printed-outside t ns xs h =
      rw (printed_canonical (outside ns xs) (λ u m. h u (ground (arith, contains-outside u ns xs))))
        (contains-outside t ns xs)

module _ (N : Net) (R : Redirect N) (has : R.State → String → N.Ip → Bool)
    (L : IsLawful N R has) where
  has-add_all :
      (c d : String) (xs : List String) (j : N.Ip) (s : R.State)
      → has (add_all N R c (map N.parse_ip xs) s) d j
        ≡ (d == c && contains (N.ip_string j) (printed N xs) || has s d j)
  unfolding add_all
  has-add_all c d [] j s = ground arith
  has-add_all c d (x ∷ xs) j s = ground (
    arith,
    has-add_all c d xs j (R.add_ip c (N.parse_ip x) s).0,
    L.has-add_ip c d (N.parse_ip x) j s,
  )

  -- Adding a service adds the rules of its addresses under its comment and no other rule.
  pub has-add_func :
      (svc : Service) (d : String) (j : N.Ip) (s : R.State)
      → has (add_func N R svc s) d j ≡ (
          d == get_comment svc && contains (N.ip_string j) (printed N (service_ips svc))
          || has s d j)
  unfolding add_func
  has-add_func svc d j s = has-add_all (get_comment svc) d (service_ips svc) j s

  -- The first removal panics.
  remove_all-outside :
      (c : String) (ns xs : List String) (s : R.State)
      → remove_all N R c (map N.parse_ip (outside ns xs)) s
        ≡ (if within xs ns then some s else none)
  unfolding remove_all
  remove_all-outside c ns [] s = refl
  remove_all-outside c ns (x ∷ xs) s = elim (Bool-cases (contains x ns)) [
    | inl there ↦ rw there (remove_all-outside c ns xs s)
    | inr gone ↦ rw (gone, L.remove_ip_panics c (N.parse_ip x) s) refl
  ]

  -- A deletion returns exactly where there is no address, and then it changes nothing.
  pub delete_func_lem :
      (svc : Service) (s : R.State)
      → delete_func N R svc s ≡ (if within (service_ips svc) [] then some s else none)
  unfolding delete_func
  delete_func_lem svc s =
      ap (λ xs. remove_all N R (get_comment svc) (map N.parse_ip xs) s)
        (sym (outside_none (service_ips svc)))
      ∙ remove_all-outside (get_comment svc) [] (service_ips svc) s

  -- An update returns exactly where no old address is missing, and then it has added the others.
  pub update_func_lem :
      (r : MapRange) (old new : Service) (s : R.State)
      → update_func N R r old new s ≡ (
          if within (service_ips old) (service_ips new)
          then some (
              add_all N R
                (get_comment new)
                (map N.parse_ip (outside (service_ips old) (service_ips new)))
                s)
          else none)
  unfolding update_func
  update_func_lem r old new s =
      rw
        (
          (svc_ip_diff_lem N r old new).0,
          removed N r old new,
          remove_all-outside,
          within_same (visited r old) (service_ips old) (service_ips new) (contains-visited r old),
        )
        refl

  pub update_func_returns :
      (r : MapRange) (old new : Service) (s : R.State)
      → within (service_ips old) (service_ips new) ≡ true
      → (t : R.State) × (update_func N R r old new s ≡ some t)
  update_func_returns r old new s kept = elim (Option-cases (update_func N R r old new s)) [
    | inl panics ↦ absurd (ground (arith, panics, kept, update_func_lem r old new s))
    | inr found ↦ found
  ]

  -- Where the addresses of both services are written as they are printed and the rules under the
  -- comment of the new service are those of the old one's addresses: an update in which every old
  -- address is kept turns them into the rules of the new service's addresses and touches no rule
  -- under another comment, and an update that drops an address panics.
  pub has-update_func :
      (r : MapRange) (old new : Service) (d : String) (j : N.Ip) (s : R.State)
      → IsCanonical N (service_ips old)
      → IsCanonical N (service_ips new)
      → has s (get_comment new) j ≡ contains (N.ip_string j) (service_ips old)
      → option.map (λ t. has t d j) (update_func N R r old new s) ≡ (
          if within (service_ips old) (service_ips new)
          then some (
              if d == get_comment new
              then contains (N.ip_string j) (service_ips new)
              else has s d j)
          else none)
  has-update_func r old new d j s before after synced =
      elim (Bool-cases (within (service_ips old) (service_ips new))) [
        | inl kept ↦
            rw (update_func_lem r old new s, kept)
              (ground (
                arith,
                has-add_all (get_comment new) d (outside (service_ips old) (service_ips new)) j s,
                printed-outside N (N.ip_string j) (service_ips old) (service_ips new) after,
                within-contains (N.ip_string j) (service_ips old) (service_ips new) kept,
              ))
        | inr dropped ↦ rw (update_func_lem r old new s, dropped) refl
      ]
