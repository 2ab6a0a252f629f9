-- ===== src/Redirect/Diff.antt =====
-- `svcIPDiff` of pkg/redirect/kube.go.
use mathlib.Core.List.{append-nil, append_assoc, Perm}
use mathlib.Core.List.Perm
use lightpath.Prelude.{
  ◌≡◌, refl, sym, subst, ◌∙◌, String, Bool, true, false, not, ◌||◌, none, some, List, [], ◌∷◌, ◌++◌,
  map, arith, string_eq, if◌then◌else◌,
}
use lightpath.Prelude.Texts.{
  contains, outside, distinct, outside_skip, outside_both, outside_none, outside-perm,
}
use lightpath.Prelude.Dict.{Dict, keys, lookup, insert, lookup-insert, NodupKeys, insert-NodupKeys}
use lightpath.Prelude.MapRange.{MapRange, perm-lookup}
use lightpath.Kube.{Service}
use lightpath.Redirect.{Net}

-- `append(svc.Spec.ClusterIPs, svc.Spec.ExternalIPs...)`
abbrev pub service_ips : Service → List String
service_ips svc = svc.spec.cluster_ips ++ svc.spec.external_ips

-- `_, ok := ips[ip]`
abbrev has_key : String → Dict String (Unit {0}) → Bool
has_key ip ips = elim (lookup ip ips) [ none ↦ false | some _ ↦ true ]

-- `oldIPs[ip] = struct{}{}` for each address.
note_all : List String → Dict String (Unit {0}) → Dict String (Unit {0})
note_all [] ips = ips
note_all (ip ∷ rest) ips = note_all rest (insert ip tt ips)

module _ (N : Net) where
  -- The loop over the new addresses notes each, and collects those that the old map lacks.
  add_loop :
      Dict String (Unit {0})
      → List String
      → Dict String (Unit {0})
      → List N.Ip
      → Dict String (Unit {0}) × List N.Ip
  add_loop old [] new add = (new, add)
  add_loop old (ip ∷ rest) new add =
      add_loop old rest (insert ip tt new)
        (if not (has_key ip old) then add ++ (N.parse_ip ip ∷ []) else add)

  -- The loop over the map of the old addresses.
  remove_loop : Dict String (Unit {0}) → Dict String (Unit {0}) → List N.Ip → List N.Ip
  remove_loop new [] remove = remove
  remove_loop new ((ip, _) ∷ rest) remove =
      remove_loop new rest (if not (has_key ip new) then remove ++ (N.parse_ip ip ∷ []) else remove)

  unfoldable pub svc_ip_diff : MapRange → Service → Service → List N.Ip × List N.Ip
  unfolding add_loop remove_loop note_all
  svc_ip_diff r old new =
      let old_ips = note_all (service_ips old) [] in
      let (new_ips, add) = add_loop old_ips (service_ips new) [] [] in
      (add, remove_loop new_ips (r.visit _ old_ips) [])

has_key-note_all :
    (t : String) (xs : List String) (d : Dict String (Unit {0}))
    → has_key t (note_all xs d) ≡ (contains t xs || has_key t d)
unfolding note_all
has_key-note_all t [] d = refl
has_key-note_all t (x ∷ xs) d =
    ground (arith, has_key-note_all t xs (insert x tt d), lookup-insert t x tt d)

noted : (t : String) (xs : List String) → has_key t (note_all xs []) ≡ contains t xs
unfolding lookup
noted t xs = ground (arith, has_key-note_all t xs [])

keys-insert :
    (x : String) (d : Dict String (Unit {0}))
    → keys (insert x tt d) ≡ (if has_key x d then keys d else keys d ++ (x ∷ []))
unfolding insert lookup
keys-insert x [] = refl
keys-insert x ((y, _) ∷ d) = ground (arith, keys-insert x d)

contains-keys : (t : String) (d : Dict String (Unit {0})) → contains t (keys d) ≡ has_key t d
unfolding lookup
contains-keys t [] = refl
contains-keys t ((y, _) ∷ d) = ground (arith, contains-keys t d)

keys-note_all :
    (xs : List String) (d : Dict String (Unit {0}))
    → keys (note_all xs d) ≡ keys d ++ outside (keys d) (distinct xs)
unfolding note_all
keys-note_all [] d = sym (append-nil (keys d))
keys-note_all (x ∷ xs) d = ground (
  arith,
  keys-note_all xs (insert x tt d),
  keys-insert x d,
  contains-keys x d,
  outside_skip x (keys d) (distinct xs),
  outside_both x (keys d) (distinct xs),
  append_assoc (keys d) (x ∷ []) (outside (keys d) (outside (x ∷ []) (distinct xs))),
)

module _ {ℓ} {A : Type ℓ} (parse : String → A) where
  collect_step :
      (skip : Bool) (out : List A) (x : String) (ys : List String)
      → (if not skip then out ++ (parse x ∷ []) else out) ++ map parse ys
        ≡ out ++ map parse (if skip then ys else x ∷ ys)
  collect_step true out x ys = refl
  collect_step false out x ys = append_assoc out (parse x ∷ []) (map parse ys)

module _ (N : Net) where
  add_loop_new :
      (old : Dict String (Unit {0})) (xs : List String) (d : Dict String (Unit {0}))
      (add : List N.Ip)
      → (add_loop N old xs d add).0 ≡ note_all xs d
  unfolding add_loop note_all
  add_loop_new old [] d add = refl
  add_loop_new old (x ∷ xs) d add = add_loop_new old xs (insert x tt d) _

  add_loop_added :
      (olds xs : List String) (d : Dict String (Unit {0})) (add : List N.Ip)
      → (add_loop N (note_all olds []) xs d add).1 ≡ add ++ map N.parse_ip (outside olds xs)
  unfolding add_loop
  add_loop_added olds [] d add = sym (append-nil add)
  add_loop_added olds (x ∷ xs) d add =
      rw (add_loop_added olds xs, noted x olds) (collect_step N.parse_ip (contains x olds) add x _)

  remove_loop_removed :
      (news : List String) (d : Dict String (Unit {0})) (remove : List N.Ip)
      → remove_loop N (note_all news []) d remove ≡ remove ++ map N.parse_ip (outside news (keys d))
  unfolding remove_loop
  remove_loop_removed news [] remove = sym (append-nil remove)
  remove_loop_removed news ((x, _) ∷ d) remove =
      rw (remove_loop_removed news d, noted x news)
        (collect_step N.parse_ip (contains x news) remove x _)

note_all-NodupKeys :
    (xs : List String) (d : Dict String (Unit {0})) → NodupKeys d → NodupKeys (note_all xs d)
unfolding note_all
note_all-NodupKeys [] d u = u
note_all-NodupKeys (x ∷ xs) d u = note_all-NodupKeys xs (insert x tt d) (insert-NodupKeys x tt d u)

-- The addresses of the map of the old ones, in the order of its range.
pub visited : MapRange → Service → List String
visited r old = keys (r.visit _ (note_all (service_ips old) []))

visited_perm : (r : MapRange) (old : Service) → Perm (distinct (service_ips old)) (visited r old)
unfolding visited
visited_perm r old =
    subst (λ l. Perm l (visited r old)) (keys-note_all (service_ips old) [] ∙ outside_none _)
      (Perm.map _ (∣◌∣₁ (r.visit_perm _ _)))

pub contains-visited :
    (r : MapRange) (old : Service) (t : String)
    → contains t (visited r old) ≡ contains t (service_ips old)
unfolding visited
contains-visited r old t = ground (
  arith,
  contains-keys t (r.visit _ (note_all (service_ips old) [])),
  (perm-lookup (r.visit_perm _ (note_all (service_ips old) []))
        (note_all-NodupKeys (service_ips old) [] tt)).1
      t,
  noted t (service_ips old),
)

module _ (N : Net) where
  pub removed :
      (r : MapRange) (old new : Service)
      → (svc_ip_diff N r old new).1 ≡ map N.parse_ip (outside (service_ips new) (visited r old))
  unfolding svc_ip_diff visited
  removed r old new =
      rw (add_loop_new N (note_all (service_ips old) []) (service_ips new) [] [])
        (remove_loop_removed N (service_ips new) _ [])

  -- The additions are the new addresses that the old service lacks, in the order and as often as they
  -- are listed; the removals are the old addresses that the new service lacks, each once, in some
  -- order.
  pub svc_ip_diff_lem :
      (r : MapRange) (old new : Service)
      → ((svc_ip_diff N r old new).0 ≡ map N.parse_ip (outside (service_ips old) (service_ips new)))
        × Perm
            (map N.parse_ip (outside (service_ips new) (distinct (service_ips old))))
            (svc_ip_diff N r old new).1
  unfolding svc_ip_diff
  svc_ip_diff_lem r old new = (
    add_loop_added N (service_ips old) (service_ips new) [] [],
    rw (removed r old new) (Perm.map _ (outside-perm (service_ips new) (visited_perm r old))),
  )
