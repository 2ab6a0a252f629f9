-- ===== src/Redirect/Handler/Frame.antt =====
-- What adding and removing addresses keeps, the callbacks keep.
use lightpath.Prelude.{
  ◌≡◌, subst, String, Option, some, Option-cases, inl, inr, List, [], ◌∷◌, map, arith,
}
use mathlib.Core.Option.{some-injective}
use lightpath.Prelude.MapRange.{MapRange}
use lightpath.Kube.{Service}
use lightpath.Redirect.{Net, Redirect}
use lightpath.Redirect.Diff.{service_ips, svc_ip_diff}
use lightpath.Redirect.Handler.{
  get_comment, add_all, remove_all, add_func, update_func, delete_func,
}

module _ (N : Net) (R : Redirect N) (P : R.State → Type 0)
    (adding : (c : String) (i : N.Ip) (s : R.State) → P s → P (R.add_ip c i s).0)
    (removing : (c : String) (i : N.Ip) (s t : R.State) (err : Option R.Error)
      → R.remove_ip c i s ≡ some (t, err)
      → P s
      → P t) where
  add_all-keeps : (c : String) (is : List N.Ip) (s : R.State) → P s → P (add_all N R c is s)
  unfolding add_all
  add_all-keeps c [] s p = p
  add_all-keeps c (i ∷ is) s p = add_all-keeps c is _ (adding c i s p)

  remove_all-keeps :
      (c : String) (is : List N.Ip) (s t : R.State) → remove_all N R c is s ≡ some t → P s → P t
  unfolding remove_all
  remove_all-keeps c [] s t e p = subst P (some-injective s t e) p
  remove_all-keeps c (i ∷ is) s t e p = elim (Option-cases (R.remove_ip c i s)) [
    | inl panics ↦ absurd (ground (arith, panics, e))
    | inr ((u, err), removed) ↦
        remove_all-keeps c is u t (ground (arith, removed, e)) (removing c i s u err removed p)
  ]

  pub add_func-keeps : (svc : Service) (s : R.State) → P s → P (add_func N R svc s)
  unfolding add_func
  add_func-keeps svc s p = add_all-keeps (get_comment svc) (map N.parse_ip (service_ips svc)) s p

  pub update_func-keeps :
      (r : MapRange) (old_svc new_svc : Service) (s t : R.State)
      → update_func N R r old_svc new_svc s ≡ some t
      → P s
      → P t
  unfolding update_func
  update_func-keeps r old_svc new_svc s t e p =
      let (add, remove) = svc_ip_diff N r old_svc new_svc in
      remove_all-keeps (get_comment new_svc) remove _ t e
        (add_all-keeps (get_comment new_svc) add s p)

  pub delete_func-keeps :
      (svc : Service) (s t : R.State) → delete_func N R svc s ≡ some t → P s → P t
  unfolding delete_func
  delete_func-keeps svc s t e p =
      remove_all-keeps (get_comment svc) (map N.parse_ip (service_ips svc)) s t e p
