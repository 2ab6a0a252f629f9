-- ===== src/Redirect/Informer/Frame.antt =====
-- Along a list of notifications: what adding and removing addresses keeps, the callbacks keep.
use lightpath.Prelude.{◌≡◌, String, Option, some, Option-cases, inl, inr, List, [], ◌∷◌, arith}
use lightpath.Redirect.Handler.{update_func, delete_func}
use lightpath.Prelude.MapRange.{MapRange}
use lightpath.Redirect.{Net, Redirect}
use lightpath.Redirect.Handler.Frame.{add_func-keeps, update_func-keeps, delete_func-keeps}
use lightpath.Redirect.Informer.{
  Notification, added, updated, deleted, deleted_final_state_unknown, notify, notify_all,
}

module _ (N : Net) (R : Redirect N) (P : R.State → Type 0)
    (adding : (c : String) (i : N.Ip) (s : R.State) → P s → P (R.add_ip c i s).0)
    (removing : (c : String) (i : N.Ip) (s t : R.State) (err : Option R.Error)
      → R.remove_ip c i s ≡ some (t, err)
      → P s
      → P t) where
  pub notify_all-keeps :
      (r : MapRange) (ns : List Notification) (s t : R.State)
      → notify_all N R r ns s ≡ some t
      → P s
      → P t
  unfolding notify_all notify
  notify_all-keeps r [] s t e p = ground (arith, e, p)
  notify_all-keeps r (added svc ∷ rest) s t e p =
      notify_all-keeps r rest _ t e (add_func-keeps N R P adding removing svc s p)
  notify_all-keeps r (updated old_svc new_svc ∷ rest) s t e p =
      elim (Option-cases (update_func N R r old_svc new_svc s)) [
        | inl panics ↦ absurd (ground (arith, panics, e))
        | inr (u, done) ↦
            notify_all-keeps r rest u t (ground (arith, done, e))
              (update_func-keeps N R P adding removing r old_svc new_svc s u done p)
      ]
  notify_all-keeps r (deleted svc ∷ rest) s t e p = elim (Option-cases (delete_func N R svc s)) [
    | inl panics ↦ absurd (ground (arith, panics, e))
    | inr (u, done) ↦
        notify_all-keeps r rest u t (ground (arith, done, e))
          (delete_func-keeps N R P adding removing svc s u done p)
  ]
  notify_all-keeps r (deleted_final_state_unknown key svc ∷ rest) s t e p = ground (arith, e)
