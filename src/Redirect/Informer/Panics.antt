-- ===== src/Redirect/Informer/Panics.antt =====
-- When the callbacks of the event handler return.
use lightpath.Prelude.{
  ◌≡◌, refl, Bool, true, false, is_some, ◌&&◌, Bool-cases, inl, inr, List, [], ◌∷◌, String,
}
use lightpath.Prelude.Texts.{within}
use lightpath.Prelude.MapRange.{MapRange}
use lightpath.Redirect.{Net, Redirect, IsLawful}
use lightpath.Redirect.Diff.{service_ips}
use lightpath.Redirect.Handler.Rules.{update_func_lem, delete_func_lem}
use lightpath.Redirect.Informer.{
  Notification, added, updated, deleted, deleted_final_state_unknown, notify, notify_all,
}

-- Nothing is to be removed: an update keeps every address, a deleted service has none, and the
-- notification carries a service.
abbrev pub removes_nothing : Notification → Bool
removes_nothing (added svc) = true
removes_nothing (updated old_svc new_svc) = within (service_ips old_svc) (service_ips new_svc)
removes_nothing (deleted svc) = within (service_ips svc) []
removes_nothing (deleted_final_state_unknown key svc) = false

abbrev pub remove_nothing : List Notification → Bool
remove_nothing [] = true
remove_nothing (n ∷ rest) = removes_nothing n && remove_nothing rest

module _ (N : Net) (R : Redirect N) (has : R.State → String → N.Ip → Bool) (L : IsLawful N R has)
    (r : MapRange) where
  -- Over a redirect that is as the iptables implementation: the callbacks return for a list of
  -- notifications exactly when every update in it keeps all addresses of the old service, every
  -- deleted service has no address, and none carries a `DeletedFinalStateUnknown`. Anything else,
  -- anywhere in the list, makes the handler panic.
  pub notify_all-is_some :
      (ns : List Notification) (s : R.State) → is_some (notify_all N R r ns s) ≡ remove_nothing ns
  unfolding notify_all notify
  notify_all-is_some [] s = refl
  notify_all-is_some (added svc ∷ rest) s = notify_all-is_some rest _
  notify_all-is_some (updated old_svc svc ∷ rest) s =
      elim (Bool-cases (within (service_ips old_svc) (service_ips svc))) [
        | inl kept ↦
            rw (notify_all, notify, update_func_lem N R has L r old_svc svc s, kept)
              (notify_all-is_some rest _)
        | inr dropped ↦
            rw (notify_all, notify, update_func_lem N R has L r old_svc svc s, dropped) refl
      ]
  notify_all-is_some (deleted svc ∷ rest) s = elim (Bool-cases (within (service_ips svc) [])) [
    | inl bare ↦
        rw (notify_all, notify, delete_func_lem N R has L svc s, bare) (notify_all-is_some rest _)
    | inr some_address ↦ rw (notify_all, notify, delete_func_lem N R has L svc s, some_address) refl
  ]
  notify_all-is_some (deleted_final_state_unknown key svc ∷ rest) s = refl
