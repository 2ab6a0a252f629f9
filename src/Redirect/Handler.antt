-- ===== src/Redirect/Handler.antt =====
-- `NewEventHandler` of pkg/redirect/kube.go, over any redirect. An error is logged, and the loop
-- goes on.
pub mod Frame
pub mod Rules
use lightpath.Prelude.{String, ◌<>◌, Option, none, some, List, [], ◌∷◌, map}
use lightpath.Prelude.MapRange.{MapRange}
use lightpath.Kube.{Service}
use lightpath.Redirect.{Net, Redirect}
use lightpath.Redirect.Diff.{service_ips, svc_ip_diff}

unfoldable pub get_comment : Service → String
get_comment svc = "lightpath:" <> svc.namespace <> "/" <> svc.name

module _ (N : Net) (R : Redirect N) where
  pub add_all : String → List N.Ip → R.State → R.State
  add_all comment [] s = s
  add_all comment (ip ∷ rest) s = add_all comment rest (R.add_ip comment ip s).0

  -- `none` is the panic of a removal.
  remove_all : String → List N.Ip → R.State → Option R.State
  remove_all comment [] s = some s
  remove_all comment (ip ∷ rest) s = elim (R.remove_ip comment ip s) [
    | none ↦ none
    | some (t, _) ↦ remove_all comment rest t
  ]

  unfoldable pub add_func : Service → R.State → R.State
  unfolding add_all
  add_func svc s = add_all (get_comment svc) (map N.parse_ip (service_ips svc)) s

  unfoldable pub update_func : MapRange → Service → Service → R.State → Option R.State
  unfolding add_all remove_all
  update_func r old_svc new_svc s =
      let comment = get_comment new_svc in
      let (add, remove) = svc_ip_diff N r old_svc new_svc in
      remove_all comment remove (add_all comment add s)

  unfoldable pub delete_func : Service → R.State → Option R.State
  unfolding remove_all
  delete_func svc s = remove_all (get_comment svc) (map N.parse_ip (service_ips svc)) s
