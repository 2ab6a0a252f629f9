-- ===== src/Redirect/Informer.antt =====
-- The callbacks of `NewEventHandler` (pkg/redirect/kube.go) as the informer calls them, one after the
-- other, with the objects of its store.
pub mod Frame
pub mod Panics
pub mod Synced
use lightpath.Prelude.{String, ◌<>◌, ◌≡◌, Option, none, some, List, [], ◌∷◌, string_eq}
use lightpath.Prelude.Dict.{Dict, lookup, insert, erase}
use lightpath.Prelude.MapRange.{MapRange}
use lightpath.Kube.{Service}
use lightpath.Redirect.{Net, Redirect}
use lightpath.Redirect.Diff.{service_ips}
use lightpath.Redirect.Handler.{add_func, update_func, delete_func}

-- A call of a callback. Where the informer has missed a deletion, it passes a
-- `cache.DeletedFinalStateUnknown` with the last state that it knows.
pub data Notification : Type 0 where
  added deleted : Service → Notification
  updated : Service → Service → Notification
  deleted_final_state_unknown : String → Service → Notification

module _ (N : Net) (R : Redirect N) (r : MapRange) where
  -- `none` is a panic: of a removal, or of `obj.(*corev1.Service)`.
  unfoldable pub notify : Notification → R.State → Option R.State
  unfolding add_func update_func delete_func
  notify (added svc) s = some (add_func N R svc s)
  notify (updated old_svc new_svc) s = update_func N R r old_svc new_svc s
  notify (deleted svc) s = delete_func N R svc s
  notify (deleted_final_state_unknown key svc) s = none

  unfoldable pub notify_all : List Notification → R.State → Option R.State
  notify_all [] s = some s
  notify_all (n ∷ rest) s = elim (notify n s) [ none ↦ none | some t ↦ notify_all rest t ]

-- The key of the informer's store: the namespace and the name.
abbrev pub key_of : Service → String
key_of svc = svc.namespace <> "/" <> svc.name

-- What the informer's store holds, and when it calls back: a service is added once, an update carries
-- the stored object, and a deletion an object with the stored addresses.
pub data Feed (store : Dict String Service) : Notification → Dict String Service → Type 0 where
  add :
      {svc : Service}
      → lookup (key_of svc) store ≡ none
      → Feed store (added svc) (insert (key_of svc) svc store)
  update :
      {old_svc new_svc : Service}
      → lookup (key_of new_svc) store ≡ some old_svc
      → Feed store (updated old_svc new_svc) (insert (key_of new_svc) new_svc store)
  delete :
      {old_svc svc : Service}
      → lookup (key_of svc) store ≡ some old_svc
      → service_ips svc ≡ service_ips old_svc
      → Feed store (deleted svc) (erase (key_of svc) store)

pub data History : Dict String Service → List Notification → Dict String Service → Type 0 where
  quiet : {store : Dict String Service} → History store [] store
  feeds :
      {n : Notification} {rest : List Notification} {store next last : Dict String Service}
      → Feed store n next
      → History next rest last
      → History store (n ∷ rest) last
