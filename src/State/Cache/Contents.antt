-- ===== src/State/Cache/Contents.antt =====
-- What a snapshot shows of the cache.
use mathlib.Core.List.{Perm, Permᴰ}
use mathlib.Core.List.Permᴰ
use mathlib.Core.List.Perm
use lightpath.Prelude.{◌≡◌, refl, ap, [], ◌∷◌, map, String, string_eq}
use lightpath.Prelude.Dict.{Dict, NodupKeys, AllEntries, values, map_values, map_values-NodupKeys}
use lightpath.Prelude.Lists.{All}
use lightpath.Prelude.MapRange.{MapRange, perm-lookup, assign_all-nil}
use lightpath.State.Snapshot
use lightpath.State.Service.{ServiceContainer, deep_copy, snapshot as container_snapshot}
use lightpath.State.Cache.{ClusterServiceStateCache, deep_copy_cache, snapshot}
use lightpath.State.Cache.Invariant.{IsWellFormed, IsFiled}

-- A shown service has the container's object, and its slices in some order.
pub record Shows (s : ServiceContainer) (w : Snapshot.Service) : Type 0 where
  pub same_obj : w.obj ≡ s.obj
  pub same_slices : Perm (values s.endpoint_slices) w.endpoint_slices

module _ (r : MapRange) where
  visit-NodupKeys : {V : Type 0} (d : Dict String V) → NodupKeys d → NodupKeys (r.visit _ d)
  visit-NodupKeys d u = (perm-lookup (r.visit_perm _ d) u).0

  -- A deep copy of a map is the map in the order of its range.
  deep_copy_slices :
      (s : ServiceContainer)
      → NodupKeys s.endpoint_slices
      → (deep_copy r s).endpoint_slices ≡ r.visit _ s.endpoint_slices
  unfolding deep_copy
  deep_copy_slices s u = assign_all-nil _ (visit-NodupKeys s.endpoint_slices u)

  -- What is shown of a container.
  abbrev pub view : ServiceContainer → Snapshot.Service
  view s = container_snapshot r (deep_copy r s)

  shows : (s : ServiceContainer) → NodupKeys s.endpoint_slices → Shows s (view s)
  unfolding container_snapshot deep_copy
  shows s u = record {
    same_obj = refl;
    same_slices = Perm.map _ (
        Perm.trans (∣◌∣₁ (r.visit_perm _ s.endpoint_slices))
          (rw (deep_copy_slices s u) (∣◌∣₁ (r.visit_perm _ (r.visit _ s.endpoint_slices)))));
  }

  shown_views :
      (d : Dict String ServiceContainer)
      → AllEntries IsFiled d
      → All (λ s. Shows s (view s)) (values d)
  shown_views [] h = tt
  shown_views ((k, s) ∷ d) h = (shows s h.0.nodup, shown_views d h.1)

  copied_services :
      (c : ClusterServiceStateCache)
      → NodupKeys c.services
      → (deep_copy_cache r c).services ≡ map_values (deep_copy r) (r.visit _ c.services)
  unfolding deep_copy_cache
  copied_services c u =
      assign_all-nil _ (map_values-NodupKeys (deep_copy r) _ (visit-NodupKeys c.services u))

  view-values :
      (d : Dict String ServiceContainer)
      → map (container_snapshot r) (values (map_values (deep_copy r) d)) ≡ map view (values d)
  view-values [] = refl
  view-values ((k, s) ∷ d) = ap (◌∷◌ (view s)) (view-values d)

  copied_perm :
      (d : Dict String ServiceContainer)
      → Permᴰ (map_values (deep_copy r) d) (r.visit _ (map_values (deep_copy r) (r.visit _ d)))
  copied_perm d =
      Permᴰ.trans (Permᴰ.map _ (r.visit_perm _ d))
        (r.visit_perm _ (map_values (deep_copy r) (r.visit _ d)))

  -- The services of a snapshot, as a reordering.
  pub snapshot_perm :
      (c : ClusterServiceStateCache)
      → NodupKeys c.services
      → Permᴰ (map view (values c.services)) (snapshot r c).services
  unfolding snapshot
  snapshot_perm c u =
      rw (copied_services c u, ← view-values c.services)
        (Permᴰ.map _ (Permᴰ.map _ (copied_perm c.services)))

  -- A snapshot of a well-formed cache shows every container once and nothing else, in some order,
  -- each with its service object and all its slices, in some order.
  pub snapshot-contents :
      (c : ClusterServiceStateCache)
      → IsWellFormed c
      → Perm (map view (values c.services)) (snapshot r c).services
        × All (λ s. Shows s (view s)) (values c.services)
  snapshot-contents c v = (∣ snapshot_perm c v.nodup ∣₁, shown_views c.services v.filed)
