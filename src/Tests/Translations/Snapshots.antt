-- ===== src/Tests/Translations/Snapshots.antt =====
-- The endpoints of a translated snapshot, by cluster.
use mathlib.Core.List.{Perm}
use native.Mathlib.Decide.{ℕ_discrete}
use lightpath.Translations.Endpoints.{int_eq, extract_endpoint_meta_and_state, meta_of, state_of}
use lightpath.Prelude.Dict.{insert}
use lightpath.Prelude.{◌≡◌, refl, ap, true, Option, none, some, List, [], ◌∷◌, string_eq}
use lightpath.Prelude.Int.{pos}
use lightpath.Prelude.MapRange.{in_order, assign_all}
use lightpath.Translations.PortSettings.{get_port_setings}
use lightpath.Translations.Cluster.{gen_cluster}
use lightpath.Translations.Endpoints.Assigned.{assigned}
use lightpath.Translations.Endpoints.Serving.{serving}
use lightpath.Translations.Mapper.Index.{
  ResourceIndex, IsLawful, is_named, looked_up, envoy_snapshot-looked_up,
}
use lightpath.Translations.Mapper.Consistent.{referenced, envoy_snapshot-referenced}
use lightpath.Translations.Mapper.NamedAssignments.{envoy_snapshot-named_assignments}
use lightpath.Translations.Endpoints.Assignments as by_assignment
use lightpath.Translations.Envoy.{ClusterLoadAssignment}
use lightpath.Prelude.Only.{only}
use lightpath.Translations.Mapper.Order.{envoy_snapshot-any_order}
use lightpath.Translations.Helper.{get_cluster_name, get_listener_name}
use lightpath.Translations.Mapper.Named as by_cluster
use lightpath.Translations.Mapper.Named.{envoy_snapshot-named}
use lightpath.Translations.Mapper.NamedListeners as by_listener
use lightpath.Translations.Mapper.NamedListeners.{envoy_snapshot-named_listeners}
use lightpath.Tests.Translations.{
  port, web, web_slice, snapshot, translated, translated_lem, states, zone_a,
}

-- The last of several resources of a name.
abbrev last : List ClusterLoadAssignment → Option ClusterLoadAssignment
last [] = none
last (a ∷ []) = some a
last (a ∷ b ∷ rest) = last (b ∷ rest)

abbrev pub by_name : ResourceIndex
by_name = record { find = λ name xs. last (only (is_named name) xs) }

abbrev pub by_name-IsLawful : IsLawful by_name
by_name-IsLawful = record { absent = λ name xs e. ap last e; unique = λ name xs a e. ap last e }

envoy_snapshot-looked_up_example : Perm (serving "IPv4" (pos 8080) zone_a states) (
    looked_up by_name
      (gen_cluster web port (get_port_setings web port) "IPv4").name
      zone_a
      translated.endpoints)
unfolding string_eq extract_endpoint_meta_and_state assign_all meta_of state_of
envoy_snapshot-looked_up_example =
    envoy_snapshot-looked_up by_name in_order "now" [] []
      (record { obj = web; endpoint_slices = web_slice ∷ [] }) port (get_port_setings web port)
      "IPv4" zone_a translated by_name-IsLawful (refl, refl) refl tt tt translated_lem

envoy_snapshot-referenced_example : referenced translated.endpoints translated.clusters ≡ true
unfolding string_eq int_eq ℕ_discrete extract_endpoint_meta_and_state insert meta_of assign_all
envoy_snapshot-referenced_example =
    envoy_snapshot-referenced in_order "now" snapshot translated refl translated_lem

envoy_snapshot-named_assignments_example :
    by_assignment.named (get_cluster_name "default" "web" "IPv4" (pos 8080)) translated.endpoints
    ≡ 1
unfolding string_eq int_eq ℕ_discrete extract_endpoint_meta_and_state insert meta_of assign_all
envoy_snapshot-named_assignments_example =
    envoy_snapshot-named_assignments in_order "now" snapshot translated web "IPv4" (pos 8080)
      (refl, refl) refl ((refl, refl), tt) translated_lem

envoy_snapshot-any_order_example :
    (translated.clusters ≡ translated.clusters)
    × (translated.listeners ≡ translated.listeners)
    × Perm
        (assigned "IPv4|default|web|8080" zone_a translated.endpoints)
        (assigned "IPv4|default|web|8080" zone_a translated.endpoints)
envoy_snapshot-any_order_example =
    envoy_snapshot-any_order in_order in_order "now" snapshot translated translated
      "IPv4|default|web|8080" zone_a translated_lem translated_lem

envoy_snapshot-named_example :
    by_cluster.named (get_cluster_name "default" "web" "IPv6" (pos 8080)) translated.clusters ≡ 1
unfolding string_eq int_eq ℕ_discrete
envoy_snapshot-named_example =
    envoy_snapshot-named in_order "now" snapshot translated web "IPv6" (pos 8080) (refl, refl) refl
      (((refl, refl), (refl, (refl, tt))), tt) translated_lem

envoy_snapshot-named_listeners_example :
    by_listener.named (get_listener_name "default" "web" "0.0.0.0" (pos 30080)) translated.listeners
    ≡ 1
unfolding string_eq int_eq ℕ_discrete
envoy_snapshot-named_listeners_example =
    envoy_snapshot-named_listeners in_order "now" snapshot translated web "0.0.0.0" (pos 30080)
      (refl, refl) refl (((refl, refl), (refl, (refl, tt))), tt) translated_lem
