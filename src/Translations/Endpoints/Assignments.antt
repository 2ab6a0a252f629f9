-- ===== src/Translations/Endpoints/Assignments.antt =====
-- How many load assignments of a service have a name.

use mathlib.Core.List.Permᴰ
use mathlib.Core.Option.{get_or, some-injective}
use lightpath.Prelude.{
  ◌≡◌, refl, sym, ap, ◌∙◌, ℕ, String, Bool, ◌||◌, some, is_some, Option-cases, inl, inr, List, [],
  ◌∷◌, ◌==◌, string_eq, arith, if◌then◌else◌,
}
use lightpath.Prelude.Lists.{any, any-perm}
use lightpath.Prelude.Texts as texts
use lightpath.Prelude.Dict.{Dict, lookup, insert, values, NodupKeys, AllEntries, lookup-insert}
use lightpath.Prelude.MapRange.{MapRange}
use lightpath.Kube.{Service, EndpointSlice}
use lightpath.Translations.Envoy.{ClusterLoadAssignment}
use lightpath.Translations.Endpoints.{
  EndpointMeta, EndpointState, Groups, States, cluster_name_of, group_loop, assignment_loop,
  fill_loop, map_endpoint_slice_to_locality_endpoints, extract_endpoint_meta_and_state,
}
use lightpath.Translations.Endpoints.Filled.{
  IsBlank, assignment_loop-NodupKeys, assignment_loop-IsBlank,
}
use lightpath.Translations.Endpoints.Assigned.{locality_loop-name}

-- The load assignments of a name.
abbrev pub named : String → List ClusterLoadAssignment → ℕ
named = texts.named (λ a. a.cluster_name)

-- Some entry belongs to a cluster.
abbrev pub has_entry : Service → String → List (EndpointMeta × EndpointState) → Bool
has_entry svc name = any (λ (meta, _). name == cluster_name_of svc meta)

assignment_loop-is_some :
    (svc : Service) (entries : List (EndpointMeta × EndpointState))
    (la : Dict String ClusterLoadAssignment) (name : String)
    → is_some (lookup name (assignment_loop svc entries la))
      ≡ (is_some (lookup name la) || has_entry svc name entries)
unfolding assignment_loop
assignment_loop-is_some svc [] la name = ground arith
assignment_loop-is_some svc ((meta, state) ∷ rest) la name =
    let own = cluster_name_of svc meta in
    let blank : ClusterLoadAssignment = record { cluster_name = own; endpoints = [] } in
    elim (Option-cases (lookup own la)) [
      | inl absent ↦
          rw (assignment_loop, absent)
            (ground (
              arith,
              assignment_loop-is_some svc rest (insert own blank la) name,
              lookup-insert name own blank la,
            ))
      | inr (a, present) ↦
          rw (assignment_loop, present)
            (ground (arith, present, assignment_loop-is_some svc rest la name))
    ]

fill_loop-named :
    (r : MapRange) (groups : Groups) (la : Dict String ClusterLoadAssignment) (name : String)
    → NodupKeys la
    → AllEntries IsBlank la
    → named name (values (fill_loop r groups la)) ≡ (if is_some (lookup name la) then 1 else 0)
unfolding fill_loop lookup
fill_loop-named r groups [] name u h = refl
fill_loop-named r groups ((k, a) ∷ la) name (fresh, u) ((called, _), h) = ground (
  arith,
  fill_loop-named r groups la name u h,
  locality_loop-name (r.visit _ (get_or (lookup k groups) [])) a ∙ called,
  fresh,
)

-- A service has one load assignment for each cluster to which an entry of its slices belongs, and none
-- for another.
pub map-named :
    (r : MapRange) (svc : Service) (endpointslices : List EndpointSlice) (states : States)
    (out : List ClusterLoadAssignment) (name : String)
    → extract_endpoint_meta_and_state endpointslices ≡ some states
    → map_endpoint_slice_to_locality_endpoints r svc endpointslices ≡ some out
    → named name out ≡ (if has_entry svc name states then 1 else 0)
unfolding map_endpoint_slice_to_locality_endpoints lookup
map-named r svc endpointslices states out name read made =
    let entries = r.visit _ states in
    let la = assignment_loop svc entries [] in
    let filled = fill_loop r (group_loop svc entries []) la in
    let shape : map_endpoint_slice_to_locality_endpoints r svc endpointslices
        ≡ some (values (r.visit _ filled)) =
      rw (map_endpoint_slice_to_locality_endpoints, read) refl in
    let counted =
      fill_loop-named r (group_loop svc entries []) la name
        (assignment_loop-NodupKeys svc entries [] tt) (assignment_loop-IsBlank svc entries [] tt) in
    let reordered =
      texts.named-perm (λ (a : ClusterLoadAssignment). a.cluster_name) name
        (Permᴰ.map (λ ((_, a) : String × ClusterLoadAssignment). a) (r.visit_perm _ filled)) in
    sym (ap (named name) (some-injective _ out (sym shape ∙ made)))
    ∙ sym reordered
    ∙ counted
    ∙ ap (λ b. if b then 1 else 0)
        (assignment_loop-is_some svc entries [] name
          ∙ sym (any-perm (λ (meta, _). name == cluster_name_of svc meta) (r.visit_perm _ states)))
