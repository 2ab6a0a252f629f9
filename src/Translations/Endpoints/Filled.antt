-- ===== src/Translations/Endpoints/Filled.antt =====
-- The load assignments hold the endpoints of the slices.
use mathlib.Core.List.{Perm, Permᴰ, append-nil}
use mathlib.Core.Option.{get_or, some-injective}
use lightpath.Prelude.{
  ◌≡◌, refl, sym, ap, subst, ◌∙◌, String, false, Option, none, some, Bool-cases, Option-cases, inl,
  inr, List, [], ◌∷◌, ◌==◌, string_eq, arith, if◌then◌else◌, ◌&&◌,
}
use lightpath.Prelude.Dict.{
  Dict, lookup, insert, values, NodupKeys, AllEntries, lookup-insert, insert-NodupKeys,
  insert-AllEntries,
}
use lightpath.Prelude.MapRange.{MapRange, perm-lookup, collect, collect-perm}
use lightpath.Kube.{Service, EndpointSlice}
use lightpath.Translations.Envoy.{LbEndpoint, ClusterLoadAssignment}
use lightpath.Translations.Endpoints.{
  EndpointMeta, EndpointState, Locality, locality_eq, Groups, States, cluster_name_of, group_loop,
  assignment_loop, locality_loop, fill_loop, map_endpoint_slice_to_locality_endpoints,
  extract_endpoint_meta_and_state,
}
use lightpath.Translations.Helper.{get_cluster_name}
use lightpath.Translations.Endpoints.Groups.{lb_endpoint, members, belonging, members-group_loop}
use lightpath.Translations.Endpoints.Assigned.{
  assigned, from_entry, assigned-values, assigned-perm, IsGrouped, group-NodupKeys,
  group_loop-IsGrouped, locality_loop-at, locality_loop-name,
}

-- What the map of assignments holds before it is filled.
abbrev pub IsBlank : String → ClusterLoadAssignment → Type 0
IsBlank name assignment = (assignment.cluster_name ≡ name) × (assignment.endpoints ≡ [])

-- The members of a name that has an assignment.
abbrev members_if {κ} : {A : Type κ} → Option A → List LbEndpoint → List LbEndpoint
members_if none ms = []
members_if (some _) ms = ms

filled_entry :
    (r : MapRange) (groups : Groups) (name k : String) (locality : Locality)
    (assignment : ClusterLoadAssignment)
    → IsGrouped groups
    → IsBlank k assignment
    → from_entry name locality
        (k, locality_loop (r.visit _ (get_or (lookup k groups) [])) assignment)
      ≡ (if name == k then members k locality groups else [])
filled_entry r groups name k locality assignment g (named, bare) =
    let group = get_or (lookup k groups) [] in
    let visited = r.visit _ group in
    let (u, agree) = perm-lookup (r.visit_perm _ group) (group-NodupKeys k groups g) in
    let there = locality_loop-at locality visited assignment u in
    let called = locality_loop-name visited assignment in
    rw (there, called ∙ named, bare, ← agree locality) refl

collect-fill_loop :
    (r : MapRange) (groups : Groups) (name : String) (locality : Locality)
    (la : Dict String ClusterLoadAssignment)
    → IsGrouped groups
    → NodupKeys la
    → AllEntries IsBlank la
    → collect (from_entry name locality) (fill_loop r groups la)
      ≡ members_if (lookup name la) (members name locality groups)
unfolding fill_loop lookup
collect-fill_loop r groups name locality [] g u blank = refl
collect-fill_loop r groups name locality ((k, assignment) ∷ la) g (fresh, u) (b, blank) =
    let IH = collect-fill_loop r groups name locality la g u blank in
    let first = filled_entry r groups name k locality assignment g b in
    rw first (ground (arith, IH, fresh, append-nil (members k locality groups)))

-- The assignments have distinct names, are blank, and none is missing.
pub assignment_loop-NodupKeys :
    (svc : Service) (entries : List (EndpointMeta × EndpointState))
    (la : Dict String ClusterLoadAssignment)
    → NodupKeys la
    → NodupKeys (assignment_loop svc entries la)
unfolding assignment_loop
assignment_loop-NodupKeys svc [] la u = u
assignment_loop-NodupKeys svc ((meta, state) ∷ rest) la u =
    let name = cluster_name_of svc meta in
    elim (Option-cases (lookup name la)) [
      | inl absent ↦
          rw (assignment_loop, absent)
            (assignment_loop-NodupKeys svc rest _ (insert-NodupKeys name _ la u))
      | inr (a, present) ↦ rw (assignment_loop, present) (assignment_loop-NodupKeys svc rest la u)
    ]

pub assignment_loop-IsBlank :
    (svc : Service) (entries : List (EndpointMeta × EndpointState))
    (la : Dict String ClusterLoadAssignment)
    → AllEntries IsBlank la
    → AllEntries IsBlank (assignment_loop svc entries la)
unfolding assignment_loop
assignment_loop-IsBlank svc [] la h = h
assignment_loop-IsBlank svc ((meta, state) ∷ rest) la h =
    let name = cluster_name_of svc meta in
    elim (Option-cases (lookup name la)) [
      | inl absent ↦
          rw (assignment_loop, absent)
            (assignment_loop-IsBlank svc rest _
              (insert-AllEntries IsBlank name _ la (refl, refl) h))
      | inr (a, present) ↦ rw (assignment_loop, present) (assignment_loop-IsBlank svc rest la h)
    ]

-- One turn of the loop.
pub enter :
    Service → EndpointMeta → Dict String ClusterLoadAssignment → Dict String ClusterLoadAssignment
enter svc meta la =
    let name = cluster_name_of svc meta in
    elim (lookup name la) [
      | some _ ↦ la
      | none ↦ insert name (record { cluster_name = name; endpoints = [] }) la
    ]

enter_absent :
    (svc : Service) (meta : EndpointMeta) (la : Dict String ClusterLoadAssignment) (name : String)
    → lookup name (enter svc meta la) ≡ none
    → (lookup name la ≡ none) × ((name == cluster_name_of svc meta) ≡ false)
unfolding enter
enter_absent svc meta la name h =
    let own = cluster_name_of svc meta in
    ground (arith, h, lookup-insert name own (record { cluster_name = own; endpoints = [] }) la)

-- A name without an assignment has no entries.
assignment_loop_absent :
    (svc : Service) (entries : List (EndpointMeta × EndpointState))
    (la : Dict String ClusterLoadAssignment) (name : String) (locality : Locality)
    → lookup name (assignment_loop svc entries la) ≡ none
    → (lookup name la ≡ none) × (belonging svc name locality entries ≡ [])
unfolding assignment_loop enter cluster_name_of
assignment_loop_absent svc [] la name locality h = (h, refl)
assignment_loop_absent svc ((meta, state) ∷ rest) la name locality h =
    let (before, others) = assignment_loop_absent svc rest (enter svc meta la) name locality h in
    let (absent, miss) = enter_absent svc meta la name before in (absent, rw (miss, others) refl)

abbrev from_state : Service → String → Locality → EndpointMeta × EndpointState → List LbEndpoint
from_state svc name locality (meta, state) =
    if name == get_cluster_name svc.namespace svc.name meta.ip_family meta.port
      && locality == meta.locality
    then lb_endpoint meta state ∷ []
    else []

belonging-collect :
    (svc : Service) (name : String) (locality : Locality)
    (entries : List (EndpointMeta × EndpointState))
    → belonging svc name locality entries ≡ collect (from_state svc name locality) entries
belonging-collect svc name locality [] = refl
belonging-collect svc name locality ((meta, state) ∷ rest) =
    let IH = belonging-collect svc name locality rest in
    let own = get_cluster_name svc.namespace svc.name meta.ip_family meta.port in
    elim (Bool-cases (name == own && locality == meta.locality)) [
      | inl hit ↦ rw (hit, IH) refl
      | inr miss ↦ rw (miss, IH) refl
    ]

belonging-perm :
    (svc : Service) (name : String) (locality : Locality)
    {xs ys : List (EndpointMeta × EndpointState)}
    → Permᴰ xs ys
    → Permᴰ (belonging svc name locality xs) (belonging svc name locality ys)
belonging-perm svc name locality {xs} {ys} p =
    rw (belonging-collect svc name locality xs, belonging-collect svc name locality ys)
      (collect-perm (from_state svc name locality) p)

-- The filled assignments, before they are visited.
filled-belonging :
    (r : MapRange) (svc : Service) (entries : List (EndpointMeta × EndpointState)) (name : String)
    (locality : Locality)
    → assigned name locality
        (values (fill_loop r (group_loop svc entries []) (assignment_loop svc entries [])))
      ≡ belonging svc name locality entries
unfolding lookup
filled-belonging r svc entries name locality =
    let groups = group_loop svc entries [] in
    let la = assignment_loop svc entries [] in
    let grouped = members-group_loop svc entries [] name locality in
    let filled =
      assigned-values name locality (fill_loop r groups la)
      ∙ collect-fill_loop r groups name locality la (group_loop-IsGrouped svc entries [] tt)
          (assignment_loop-NodupKeys svc entries [] tt)
          (assignment_loop-IsBlank svc entries [] tt) in
    elim (Option-cases (lookup name la)) [
      | inl absent ↦
          filled
          ∙ ap (λ o. members_if o (members name locality groups)) absent
          ∙ sym (assignment_loop_absent svc entries [] name locality absent).1
      | inr (a, present) ↦
          filled ∙ ap (λ o. members_if o (members name locality groups)) present ∙ grouped
    ]

-- Each cluster and locality has in the load assignments the endpoints that the slices give it, each
-- once, in some order, and no others.
pub assigned-map :
    (r : MapRange) (svc : Service) (endpointslices : List EndpointSlice) (states : States)
    (out : List ClusterLoadAssignment) (name : String) (locality : Locality)
    → extract_endpoint_meta_and_state endpointslices ≡ some states
    → map_endpoint_slice_to_locality_endpoints r svc endpointslices ≡ some out
    → Perm (belonging svc name locality states) (assigned name locality out)
unfolding map_endpoint_slice_to_locality_endpoints
assigned-map r svc endpointslices states out name locality read made =
    let entries = r.visit _ states in
    let filled = fill_loop r (group_loop svc entries []) (assignment_loop svc entries []) in
    let shape : map_endpoint_slice_to_locality_endpoints r svc endpointslices
        ≡ some (values (r.visit _ filled)) =
      rw (map_endpoint_slice_to_locality_endpoints, read) refl in
    let visited = Permᴰ.trans (belonging-perm svc name locality (r.visit_perm _ states)) (
      subst (λ xs. Permᴰ xs (assigned name locality (values (r.visit _ filled))))
        (filled-belonging r svc entries name locality)
        (assigned-perm name locality (r.visit_perm _ filled))) in
    subst (λ o. Perm (belonging svc name locality states) (assigned name locality o))
      (some-injective _ out (sym shape ∙ made)) ∣ visited ∣₁
