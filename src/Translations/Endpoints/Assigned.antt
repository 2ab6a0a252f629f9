-- ===== src/Translations/Endpoints/Assigned.antt =====
-- What load assignments and groups hold for a cluster and a locality.
use mathlib.Core.List.{Permᴰ, append_assoc, append-nil}
use mathlib.Core.Option.{get_or}
use lightpath.Prelude.{
  ◌≡◌, refl, sym, ap, ◌∙◌, String, none, some, Bool-cases, Option-cases, inl, inr, List, [], ◌∷◌,
  ◌++◌, ◌==◌, Eq, string_eq, arith, if◌then◌else◌,
}
use lightpath.Prelude.Dict.{
  Dict, lookup, values, NodupKeys, AllEntries, insert-NodupKeys, insert-AllEntries,
  AllEntries-lookup,
}
use lightpath.Prelude.MapRange.{collect, collect-perm}
use lightpath.Kube.{Service}
use lightpath.Translations.Envoy.{LbEndpoint, LocalityLbEndpoints, ClusterLoadAssignment}
use lightpath.Translations.Endpoints.{
  EndpointMeta, EndpointState, Locality, locality_eq, Groups, cluster_name_of, add_endpoint,
  group_loop, locality_loop,
}

-- The endpoints of a locality.
abbrev pub at_locality : Locality → List LocalityLbEndpoints → List LbEndpoint
at_locality locality [] = []
at_locality locality (group ∷ rest) =
    let others = at_locality locality rest in
    if locality == record { zone = group.zone; sub_zone = group.sub_zone }
    then group.lb_endpoints ++ others
    else others

-- The endpoints that the assignments of a cluster name give a locality.
abbrev pub assigned : String → Locality → List ClusterLoadAssignment → List LbEndpoint
assigned name locality [] = []
assigned name locality (assignment ∷ rest) =
    let others = assigned name locality rest in
    if name == assignment.cluster_name
    then at_locality locality assignment.endpoints ++ others
    else others

abbrev pub from_entry : String → Locality → String × ClusterLoadAssignment → List LbEndpoint
from_entry name locality (_, assignment) =
    if name == assignment.cluster_name then at_locality locality assignment.endpoints else []

pub assigned-values :
    (name : String) (locality : Locality) (d : Dict String ClusterLoadAssignment)
    → assigned name locality (values d) ≡ collect (from_entry name locality) d
assigned-values name locality [] = refl
assigned-values name locality ((k, assignment) ∷ d) =
    let IH = assigned-values name locality d in
    elim (Bool-cases (name == assignment.cluster_name)) [
      | inl hit ↦ rw (hit, IH) refl
      | inr miss ↦ rw (miss, IH) refl
    ]

-- The order of the assignments does not matter.
pub assigned-perm :
    (name : String) (locality : Locality) {d f : Dict String ClusterLoadAssignment}
    → Permᴰ d f
    → Permᴰ (assigned name locality (values d)) (assigned name locality (values f))
assigned-perm name locality {d} {f} p =
    rw (assigned-values name locality d, assigned-values name locality f)
      (collect-perm (from_entry name locality) p)

-- The groups of a cluster have distinct localities.
abbrev pub IsGrouped : Groups → Type 0
IsGrouped = AllEntries (λ _ group. NodupKeys group)

pub group-NodupKeys :
    (name : String) (groups : Groups)
    → IsGrouped groups
    → NodupKeys (get_or (lookup name groups) [])
group-NodupKeys name groups h = elim (Option-cases (lookup name groups)) [
  | inl absent ↦ rw absent tt
  | inr (group, present) ↦ rw present (AllEntries-lookup _ name groups h present)
]

add_endpoint-IsGrouped :
    (svc : Service) (entry : EndpointMeta × EndpointState) (groups : Groups)
    → IsGrouped groups
    → IsGrouped (add_endpoint svc entry groups)
unfolding add_endpoint
add_endpoint-IsGrouped svc (meta, state) groups h =
    insert-AllEntries _ (cluster_name_of svc meta) _ groups
      (insert-NodupKeys meta.locality _ _ (group-NodupKeys (cluster_name_of svc meta) groups h)) h

pub group_loop-IsGrouped :
    (svc : Service) (entries : List (EndpointMeta × EndpointState)) (groups : Groups)
    → IsGrouped groups
    → IsGrouped (group_loop svc entries groups)
unfolding group_loop
group_loop-IsGrouped svc [] groups h = h
group_loop-IsGrouped svc (entry ∷ rest) groups h =
    group_loop-IsGrouped svc rest (add_endpoint svc entry groups)
      (add_endpoint-IsGrouped svc entry groups h)

at_locality-append :
    (locality : Locality) (xs ys : List LocalityLbEndpoints)
    → at_locality locality (xs ++ ys) ≡ at_locality locality xs ++ at_locality locality ys
at_locality-append locality [] ys = refl
at_locality-append locality (x ∷ xs) ys =
    let IH = at_locality-append locality xs ys in
    elim (Bool-cases (locality == record { zone = x.zone; sub_zone = x.sub_zone })) [
      | inl hit ↦ rw (hit, IH) (sym (append_assoc x.lb_endpoints _ _))
      | inr miss ↦ rw (miss, IH) refl
    ]

first_entry {ℓ κ} :
    {K : Type ℓ} {V : Type κ} ⦃e : Eq K⦄ (j k : K) (vs : List V) (d : Dict K (List V))
    → lookup k d ≡ none
    → (if j == k then vs ++ [] else []) ++ get_or (lookup j d) []
      ≡ get_or (if j == k then some vs else lookup j d) []
first_entry j k vs d fresh = ground (arith, append-nil vs, append-nil (vs ++ []))

-- The endpoints that a list of localities adds.
pub locality_loop-at :
    (locality : Locality) (group : Dict Locality (List LbEndpoint))
    (assignment : ClusterLoadAssignment)
    → NodupKeys group
    → at_locality locality (locality_loop group assignment).endpoints
      ≡ at_locality locality assignment.endpoints ++ get_or (lookup locality group) []
unfolding locality_loop lookup
locality_loop-at locality [] assignment u =
    sym (append-nil (at_locality locality assignment.endpoints))
locality_loop-at locality ((l, es) ∷ rest) assignment (fresh, u) =
    let longer : ClusterLoadAssignment = record assignment {
      endpoints =
          assignment.endpoints
          ++ (record { zone = l.zone; sub_zone = l.sub_zone; lb_endpoints = es } ∷ []);
    } in
    locality_loop-at locality rest longer u
    ∙ ap (λ xs. xs ++ get_or (lookup locality rest) [])
        (at_locality-append locality assignment.endpoints _)
    ∙ append_assoc (at_locality locality assignment.endpoints) _ _
    ∙ ap (λ xs. at_locality locality assignment.endpoints ++ xs)
        (first_entry locality l es rest fresh)

pub locality_loop-name :
    (group : Dict Locality (List LbEndpoint)) (assignment : ClusterLoadAssignment)
    → (locality_loop group assignment).cluster_name ≡ assignment.cluster_name
unfolding locality_loop
locality_loop-name [] assignment = refl
locality_loop-name (_ ∷ rest) assignment = locality_loop-name rest _
