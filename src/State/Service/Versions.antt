-- ===== src/State/Service/Versions.antt =====
-- The versions of the stored slices over a history of updates and deletions. Versions are compared as strings.
use lightpath.Prelude.{
  ◌≡◌, ap, ◌∙◌, ◌⊎◌, Bool, ◌&&◌, ◌==◌, ◌++◌, String, true, false, some, List, [], ◌∷◌, arith,
  string_eq, text_ge, inl, inr,
}
use lightpath.Prelude.Lists.{any}
use lightpath.Prelude.TextOrder.{text_ge_refl, text_ge_trans, text_ge_total}
use lightpath.Prelude.Dict.{lookup, insert, lookup-insert, lookup-erase}
use lightpath.Kube.{EndpointSlice}
use lightpath.State.Service.{ServiceContainer, labelled_for, update_endpointslices}
use lightpath.State.Service.Slices.{stored_at_least}

-- The slices that are handed to the container, and whether as a deletion.
abbrev pub History : Type 0
History = List (EndpointSlice × Bool)

-- The container after a history.
unfoldable pub update_all : ServiceContainer → History → ServiceContainer
update_all s [] = s
update_all s ((es, delete) ∷ history) =
    update_all (update_endpointslices s (some es) delete).0 history

-- A slice of the name is deleted, under the label of the service.
abbrev pub deletes : String → String → History → Bool
deletes svc_name name =
    any (λ (es, delete). delete && (labelled_for es svc_name && name == es.name))

-- A slice of this name is stored, in a version that is not smaller than the given one as a string.
abbrev pub StoredSince : ServiceContainer → String → String → Type 0
StoredSince s name version =
    (e : EndpointSlice) × (lookup name s.endpoint_slices ≡ some e)
    × (text_ge e.resource_version version ≡ true)

module _ (s : ServiceContainer) (es : EndpointSlice) where
  abbrev after_step : ServiceContainer
  after_step = (update_endpointslices s (some es) false).0

  -- The slice is stored, or the container stays and holds what is at least as new.
  step_cases :
      ((after_step ≡ s)
        × (labelled_for es s.obj.name ≡ true → StoredSince s es.name es.resource_version))
      ⊎ ((after_step.endpoint_slices ≡ insert es.name es s.endpoint_slices)
          × (stored_at_least s es ≡ false))
  unfolding update_endpointslices
  step_cases = ground arith

  step_obj : after_step.obj ≡ s.obj
  unfolding update_endpointslices
  step_obj = ground arith

  overwritten :
      (name : String) (e : EndpointSlice)
      → stored_at_least s es ≡ false
      → lookup name s.endpoint_slices ≡ some e
      → name ≡ es.name
      → text_ge es.resource_version e.resource_version ≡ true
  overwritten name e older found hit =
      text_ge_total e.resource_version es.resource_version (ground arith)

  step_keeps :
      (name version : String) → StoredSince s name version → StoredSince after_step name version
  step_keeps name version (e, found, since) = elim step_cases [
    | inl (same, _) ↦ (e, rw same found, since)
    | inr (ins, older) ↦ elim (string_eq.dec name es.name) [
      | yes hit ↦ (
        es,
        rw (ins, lookup-insert) (ground arith),
        text_ge_trans _ _ version (overwritten name e older found hit) since,
      )
      | no miss ↦ (e, rw (ins, lookup-insert) (ground arith), since)
    ]
  ]

  step_stores :
      labelled_for es s.obj.name ≡ true → StoredSince after_step es.name es.resource_version
  step_stores h = elim step_cases [
    | inl (same, held) ↦ rw same (held h)
    | inr (ins, _) ↦ (es, rw (ins, lookup-insert) (ground arith), text_ge_refl es.resource_version)
  ]

module _ (s : ServiceContainer) (es : EndpointSlice) where
  deletion_obj : (update_endpointslices s (some es) true).0.obj ≡ s.obj
  unfolding update_endpointslices
  deletion_obj = ground arith

  -- The deletion of another slice, or one under another label.
  deletion_keeps :
      (name version : String)
      → (labelled_for es s.obj.name && name == es.name) ≡ false
      → StoredSince s name version
      → StoredSince (update_endpointslices s (some es) true).0 name version
  unfolding update_endpointslices
  deletion_keeps name version other (e, found, since) =
      (e, ground (arith, other, found, lookup-erase name es.name s.endpoint_slices), since)

-- A stored version does not get smaller but by a deletion.
pub update_all_keeps :
    (s : ServiceContainer) (history : History) (name version : String)
    → deletes s.obj.name name history ≡ false
    → StoredSince s name version
    → StoredSince (update_all s history) name version
unfolding update_all
update_all_keeps s [] name version kept h = h
update_all_keeps s ((es, false) ∷ history) name version kept h =
    update_all_keeps (after_step s es) history name version
      (ap (λ o. deletes o.name name history) (step_obj s es) ∙ kept)
      (step_keeps s es name version h)
update_all_keeps s ((es, true) ∷ history) name version kept h =
    update_all_keeps (update_endpointslices s (some es) true).0 history name version
      (ap (λ o. deletes o.name name history) (deletion_obj s es) ∙ ground (arith, kept))
      (deletion_keeps s es name version (ground (arith, kept)) h)

-- In any history of additions, updates and deletions: a slice that is offered for the service, and
-- after which none of its name is deleted under the label of the service, leaves a slice of its name
-- stored, in a version that is not smaller than its own as a string.
pub update_all_newest :
    (s : ServiceContainer) (before after : History) (es : EndpointSlice)
    → labelled_for es s.obj.name ≡ true
    → deletes s.obj.name es.name after ≡ false
    → StoredSince (update_all s (before ++ ((es, false) ∷ after))) es.name es.resource_version
unfolding update_all
update_all_newest s [] after es h kept =
    update_all_keeps (after_step s es) after es.name es.resource_version
      (ap (λ o. deletes o.name es.name after) (step_obj s es) ∙ kept) (step_stores s es h)
update_all_newest s ((e, false) ∷ before) after es h kept =
    update_all_newest (after_step s e) before after es
      (ap (λ o. labelled_for es o.name) (step_obj s e) ∙ h)
      (ap (λ o. deletes o.name es.name after) (step_obj s e) ∙ kept)
update_all_newest s ((e, true) ∷ before) after es h kept =
    update_all_newest (update_endpointslices s (some e) true).0 before after es
      (ap (λ o. labelled_for es o.name) (deletion_obj s e) ∙ h)
      (ap (λ o. deletes o.name es.name after) (deletion_obj s e) ∙ kept)
