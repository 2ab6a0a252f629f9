-- ===== src/State/Service/Slices.antt =====
-- What `UpdatEndpointslices` does to the map of slices, on every branch.
use lightpath.Prelude.{
  ◌≡◌, ◌≢◌, ◌↔◌, String, Bool, true, false, Option, none, some, arith, ◌==◌, string_eq, text_ge,
  if◌then◌else◌,
}
use lightpath.Prelude.Dict.{lookup, lookup-insert, lookup-erase}
use lightpath.Kube.{EndpointSlice}
use lightpath.State.Service.{
  ServiceContainer, EndpointSliceOperationStatus, noop, updated, deleted, invalid_service_label,
  error, labelled_for, update_endpointslices,
}

-- The stored slice of a name, from the slice stored before and the status that is returned.
abbrev pub entry_after :
    EndpointSliceOperationStatus
    → EndpointSlice
    → String
    → Option EndpointSlice
    → Option EndpointSlice
entry_after updated es j old = if j == es.name then some es else old
entry_after deleted es j old = if j == es.name then none else old
entry_after _ es j old = old

-- The status alone tells what was written: nothing, the slice under its name, or its removal. The
-- service object stays.
pub lookup-update_endpointslices :
    (s : ServiceContainer) (es : EndpointSlice) (delete : Bool) (j : String)
    → (lookup j (update_endpointslices s (some es) delete).0.endpoint_slices
        ≡ entry_after
            (update_endpointslices s (some es) delete).1
            es
            j
            (lookup j s.endpoint_slices))
      × ((update_endpointslices s (some es) delete).0.obj ≡ s.obj)
unfolding update_endpointslices
lookup-update_endpointslices s es delete j =
    ground (
      arith,
      lookup-insert j es.name es s.endpoint_slices,
      lookup-erase j es.name s.endpoint_slices,
    )

-- The slice is stored in a version that is at least its own.
abbrev pub stored_at_least : ServiceContainer → EndpointSlice → Bool
stored_at_least s es = elim (lookup es.name s.endpoint_slices) [
  | none ↦ false
  | some existing ↦ text_ge existing.resource_version es.resource_version
]

module _ (s : ServiceContainer) (es : EndpointSlice) (delete : Bool) where
  -- When each status is returned: a slice of another service is refused, a removal is reported for
  -- a stored name only, an update is reported unless a version at least its own is stored, and the
  -- status `error` is for a nil slice alone.
  pub status-update_endpointslices :
      ((update_endpointslices s (some es) delete).1 ≡ invalid_service_label
        ↔ (labelled_for es s.obj.name ≡ false))
      × ((update_endpointslices s (some es) delete).1 ≡ deleted ↔ (
          (labelled_for es s.obj.name ≡ true)
          × (delete ≡ true)
          × (lookup es.name s.endpoint_slices ≢ none)))
      × ((update_endpointslices s (some es) delete).1 ≡ updated ↔ (
          (labelled_for es s.obj.name ≡ true) × (delete ≡ false) × (stored_at_least s es ≡ false)))
      × ((update_endpointslices s (some es) delete).1 ≢ error)
  unfolding update_endpointslices
  status-update_endpointslices = ground arith

  -- `noop` means that nothing was written.
  pub noop_unchanged :
      (update_endpointslices s (some es) delete).1 ≡ noop
      → (update_endpointslices s (some es) delete).0 ≡ s
  unfolding update_endpointslices
  noop_unchanged h = ground arith
