-- ===== src/State/Cache/Change.antt =====
-- What the two update calls write, and what their answer says of it.
use Prim.Native.Char.{Char, code}
use lightpath.Prelude.{
  ◌≡◌, refl, ap, ◌≢◌, ◌↔◌, ◌<◌, String, Bool, true, false, not, ◌&&◌, Option, none, some, [], arith,
  ◌==◌, ==_refl, string_eq, text_ge, if◌then◌else◌, Option-cases, Bool-cases, inl, inr,
}
use lightpath.Prelude.TextOrder.{text_ge_refl, text_ge_first}
use lightpath.Prelude.Dict.{Dict, lookup, lookup-insert, lookup-erase, insert_same}
use lightpath.Kube
use lightpath.Kube.{EndpointSlice, label_service_name}
use lightpath.State.Service.{ServiceContainer}
use lightpath.State.Service.Slices.{noop_unchanged}
use lightpath.State.Cache.{ClusterServiceStateCache, update_services, update_endpoint_slice}

-- The slices that a container has, none if there is no container.
abbrev pub slices_of : Option ServiceContainer → Dict String EndpointSlice
slices_of none = []
slices_of (some s) = s.endpoint_slices

-- The entry of a name after a service event that was accepted.
abbrev pub service_after : Bool → Kube.Service → Option ServiceContainer → Option ServiceContainer
service_after true svc old = none
service_after false svc old =
    some (record { obj = svc; opts = tt; endpoint_slices = slices_of old })

with_object : ClusterServiceStateCache → Kube.Service → ServiceContainer
with_object c svc = record {
  obj = svc;
  opts = tt;
  endpoint_slices = slices_of (lookup svc.name c.services);
}

-- Whether the object is new to the cache, or stored in a version that is smaller as a string.
abbrev pub is_news : Kube.Service → Option ServiceContainer → Bool
is_news svc none = true
is_news svc (some s) = not (text_ge s.obj.resource_version svc.resource_version)

module _ (c : ClusterServiceStateCache) (svc : Kube.Service) (delete : Bool) where
  -- An accepted service event writes one entry: a deletion removes the service's container, an
  -- addition or update puts the new object into it and keeps its endpoint slices. A refused one
  -- leaves the cache as it was.
  pub lookup-update_services :
      (j : String)
      → lookup j (update_services c (some svc) delete).0.services ≡ (
          if (update_services c (some svc) delete).1 && j == svc.name
          then service_after delete svc (lookup j c.services)
          else lookup j c.services)
  unfolding update_services with_object
  lookup-update_services j = ground (
    arith,
    lookup-erase j svc.name c.services,
    lookup-insert j svc.name (with_object c svc) c.services,
  )

  -- A deletion is accepted for a stored name, an addition or update for news.
  pub accepts-update_services :
      (delete ≡ true
        → ((update_services c (some svc) delete).1 ≡ true) ↔ (lookup svc.name c.services ≢ none))
      × (delete ≡ false
          → (update_services c (some svc) delete).1 ≡ is_news svc (lookup svc.name c.services))
  unfolding update_services
  accepts-update_services = ground arith

  refused_unchanged :
      (update_services c (some svc) delete).1 ≡ false → (update_services c (some svc) delete).0 ≡ c
  unfolding update_services
  refused_unchanged h = ground arith

  accepted_changes :
      (update_services c (some svc) delete).1 ≡ true → (update_services c (some svc) delete).0 ≢ c
  accepted_changes h same = ground (
    arith,
    lookup-update_services svc.name,
    ap (λ (d : ClusterServiceStateCache). lookup svc.name d.services) same,
    accepts-update_services,
    ==_refl svc.name,
    text_ge_refl svc.resource_version,
  )

-- The answer `false` means exactly that the cache is as it was, also for a nil object.
pub update_services-false_iff :
    (c : ClusterServiceStateCache) (svc : Option Kube.Service) (delete : Bool)
    → ((update_services c svc delete).1 ≡ false) ↔ ((update_services c svc delete).0 ≡ c)
unfolding update_services
update_services-false_iff c none delete = (λ _. refl, λ _. refl)
update_services-false_iff c (some svc) delete = (
  refused_unchanged c svc delete,
  λ same. elim (Bool-cases (update_services c (some svc) delete).1) [
    | inl accepted ↦ absurd (accepted_changes c svc delete accepted same)
    | inr refused ↦ refused
  ],
)

module _ (c : ClusterServiceStateCache) where
  -- An event on a slice whose answer is `false` leaves the cache as it was.
  pub update_endpoint_slice_unreported :
      (es : Option EndpointSlice) (delete : Bool)
      → (update_endpoint_slice c es delete).1 ≡ false
      → (update_endpoint_slice c es delete).0 ≡ c
  unfolding update_endpoint_slice
  update_endpoint_slice_unreported none delete h = refl
  update_endpoint_slice_unreported (some es) delete h =
      elim (Option-cases (lookup label_service_name es.labels)) [
        | inl bare ↦ ground arith
        | inr (n, label) ↦ elim (Option-cases (lookup n c.services)) [
          | inl unknown ↦ ground arith
          | inr (s, known) ↦
              ground (arith, noop_unchanged s es delete, insert_same n s c.services known)
        ]
      ]

  -- Versions are compared as strings: where the stored version begins with the greater character,
  -- an update is dropped, however many digits its version has.
  pub update_services_drops :
      (old new : Kube.Service) (slices : Dict String EndpointSlice) (a b : Char) (v w : String)
      → lookup new.name c.services
        ≡ some (record { obj = old; opts = tt; endpoint_slices = slices })
      → old.resource_version ≡ String.◌∷◌ a v
      → new.resource_version ≡ String.◌∷◌ b w
      → code b < code a
      → update_services c (some new) false ≡ (c, false)
  unfolding update_services
  update_services_drops old new slices a b v w stored from to less =
      ground (arith, text_ge_first a b v w less)
