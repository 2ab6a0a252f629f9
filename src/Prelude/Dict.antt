-- ===== src/Prelude/Dict.antt =====
-- Go's maps as association lists with distinct keys. Proofs go by the laws.
use mathlib.Core.Path.{◌≡◌, refl, sym, subst, ap}
use mathlib.Core.Logic.{◌⊎◌, inl, inr}
use mathlib.Core.Option
use mathlib.Core.Option.{Option, none, some}
use mathlib.Core.List.{List, [], ◌∷◌, map}
use native.Mathlib.Omega.{arith}
use lightpath.Prelude.Tests.{if◌then◌else◌, Bool-cases}
use lightpath.Prelude.Equality.{Eq, ◌==◌}
use lightpath.Prelude.Lists.{All}

abbrev pub Dict {ℓ κ} : Type ℓ → Type κ → Type (ℓ ⊔ κ)
Dict K V = List (K × V)

-- The values in the map's order.
abbrev pub values {ℓ κ} : {K : Type ℓ} {V : Type κ} → Dict K V → List V
values = map (λ (_, v). v)

-- The keys in the map's order.
abbrev pub keys {ℓ κ} : {K : Type ℓ} {V : Type κ} → Dict K V → List K
keys = map (λ (k, _). k)

-- Every value satisfies a predicate that knows its key.
abbrev pub AllEntries {ℓ κ μ} : {K : Type ℓ} {V : Type κ} → (K → V → Type μ) → Dict K V → Type μ
AllEntries P = All (λ (k, v). P k v)

-- The same keys with other values.
abbrev pub map_values {ℓ κ μ} :
    {K : Type ℓ} {V : Type κ} {W : Type μ} → (V → W) → Dict K V → Dict K W
map_values f = map (λ (k, v). (k, f v))

module _ {ℓ κ} {K : Type ℓ} {V : Type κ} ⦃e : Eq K⦄ where
  -- `v, ok := d[k]`
  unfoldable pub lookup : K → Dict K V → Option V
  lookup k [] = none
  lookup k ((j, v) ∷ d) = if k == j then some v else lookup k d

  -- `d[k] = v`
  unfoldable pub insert : K → V → Dict K V → Dict K V
  insert k v [] = (k, v) ∷ []
  insert k v ((j, w) ∷ d) = if k == j then (k, v) ∷ d else (j, w) ∷ insert k v d

  -- `delete(d, k)`
  unfoldable pub erase : K → Dict K V → Dict K V
  erase k [] = []
  erase k ((j, w) ∷ d) = let rest = erase k d in if k == j then rest else (j, w) ∷ rest

  abbrev pub NodupKeys : Dict K V → Type κ
  NodupKeys [] = Unit
  NodupKeys ((k, _) ∷ d) = (lookup k d ≡ none) × NodupKeys d

  pub lookup-cons :
      (j k : K) (v : V) (d : Dict K V)
      → lookup j ((k, v) ∷ d) ≡ (if j == k then some v else lookup j d)
  unfolding lookup
  lookup-cons j k v d = refl

  pub lookup-insert :
      (j k : K) (v : V) (d : Dict K V)
      → lookup j (insert k v d) ≡ (if j == k then some v else lookup j d)
  unfolding lookup insert
  lookup-insert j k v [] = refl
  lookup-insert j k v (_ ∷ d) = ground (arith, lookup-insert j k v d)

  pub lookup-erase :
      (j k : K) (d : Dict K V) → lookup j (erase k d) ≡ (if j == k then none else lookup j d)
  unfolding lookup erase
  lookup-erase j k [] = ground arith
  lookup-erase j k (_ ∷ d) = ground (arith, lookup-erase j k d)

  -- Storing what is there already changes nothing.
  pub insert_same : (k : K) (v : V) (d : Dict K V) → lookup k d ≡ some v → insert k v d ≡ d
  unfolding lookup insert
  insert_same k v [] h = cc
  insert_same k v ((j, w) ∷ d) h = ground (arith, insert_same k v d)

  pub insert-NodupKeys : (k : K) (v : V) (d : Dict K V) → NodupKeys d → NodupKeys (insert k v d)
  unfolding lookup insert
  insert-NodupKeys k v [] _ = (refl, tt)
  insert-NodupKeys k v ((j, _) ∷ d) (fresh, u) =
      ground (arith, insert-NodupKeys k v d u, lookup-insert j k v d)

  pub erase-NodupKeys : (k : K) (d : Dict K V) → NodupKeys d → NodupKeys (erase k d)
  unfolding lookup erase
  erase-NodupKeys k [] _ = tt
  erase-NodupKeys k ((j, _) ∷ d) (fresh, u) =
      ground (arith, erase-NodupKeys k d u, lookup-erase j k d)

  lookup_hit :
      (k j : K) (v w : V) (d : Dict K V)
      → lookup k ((j, w) ∷ d) ≡ some v
      → ((k ≡ j) × (w ≡ v)) ⊎ (lookup k d ≡ some v)
  unfolding lookup
  lookup_hit k j v w d found = ground arith

  module _ {μ} (P : K → V → Type μ) where
    pub AllEntries-lookup :
        (k : K) (d : Dict K V) {v : V} → AllEntries P d → lookup k d ≡ some v → P k v
    unfolding lookup
    AllEntries-lookup k [] h found = absurd (cc)
    AllEntries-lookup k ((j, w) ∷ d) {v} h found = elim (lookup_hit k j v w d found) [
      | inl (same, held) ↦ subst (λ i. P i v) (sym same) (subst (P j) held h.0)
      | inr below ↦ AllEntries-lookup k d h.1 below
    ]

    pub insert-AllEntries :
        (k : K) (v : V) (d : Dict K V) → P k v → AllEntries P d → AllEntries P (insert k v d)
    unfolding insert
    insert-AllEntries k v [] hv h = (hv, tt)
    insert-AllEntries k v ((j, w) ∷ d) hv h = elim (Bool-cases (k == j)) [
      | inl hit ↦ rw hit (hv, h.1)
      | inr miss ↦ rw miss (h.0, insert-AllEntries k v d hv h.1)
    ]

    pub erase-AllEntries : (k : K) (d : Dict K V) → AllEntries P d → AllEntries P (erase k d)
    unfolding erase
    erase-AllEntries k [] h = tt
    erase-AllEntries k ((j, w) ∷ d) h = elim (Bool-cases (k == j)) [
      | inl hit ↦ rw hit (erase-AllEntries k d h.1)
      | inr miss ↦ rw miss (h.0, erase-AllEntries k d h.1)
    ]

module _ {ℓ κ μ} {K : Type ℓ} {V : Type κ} {W : Type μ} ⦃e : Eq K⦄ (f : V → W) where
  pub lookup-map_values :
      (k : K) (d : Dict K V) → lookup k (map_values f d) ≡ Option.map f (lookup k d)
  unfolding lookup
  lookup-map_values k [] = refl
  lookup-map_values k ((j, v) ∷ d) = ground (arith, lookup-map_values k d)

  pub map_values-NodupKeys : (d : Dict K V) → NodupKeys d → NodupKeys (map_values f d)
  map_values-NodupKeys [] u = tt
  map_values-NodupKeys ((j, v) ∷ d) u = (rw (lookup-map_values, u.0), map_values-NodupKeys d u.1)

  pub values-map_values : (d : Dict K V) → values (map_values f d) ≡ map f (values d)
  values-map_values [] = refl
  values-map_values ((j, v) ∷ d) = ap (◌∷◌ (f v)) (values-map_values d)
