-- ===== src/Prelude/MapRange.antt =====
-- `for k, v := range m`: Go visits every entry of a map once, in an order that it does not fix.
use mathlib.Core.Path.{subst, ◌≡◌, refl, sym, ◌∙◌}
use mathlib.Core.Bool.{false}
use mathlib.Core.Option.{none}
use mathlib.Core.List.{List, [], ◌∷◌, ◌++◌, Permᴰ, append_assoc, append-nil}
use mathlib.Core.List.Permᴰ
use native.Mathlib.Omega.{arith}
use lightpath.Prelude.Equality.{Eq, ◌==◌}
use lightpath.Prelude.Dict.{Dict, lookup, NodupKeys, insert}

pub record MapRange : Type 1 where
  pub visit : (A : Type 0) → List A → List A
  pub visit_perm : (A : Type 0) (xs : List A) → Permᴰ xs (visit A xs)

perm_nil : {A : Type 0} {xs ys : List A} → Permᴰ xs ys → xs ≡ [] → ys ≡ []
perm_nil Permᴰ.nil e = refl
perm_nil (Permᴰ.cons _ p) e = cc
perm_nil (Permᴰ.swap _ _) e = cc
perm_nil (Permᴰ.trans p q) e = perm_nil q (perm_nil p e)

pub visit-nil : (r : MapRange) {A : Type 0} → r.visit A [] ≡ []
visit-nil r = perm_nil (r.visit_perm _ []) refl

abbrev pub in_order : MapRange
in_order = record { visit = λ A xs. xs; visit_perm = λ A xs. Permᴰ.refl xs }

-- The assignments `copy[k] = v` for the entries in turn.
unfoldable pub assign_all {ℓ κ} :
    {K : Type ℓ} {V : Type κ} ⦃e : Eq K⦄ → Dict K V → Dict K V → Dict K V
assign_all [] copy = copy
assign_all ((k, v) ∷ d) copy = assign_all d (insert k v copy)

module _ {ℓ κ} {K : Type ℓ} {V : Type κ} ⦃e : Eq K⦄ where
  middle_differs :
      (i k : K) (v : V) (copy d : Dict K V)
      → lookup i (copy ++ ((k, v) ∷ d)) ≡ none
      → (i == k) ≡ false
  unfolding lookup
  middle_differs i k v [] d h = ground arith
  middle_differs i k v ((j, w) ∷ copy) d h = middle_differs i k v copy d (ground arith)

  middle_absent :
      (k : K) (v : V) (copy d : Dict K V) → NodupKeys (copy ++ ((k, v) ∷ d)) → lookup k copy ≡ none
  unfolding lookup
  middle_absent k v [] d u = refl
  middle_absent k v ((j, w) ∷ copy) d (fresh, u) =
      ground (arith, middle_absent k v copy d u, middle_differs j k v copy d fresh)

  insert_absent :
      (k : K) (v : V) (d : Dict K V) → lookup k d ≡ none → insert k v d ≡ d ++ ((k, v) ∷ [])
  unfolding lookup insert
  insert_absent k v [] h = refl
  insert_absent k v ((j, w) ∷ d) h = ground (arith, insert_absent k v d)

  assign_all-append : (d copy : Dict K V) → NodupKeys (copy ++ d) → assign_all d copy ≡ copy ++ d
  unfolding assign_all
  assign_all-append [] copy u = sym (append-nil copy)
  assign_all-append ((k, v) ∷ d) copy u =
      rw (insert_absent k v copy (middle_absent k v copy d u))
        (assign_all-append d (copy ++ ((k, v) ∷ [])) (rw append_assoc u) ∙ append_assoc copy _ d)

  -- Entries with distinct keys, assigned to an empty map, are that map.
  pub assign_all-nil : (d : Dict K V) → NodupKeys d → assign_all d [] ≡ d
  assign_all-nil d u = assign_all-append d [] u

  abbrev Alike : Dict K V → Dict K V → Type (ℓ ⊔ κ)
  Alike d f = NodupKeys f × ((k : K) → lookup k d ≡ lookup k f)

  cons-Alike :
      (a b : K × V) (d f : Dict K V) → a ≡ b → NodupKeys (a ∷ d) → Alike d f → Alike (a ∷ d) (b ∷ f)
  unfolding lookup
  cons-Alike (j, v) (k, w) d f same (fresh, u) (u', agree) =
      ((ground (arith, agree j), u'), λ i. ground (arith, agree i))

  swap-Alike :
      (a b a' b' : K × V) (d : Dict K V)
      → a ≡ b'
      → b ≡ a'
      → NodupKeys (a ∷ b ∷ d)
      → Alike (a ∷ b ∷ d) (a' ∷ b' ∷ d)
  unfolding lookup
  swap-Alike (j, v) (k, w) (j', v') (k', w') d p q (fresh, (fresh', u)) =
      ((ground arith, (ground arith, u)), λ i. ground arith)

  -- The order of the entries of a map with distinct keys does not matter to a reader.
  pub perm-lookup :
      {d f : Dict K V} → Permᴰ d f → NodupKeys d → NodupKeys f × ((k : K) → lookup k d ≡ lookup k f)
  perm-lookup Permᴰ.nil u = (u, λ k. refl)
  perm-lookup (Permᴰ.cons {a} {b} {l₁} {l₂} same p) u =
      cons-Alike a b l₁ l₂ same u (perm-lookup p u.1)
  perm-lookup (Permᴰ.swap {a} {b} {a'} {b'} {l} p q) u = swap-Alike a b a' b' l p q u
  perm-lookup (Permᴰ.trans p q) u =
      let (v, agree) = perm-lookup p u in
      let (w, agree') = perm-lookup q v in (w, λ k. agree k ∙ agree' k)

-- What the members of a list give, one after the other.
abbrev pub collect {ℓ κ} : {A : Type ℓ} {B : Type κ} → (A → List B) → List A → List B
collect f [] = []
collect f (x ∷ xs) = f x ++ collect f xs

-- Visiting in another order gives the same members in another order.
pub collect-perm {ℓ κ} :
    {A : Type ℓ} {B : Type κ} (f : A → List B) {xs ys : List A}
    → Permᴰ xs ys
    → Permᴰ (collect f xs) (collect f ys)
collect-perm f Permᴰ.nil = Permᴰ.nil
collect-perm f (Permᴰ.cons {a} {b} {l₁} {l₂} same p) =
    subst (λ x. Permᴰ (f a ++ collect f l₁) (f x ++ collect f l₂)) same
      (Permᴰ.append_left (f a) (collect-perm f p))
collect-perm f (Permᴰ.swap {a} {b} {a'} {b'} {l} p q) =
    subst (λ x. Permᴰ (f a ++ (f b ++ collect f l)) (f a' ++ (f x ++ collect f l))) p
      (subst (λ x. Permᴰ (f a ++ (f b ++ collect f l)) (f x ++ (f a ++ collect f l))) q
        (rw (← append_assoc (f a) (f b) (collect f l), ← append_assoc (f b) (f a) (collect f l))
          (Permᴰ.append_right (collect f l) (Permᴰ.append_comm (f a) (f b)))))
collect-perm f (Permᴰ.trans p q) = Permᴰ.trans (collect-perm f p) (collect-perm f q)
