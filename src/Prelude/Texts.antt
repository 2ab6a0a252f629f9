-- ===== src/Prelude/Texts.antt =====
-- Lists of texts as sets: membership, difference and distinct members.
use mathlib.Core.Bool.{Bool-discrete}
use mathlib.Core.List.{Perm, Permᴰ, filter}
use mathlib.Core.List.Perm
use Prim.Native.Nat.{ℕ, ◌+◌}
use Prim.Native.String.{String}
use mathlib.Core.Path.{◌≡◌, refl, sym, ap, ◌∙◌}
use mathlib.Core.Bool.{Bool, true, false, not, ◌&&◌, ◌||◌}
use mathlib.Core.List.{List, [], ◌∷◌, ◌++◌, map}
use native.Mathlib.Omega.{arith}
use lightpath.Prelude.Tests.{if◌then◌else◌}
use lightpath.Prelude.Equality.{◌==◌, ==_refl, string_eq}

abbrev pub contains : String → List String → Bool
contains t [] = false
contains t (x ∷ xs) = t == x || contains t xs

-- The texts of the second list that the first lacks, in order.
abbrev pub outside : List String → List String → List String
outside xs [] = []
outside xs (y ∷ ys) = let rest = outside xs ys in if contains y xs then rest else y ∷ rest

-- Every text of the first list is in the second.
abbrev pub within : List String → List String → Bool
within [] ys = true
within (x ∷ xs) ys = contains x ys && within xs ys

pub within-contains :
    (t : String) (xs ys : List String)
    → within xs ys ≡ true
    → contains t xs ≡ true
    → contains t ys ≡ true
within-contains t [] ys h m = ground (arith, m)
within-contains t (x ∷ xs) ys h m = ground (arith, h, m, within-contains t xs ys)

contains-within :
    (xs ys : List String)
    → ((t : String) → contains t xs ≡ true → contains t ys ≡ true)
    → within xs ys ≡ true
contains-within [] ys h = refl
contains-within (x ∷ xs) ys h =
    let rest = contains-within xs ys (λ t m. h t (ground (arith, m))) in
    ground (arith, rest, h x, ==_refl x)

within_via :
    (xs ys zs : List String)
    → ((t : String) → contains t xs ≡ contains t ys)
    → within ys zs ≡ true
    → within xs zs ≡ true
within_via xs ys zs same h =
    contains-within xs zs (λ t m. within-contains t ys zs h (sym (same t) ∙ m))

-- It does not depend on order and repetitions.
pub within_same :
    (xs ys zs : List String)
    → ((t : String) → contains t xs ≡ contains t ys)
    → within xs zs ≡ within ys zs
within_same xs ys zs same =
    ground (arith, within_via xs ys zs same, within_via ys xs zs (λ t. sym (same t)))

-- The texts without repetitions.
abbrev pub distinct : List String → List String
distinct [] = []
distinct (x ∷ xs) = x ∷ outside (x ∷ []) (distinct xs)

pub contains-append :
    (t : String) (xs ys : List String) → contains t (xs ++ ys) ≡ (contains t xs || contains t ys)
contains-append t [] ys = refl
contains-append t (x ∷ xs) ys = ground (arith, contains-append t xs ys)

pub contains-outside :
    (t : String) (xs ys : List String)
    → contains t (outside xs ys) ≡ (contains t ys && not (contains t xs))
contains-outside t xs [] = refl
contains-outside t xs (y ∷ ys) = ground (arith, contains-outside t xs ys)

pub outside_skip :
    (x : String) (ks ys : List String)
    → contains x ks ≡ true
    → outside ks (outside (x ∷ []) ys) ≡ outside ks ys
outside_skip x ks [] h = refl
outside_skip x ks (y ∷ ys) h = ground (arith, outside_skip x ks ys h)

pub outside_both :
    (x : String) (ks ys : List String)
    → outside (ks ++ (x ∷ [])) ys ≡ outside ks (outside (x ∷ []) ys)
outside_both x ks [] = refl
outside_both x ks (y ∷ ys) = ground (arith, outside_both x ks ys, contains-append y ks (x ∷ []))

pub outside_none : (xs : List String) → outside [] xs ≡ xs
outside_none [] = refl
outside_none (x ∷ xs) = ap (◌∷◌ x) (outside_none xs)

outside-filter :
    (ns xs : List String) → outside ns xs ≡ filter (λ x. Bool-discrete (contains x ns) false) xs
outside-filter ns [] = refl
outside-filter ns (x ∷ xs) = ground (arith, outside-filter ns xs)

pub outside-perm :
    (ns : List String) {xs ys : List String} → Perm xs ys → Perm (outside ns xs) (outside ns ys)
outside-perm ns {xs} {ys} p = rw (outside-filter ns xs, outside-filter ns ys) (Perm.filter _ p)

pub contains-map :
    (f : String → String) (t : String) (xs : List String)
    → contains t xs ≡ true
    → contains (f t) (map f xs) ≡ true
contains-map f t [] h = cc
contains-map f t (x ∷ xs) h = ground (arith, contains-map f t xs)

module _ {ℓ} {A : Type ℓ} (name_of : A → String) where
  -- How many entries have a name.
  abbrev pub named : String → List A → ℕ
  named name [] = 0
  named name (x ∷ xs) = (if name == name_of x then 1 else 0) + named name xs

  pub named-append :
      (name : String) (xs ys : List A) → named name (xs ++ ys) ≡ named name xs + named name ys
  named-append name [] ys = ground arith
  named-append name (x ∷ xs) ys = ground (arith, named-append name xs ys)

  pub named-perm : (name : String) {xs ys : List A} → Permᴰ xs ys → named name xs ≡ named name ys
  named-perm name Permᴰ.nil = refl
  named-perm name (Permᴰ.cons same p) = ground (arith, ap name_of same, named-perm name p)
  named-perm name (Permᴰ.swap same same') = ground (arith, ap name_of same, ap name_of same')
  named-perm name (Permᴰ.trans p q) = named-perm name p ∙ named-perm name q
