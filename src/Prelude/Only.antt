-- ===== src/Prelude/Only.antt =====
-- The entries of a list that pass a test, and a list in which one entry passes.
use mathlib.Core.Path.{◌≡◌, refl, ap, subst}
use mathlib.Core.Logic.{inl, inr}
use mathlib.Core.Bool.{Bool, true, false}
use mathlib.Core.List.{List, [], ◌∷◌, ◌++◌, Permᴰ}
use mathlib.Core.List.Permᴰ
use native.Mathlib.Omega.{arith}
use lightpath.Prelude.Tests.{if◌then◌else◌, Bool-cases}
use lightpath.Prelude.Lists.{All}

empty_perm {ℓ} : {A : Type ℓ} {xs ys : List A} → Permᴰ xs ys → xs ≡ [] → ys ≡ []
empty_perm Permᴰ.nil e = e
empty_perm (Permᴰ.cons _ p) e = cc
empty_perm (Permᴰ.swap _ _) e = cc
empty_perm (Permᴰ.trans p q) e = empty_perm q (empty_perm p e)

singleton_perm {ℓ} : {A : Type ℓ} {xs ys : List A} (x : A) → Permᴰ xs ys → xs ≡ x ∷ [] → ys ≡ x ∷ []
singleton_perm x Permᴰ.nil e = e
singleton_perm x (Permᴰ.cons {l₁ = l₁} {l₂ = l₂} same p) e =
    cc (same, e, empty_perm p (ground (arith, e)))
singleton_perm x (Permᴰ.swap _ _) e = cc
singleton_perm x (Permᴰ.trans p q) e = singleton_perm x q (singleton_perm x p e)

module _ {A : Type 0} where
  add_perm :
      (b : Bool) (x : A) {l m : List A}
      → Permᴰ l m
      → Permᴰ (if b then x ∷ l else l) (if b then x ∷ m else m)
  add_perm true x q = Permᴰ.cons refl q
  add_perm false x q = q

  swap_perm :
      (b c : Bool) (x y : A) (l : List A)
      → Permᴰ
          (if b then x ∷ (if c then y ∷ l else l) else (if c then y ∷ l else l))
          (if c then y ∷ (if b then x ∷ l else l) else (if b then x ∷ l else l))
  swap_perm true true x y l = Permᴰ.swap refl refl
  swap_perm true false x y l = Permᴰ.refl (x ∷ l)
  swap_perm false true x y l = Permᴰ.refl (y ∷ l)
  swap_perm false false x y l = Permᴰ.refl l

module _ {A : Type 0} (p : A → Bool) where
  abbrev pub only : List A → List A
  only [] = []
  only (x ∷ xs) = let rest = only xs in if p x then x ∷ rest else rest

  only_perm : {xs ys : List A} → Permᴰ xs ys → Permᴰ (only xs) (only ys)
  only_perm Permᴰ.nil = Permᴰ.nil
  only_perm (Permᴰ.cons {a = a} {l₁ = l₁} {l₂ = l₂} same q) =
      subst (λ b. Permᴰ (only (a ∷ l₁)) (only (b ∷ l₂))) same (add_perm (p a) a (only_perm q))
  only_perm (Permᴰ.swap {a = a} {b = b} {a' = a'} {l = l} same same') =
      subst (λ b'. Permᴰ (only (a ∷ b ∷ l)) (only (a' ∷ b' ∷ l))) same
        (subst (λ a'. Permᴰ (only (a ∷ b ∷ l)) (only (a' ∷ a ∷ l))) same'
          (swap_perm (p a) (p b) a b (only l)))
  only_perm (Permᴰ.trans q r) = Permᴰ.trans (only_perm q) (only_perm r)

  only-none : (xs : List A) → only xs ≡ [] → All (λ x. p x ≡ false) xs
  only-none [] e = tt
  only-none (x ∷ xs) e = elim (Bool-cases (p x)) [
    | inl passes ↦ ground (arith, passes, e)
    | inr fails ↦ (fails, only-none xs (ground (arith, fails, e)))
  ]

  -- Around the one entry that passes.
  pub record Split (x : A) (xs : List A) : Type 0 where
    pub before : List A
    pub after : List A
    pub whole : xs ≡ before ++ (x ∷ after)
    pub none_before : All (λ y. p y ≡ false) before
    pub none_after : All (λ y. p y ≡ false) after

  only-Split : (x : A) (xs : List A) → only xs ≡ x ∷ [] → Split x xs
  only-Split x [] e = absurd (cc e)
  only-Split x (y ∷ xs) e = elim (Bool-cases (p y)) [
    | inl passes ↦ record {
      before = [];
      after = xs;
      whole = ground (arith, passes, e);
      none_before = tt;
      none_after = only-none xs (ground (arith, passes, e));
    }
    | inr fails ↦
        let s = only-Split x xs (ground (arith, fails, e)) in
        record {
          before = y ∷ s.before;
          after = s.after;
          whole = ap (◌∷◌ y) s.whole;
          none_before = (fails, s.none_before);
          none_after = s.none_after;
        }
  ]

  -- In any order.
  pub perm-Split : {xs ys : List A} (x : A) → Permᴰ xs ys → only xs ≡ x ∷ [] → Split x ys
  perm-Split x q e = only-Split x _ (singleton_perm x (only_perm q) e)

module _ {A : Type 0} (P : A → Type 0) where
  pub perm-All : {xs ys : List A} → Permᴰ xs ys → All P xs → All P ys
  perm-All Permᴰ.nil h = tt
  perm-All (Permᴰ.cons same q) (h, hs) = (subst P same h, perm-All q hs)
  perm-All (Permᴰ.swap same same') (h, (h', hs)) = (subst P same' h', (subst P same h, hs))
  perm-All (Permᴰ.trans q r) h = perm-All r (perm-All q h)

  module _ (p : A → Bool) where
    abbrev Both : A → Type 0
    Both y = P y × (p y ≡ false)

    both : (xs : List A) → All P xs → All (λ y. p y ≡ false) xs → All Both xs
    both [] h k = tt
    both (x ∷ xs) (h, hs) (k, ks) = ((h, k), both xs hs ks)

    append-All : (xs ys : List A) → All P (xs ++ ys) → All P xs × All P ys
    append-All [] ys h = (tt, h)
    append-All (x ∷ xs) ys (h, hs) = let (l, r) = append-All xs ys hs in ((h, l), r)

    -- What holds of all entries holds around the one that passes.
    pub around :
        (x : A) (xs : List A) (s : Split p x xs) → All P xs → All Both s.before × All Both s.after
    around x xs s h =
        let (l, r) = append-All s.before (x ∷ s.after) (subst (All P) s.whole h) in
        (both s.before l s.none_before, both s.after r.1 s.none_after)
