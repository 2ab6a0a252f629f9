-- ===== src/Translations/Helper/Names.antt =====
-- Cluster and listener names tell their parts apart.
use Prim.Native.Char.{code}
use Prim.Native.String.append
use text.Mathlib.TextLemmas.{tail-eq_of_cons-eq, head-eq_of_cons-eq}
use lightpath.Prelude.{
  inl, inr, Bool-cases, ◌≡◌, refl, sym, ap, ◌∙◌, String, ◌<>◌, Bool, false, ◌||◌, arith, eqb,
}
use lightpath.Prelude.Int.{ℤ}
use lightpath.Prelude.Decimal.{sprint_inj}
use lightpath.Translations.Helper.{
  bar, contains_colon, ip_string_to_ip_family, get_cluster_name, get_listener_name,
}

-- The text has no bar, as is true of the names of Kubernetes objects, IP families and addresses.
abbrev pub has_bar : String → Bool
has_bar String.[] = false
has_bar (String.◌∷◌ c s) = eqb (code c) b'|' || has_bar s

-- The texts before the first bars of two equal texts are equal, and so are those behind them.
split_bar :
    (s s' t t' : String)
    → has_bar s ≡ false
    → has_bar s' ≡ false
    → s <> bar t ≡ s' <> bar t'
    → (s ≡ s') × (t ≡ t')
split_bar String.[] String.[] t t' h h' e =
    (refl, tail-eq_of_cons-eq (sym (append.nil (bar t)) ∙ e ∙ append.nil (bar t')))
split_bar String.[] (String.◌∷◌ d s') t t' h h' e =
    let same = head-eq_of_cons-eq (sym (append.nil (bar t)) ∙ e ∙ append.cons d s' (bar t')) in
    ground (arith, ap code same)
split_bar (String.◌∷◌ c s) String.[] t t' h h' e =
    let same = head-eq_of_cons-eq (sym (append.cons c s (bar t)) ∙ e ∙ append.nil (bar t')) in
    ground (arith, ap code same)
split_bar (String.◌∷◌ c s) (String.◌∷◌ d s') t t' h h' e =
    let whole = sym (append.cons c s (bar t)) ∙ e ∙ append.cons d s' (bar t') in
    let (same, behind) =
      split_bar s s' t t' (ground (arith, h)) (ground (arith, h')) (tail-eq_of_cons-eq whole) in
    (cc (head-eq_of_cons-eq whole, same), behind)

-- Two clusters have one name only when namespace, service, IP family and port are the same, for
-- names without a bar.
pub get_cluster_name_inj :
    (namespace namespace' name name' family family' : String) (port port' : ℤ)
    → has_bar namespace ≡ false
    → has_bar namespace' ≡ false
    → has_bar name ≡ false
    → has_bar name' ≡ false
    → has_bar family ≡ false
    → has_bar family' ≡ false
    → get_cluster_name namespace name family port ≡ get_cluster_name namespace' name' family' port'
    → (namespace ≡ namespace') × (name ≡ name') × (family ≡ family') × (port ≡ port')
unfolding get_cluster_name
get_cluster_name_inj namespace namespace' name name' family family' port port' a a' b b' c c' e =
    let (same_family, e1) = split_bar family family' _ _ c c' e in
    let (same_namespace, e2) = split_bar namespace namespace' _ _ a a' e1 in
    let (same_name, e3) = split_bar name name' _ _ b b' e2 in
    (same_namespace, same_name, same_family, sprint_inj port port' e3)

family-has_bar : (ip : String) → has_bar (ip_string_to_ip_family ip) ≡ false
unfolding ip_string_to_ip_family
family-has_bar ip = elim (Bool-cases (contains_colon ip)) [
  | inl six ↦ rw six refl
  | inr four ↦ rw four refl
]

-- Two listeners have one name only when namespace, service, address and port are the same, for
-- names and addresses without a bar.
pub get_listener_name_inj :
    (namespace namespace' name name' ip ip' : String) (port port' : ℤ)
    → has_bar namespace ≡ false
    → has_bar namespace' ≡ false
    → has_bar name ≡ false
    → has_bar name' ≡ false
    → has_bar ip ≡ false
    → has_bar ip' ≡ false
    → get_listener_name namespace name ip port ≡ get_listener_name namespace' name' ip' port'
    → (namespace ≡ namespace') × (name ≡ name') × (ip ≡ ip') × (port ≡ port')
unfolding get_listener_name
get_listener_name_inj namespace namespace' name name' ip ip' port port' a a' b b' c c' e =
    let (same_family, e1) = split_bar _ _ _ _ (family-has_bar ip) (family-has_bar ip') e in
    let (same_namespace, e2) = split_bar namespace namespace' _ _ a a' e1 in
    let (same_name, e3) = split_bar name name' _ _ b b' e2 in
    let (same_ip, e4) = split_bar ip ip' _ _ c c' e3 in
    (same_namespace, same_name, same_ip, sprint_inj port port' e4)
