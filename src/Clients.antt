-- ===== src/Clients.antt =====
-- internal/utils/kube.go, and the label selector that both commands build, over client-go.
use lightpath.Prelude.{
  String, Bool, true, false, if◌then◌else◌, List, [], ◌∷◌, ◌⊎◌, inl, inr, ◌==◌, string_eq,
}

-- `selection.Operator`, as far as used.
pub data Operator : Type 0 where
  equals does_not_exist : Operator

-- k8s.io/client-go and `labels` of k8s.io/apimachinery, over the state that they read. A call that
-- returns a value and an error has one of the two.
pub record ClientGo : Type 1 where
  pub State : Type 0
  pub Config : Type 0
  pub Client : Type 0
  pub EventsGetter : Type 0
  pub Requirement : Type 0
  pub Error : Type 0
  pub in_cluster_config : State → State × (Error ⊎ Config)
  -- `NewNonInteractiveDeferredLoadingClientConfig` of an explicit path, and `ClientConfig`.
  pub client_config : String → State → State × (Error ⊎ Config)
  pub new_for_config : Config → State → State × (Error ⊎ Client)
  pub core_v1 : Client → EventsGetter
  pub new_requirement : String → Operator → List String → Error ⊎ Requirement

-- `proxyapis.LabelServiceProxyName` and `corev1.IsHeadlessService`.
abbrev label_service_proxy_name : String
label_service_proxy_name = "service.kubernetes.io/service-proxy-name"

abbrev is_headless_service : String
is_headless_service = "service.kubernetes.io/headless"

-- A result without an error.
abbrev pub succeeds {ℓ κ} : {E : Type ℓ} {A : Type κ} → E ⊎ A → Bool
succeeds (inl _) = false
succeeds (inr _) = true

module _ (G : ClientGo) where
  -- A call after one that has not failed; an error is returned at once.
  abbrev and_then {ℓ κ} :
      {A : Type ℓ} {B : Type κ}
      → G.State × (G.Error ⊎ A)
      → (A → G.State → G.State × (G.Error ⊎ B))
      → G.State × (G.Error ⊎ B)
  and_then (s, inl e) next = (s, inl e)
  and_then (s, inr a) next = next a s

  unfoldable pub create_clients :
      String → G.State → G.State × (G.Error ⊎ (G.Client × G.EventsGetter))
  create_clients kubeconfig s =
      let config =
        if kubeconfig == "" then G.in_cluster_config s else G.client_config kubeconfig s in
      and_then config λ kube_config t. and_then (G.new_for_config kube_config t) λ client u.
        and_then (G.new_for_config kube_config u)
          λ event_client v. (v, inr (client, G.core_v1 event_client))

  -- The requirements of the informers' selector, for a proxy's name.
  unfoldable pub label_selector : String → G.Error ⊎ List G.Requirement
  label_selector proxy_name =
      elim (G.new_requirement label_service_proxy_name equals (proxy_name ∷ [])) [
        | inl e ↦ inl e
        | inr light_path_proxy ↦ elim (G.new_requirement is_headless_service does_not_exist []) [
          | inl e ↦ inl e
          | inr no_headless_endpoints ↦ inr (light_path_proxy ∷ no_headless_endpoints ∷ [])
        ]
      ]
