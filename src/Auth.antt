-- ===== src/Auth.antt =====
-- pkg/auth/auth.go: the keychain for the registries. The keychains of the cloud providers and the
-- cluster's API are the parameter `AuthLibrary`.
pub mod Laws
use argo_supply_chain_securi.Prelude.{
  String, ◌<>◌, Bool, Option, none, some, List, [], ◌∷◌, ◌++◌, ◌⊎◌, inl, inr,
}
use argo_supply_chain_securi.Go.{
  Outcome, ok, err, panic, Error, plain, Go, ◌>>=◌, pure, catch, wrap,
}
use argo_supply_chain_securi.Workflow.{Workflow}
use argo_supply_chain_securi.Signer.Library.{Secret}

abbrev pub oci_secret_selector : String
oci_secret_selector = "argo.slsa.io/secret-type=oci"

-- k8schain.Options with UseMountSecrets set
pub record ChainOptions : Type 0 where
  pub namespace : String
  pub service_account_name : String
  pub image_pull_secrets : List String

pub record AuthLibrary (W K : Type 0) : Type 0 where
  -- the default keychain, and those of Google, ECR, ACR and Alibaba, in the source's order
  pub default_keychains : List K
  pub new_multi_keychain : List K → K
  -- Secrets(namespace).List with a label selector
  pub list_secrets : String → String → Go W (List Secret)
  -- kauth.NewFromPullSecrets
  pub new_from_pull_secrets : List Secret → Error ⊎ K
  -- the names under ImagePullSecrets of a service account, and k8schain.New
  pub image_pull_secrets : String → String → Go W (List String)
  pub new_k8schain : ChainOptions → Go W K

module _ {W K : Type 0} (lib : AuthLibrary W K) where
  open lib use {
    default_keychains, new_multi_keychain, list_secrets, new_from_pull_secrets, image_pull_secrets,
    new_k8schain,
  }

  unfoldable pub get_namespaced_secrets : String → String → Go W (List Secret)
  get_namespaced_secrets namespace label_selector =
      wrap ("failed to list secrets in namespace " <> (namespace <> ": "))
        (list_secrets namespace label_selector)

  -- The loop over the namespaces; one whose secrets cannot be listed adds none.
  unfoldable pub secrets_of : List String → List Secret → Go W (List Secret)
  secrets_of [] secret_list w = (ok secret_list, w)
  secrets_of (ns ∷ nss) secret_list w =
      let (r, w') = get_namespaced_secrets ns oci_secret_selector w in
      elim r [
        | ok secrets ↦ secrets_of nss (secret_list ++ secrets) w'
        | err e ↦ secrets_of nss secret_list w'
        | panic ↦ (panic, w')
      ]

  unfoldable pub keychain_from : List Secret → Error ⊎ K
  keychain_from [] = inl (plain ("no secrets with " <> (oci_secret_selector <> " label")))
  keychain_from (s ∷ ss) = elim (new_from_pull_secrets (s ∷ ss)) [
    | inl e ↦ inl (plain "unable to create keychain from secrets")
    | inr kc ↦ inr kc
  ]

  chosen : Outcome (List Secret) → Outcome K
  chosen (ok secrets) = elim (keychain_from secrets) [ inl e ↦ err e | inr kc ↦ ok kc ]
  chosen (err e) = err e
  chosen panic = panic

  unfoldable pub get_auth_from_secrets : List String → Go W K
  unfolding chosen
  get_auth_from_secrets namespaces w = let (r, w') = secrets_of namespaces [] w in (chosen r, w')

  -- An error leaves the keychains of the providers.
  with_argo : Outcome K → Outcome K
  with_argo (ok kc) = ok (new_multi_keychain (default_keychains ++ kc ∷ []))
  with_argo (err e) = ok (new_multi_keychain default_keychains)
  with_argo panic = panic

  unfoldable pub get_authn_keychain : String → Workflow → Go W K
  unfolding with_argo
  get_authn_keychain namespace wf w =
      let (r, w') = get_auth_from_secrets (namespace ∷ wf.meta.namespace ∷ []) w in
      (with_argo r, w')

  -- getPullSecrets: none where the service account cannot be read.
  unfoldable pub get_pull_secrets : String → String → Go W (List String)
  get_pull_secrets namespace service_account =
      catch (image_pull_secrets namespace service_account) (λ e. pure [])

  unfoldable pub get_auth_from_k8s_service_account : String → String → Go W K
  unfolding get_pull_secrets
  get_auth_from_k8s_service_account namespace service_account = do
    names ← get_pull_secrets namespace service_account
    new_k8schain (record {
      namespace = namespace;
      service_account_name = service_account;
      image_pull_secrets = names;
    })
