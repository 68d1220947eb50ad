-- ===== src/Auth/Laws.antt =====
-- pkg/auth/auth.go: which keychains GetAuthnKeychain puts together.
use argo_supply_chain_securi.Prelude.{
  String, ◌≡◌, ◌≢◌, arith, refl, ◌⊎◌, inl, List, [], ◌∷◌, ◌++◌, inr,
}
use mathlib.Core.List.{append-nil}
use argo_supply_chain_securi.Go.{Go, Outcome, ok, err, panic, Error}
use argo_supply_chain_securi.Workflow.{Workflow}
use argo_supply_chain_securi.Signer.Library.{Secret}
use argo_supply_chain_securi.Auth.{
  AuthLibrary, get_namespaced_secrets, oci_secret_selector, secrets_of, keychain_from,
  get_auth_from_secrets, get_authn_keychain, with_argo, chosen,
}

module _ {W K : Type 0} (lib : AuthLibrary W K) where
  -- The controller's secrets, and then the workflow's.
  abbrev pub own : String → Go W (List Secret)
  own namespace = get_namespaced_secrets lib namespace oci_secret_selector

  abbrev pub theirs : String → Workflow → Go W (List Secret)
  theirs namespace wf w =
      get_namespaced_secrets lib wf.meta.namespace oci_secret_selector (own namespace w).1

  -- The secrets that a listing has given.
  abbrev pub listed : Outcome (List Secret) → List Secret
  listed (ok secrets) = secrets
  listed _ = []

  -- The keychain made of the secrets, if there are any and it can be made.
  abbrev pub of_secrets : List Secret → List K
  of_secrets [] = []
  of_secrets (s ∷ ss) = elim (lib.new_from_pull_secrets (s ∷ ss)) [ inl e ↦ [] | inr kc ↦ kc ∷ [] ]

  secrets_of_two :
      (namespace : String) (wf : Workflow) (w : W)
      → (own namespace w).0 ≢ panic
      → (theirs namespace wf w).0 ≢ panic
      → secrets_of lib (namespace ∷ wf.meta.namespace ∷ []) [] w ≡ (
        ok (listed (own namespace w).0 ++ listed (theirs namespace wf w).0),
        (theirs namespace wf w).1,
      )
  unfolding secrets_of
  secrets_of_two namespace wf w calm calm' =
      by_outcome (own namespace w).0 refl (theirs namespace wf w).0 refl
    where
      by_outcome :
          (r : Outcome (List Secret))
          → (own namespace w).0 ≡ r
          → (r' : Outcome (List Secret)) → (theirs namespace wf w).0 ≡ r'
          → secrets_of lib (namespace ∷ wf.meta.namespace ∷ []) [] w
            ≡ (ok (listed r ++ listed r'), (theirs namespace wf w).1)
      by_outcome (ok a) e (ok b) e' = ground (arith, e, e')
      by_outcome (ok a) e (err b) e' = ground (arith, e, e', append-nil a)
      by_outcome (err a) e (ok b) e' = ground (arith, e, e')
      by_outcome (err a) e (err b) e' = ground (arith, e, e')
      by_outcome panic e r' e' = absurd (calm e)
      by_outcome r e panic e' = absurd (calm' e')

  with_argo-chosen :
      (secrets : List Secret)
      → with_argo lib (chosen lib (ok secrets))
        ≡ ok (lib.new_multi_keychain (lib.default_keychains ++ of_secrets secrets))
  unfolding with_argo chosen keychain_from
  with_argo-chosen [] = rw append-nil
  with_argo-chosen (s ∷ ss) = by_result (lib.new_from_pull_secrets (s ∷ ss)) refl
    where
      by_result :
          (r : Error ⊎ K)
          → lib.new_from_pull_secrets (s ∷ ss) ≡ r
          → with_argo lib (chosen lib (ok (s ∷ ss)))
            ≡ ok (lib.new_multi_keychain (lib.default_keychains ++ of_secrets (s ∷ ss)))
      by_result (inl d) e = ground (arith, e, append-nil lib.default_keychains)
      by_result (inr kc) e = ground (arith, e)

  -- Unless a listing of secrets panics, the keychain is built from those of the providers, in
  -- their order, with one behind them for the secrets of the controller's and the workflow's
  -- namespaces: those of a namespace that cannot be listed are left out, and the last keychain is
  -- missing only if no secret is left or none can be made of them.
  pub get_authn_keychain_lem :
      (namespace : String) (wf : Workflow) (w : W)
      → (own namespace w).0 ≢ panic
      → (theirs namespace wf w).0 ≢ panic
      → get_authn_keychain lib namespace wf w ≡ (
        ok (
            lib.new_multi_keychain (
              lib.default_keychains
              ++ of_secrets (listed (own namespace w).0 ++ listed (theirs namespace wf w).0))),
        (theirs namespace wf w).1,
      )
  unfolding get_authn_keychain get_auth_from_secrets
  get_authn_keychain_lem namespace wf w calm calm' =
      rw (secrets_of_two namespace wf w calm calm') (λ i. (
        with_argo-chosen (listed (own namespace w).0 ++ listed (theirs namespace wf w).0) i,
        (theirs namespace wf w).1,
      ))
