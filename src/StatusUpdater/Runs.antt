-- ===== src/StatusUpdater/Runs.antt =====
-- pkg/statusupdater/updater.go: the ways in which `patch_metadata` can go, as a relation.
use argo_supply_chain_securi.Prelude.{
  ℕ, zero, suc, ◌≡◌, ◌⊎◌, refl, String, true, false, inl, inr, Option, none, some, arith,
  Bool-cases, Option-cases,
}
use argo_supply_chain_securi.Go.{Error, plain, is_conflict, is_not_found}
use argo_supply_chain_securi.Kube.{Reply, Resource, Accessor}
use argo_supply_chain_securi.Kube.Laws.{IsRetry}
use argo_supply_chain_securi.StatusUpdater.{attempt, final_error, patch_metadata}
use argo_supply_chain_securi.StatusUpdater.Attempts.{
  attempts, attempts-zero, attempts-done, attempts-stop, attempts-again, patch_metadata-attempts,
}
use argo_supply_chain_securi.StatusUpdater.Attempted.{Attempted, attempt-Attempted}

-- The error that patchMetadata returns for the last attempt's: a conflict and a missing object are
-- told with one text, and every other error as it is.
abbrev pub IsTold : Option Error → Option Error → Type 0
IsTold last told =
    ((last ≡ none) × (told ≡ none))
    ⊎ ((e : Error) × (last ≡ some e)
        × ((((is_conflict e ≡ true) ⊎ (is_not_found e ≡ true))
              × (told ≡ some (plain "conflict or not found")))
            ⊎ ((is_conflict e ≡ false) × (is_not_found e ≡ false) × (told ≡ some e))))

final_error-IsTold : (last : Option Error) → IsTold last (final_error last)
unfolding final_error
final_error-IsTold none = inl (refl, refl)
final_error-IsTold (some e) = elim (Bool-cases (is_conflict e)) [
  | inl clash ↦ inr (e, refl, inl (inl clash, ground (arith, clash)))
  | inr calm ↦ elim (Bool-cases (is_not_found e)) [
    | inl gone ↦ inr (e, refl, inl (inr gone, ground (arith, gone)))
    | inr there ↦ inr (e, refl, inr (calm, there, ground (arith, calm, there)))
  ]
]

module _ {W O : Type 0} (r : Resource W O) (a : Accessor O) (key value : String) where
  -- At most n attempts after the first, each one after a conflict, from the object that the
  -- failed one left and after a pause.
  pub data Run : ℕ → O → W → Reply W O → Type 0 where
    done :
        (n : ℕ) (o : O) (w : W) (out : Reply W O)
        → Attempted r a key value o w out
        → out.error ≡ none
        → Run n o w out
    stopped :
        (n : ℕ) (o : O) (w : W) (out : Reply W O) (e : Error)
        → Attempted r a key value o w out
        → out.error ≡ some e
        → is_conflict e ≡ false
        → Run n o w out
    exhausted :
        (o : O) (w : W) (out : Reply W O) (e : Error)
        → Attempted r a key value o w out
        → out.error ≡ some e
        → is_conflict e ≡ true
        → Run 0 o w out
    again :
        (n : ℕ) (o : O) (w : W) (failed out : Reply W O) (e : Error)
        → Attempted r a key value o w failed
        → failed.error ≡ some e
        → is_conflict e ≡ true
        → Run n failed.object (r.pause failed.world) out
        → Run (suc n) o w out

  attempts-Run :
      (n : ℕ) (o : O) (w : W) → Run n o w (attempts (attempt r a key value) r.pause n o w)
  attempts-Run zero o w =
      rw (attempts-zero (attempt r a key value) r.pause o w)
        (elim (Option-cases (attempt r a key value o w).error) [
          | inl fine ↦ done 0 o w _ (attempt-Attempted r a key value o w) fine
          | inr (e, failed) ↦ elim (Bool-cases (is_conflict e)) [
            | inl clash ↦ exhausted o w _ e (attempt-Attempted r a key value o w) failed clash
            | inr calm ↦ stopped 0 o w _ e (attempt-Attempted r a key value o w) failed calm
          ]
        ])
  attempts-Run (suc n) o w = elim (Option-cases (attempt r a key value o w).error) [
    | inl fine ↦
        rw (attempts-done (attempt r a key value) r.pause n o w fine)
          (done (suc n) o w _ (attempt-Attempted r a key value o w) fine)
    | inr (e, failed) ↦ elim (Bool-cases (is_conflict e)) [
      | inr calm ↦
          rw (attempts-stop (attempt r a key value) r.pause n o w failed calm)
            (stopped (suc n) o w _ e (attempt-Attempted r a key value o w) failed calm)
      | inl clash ↦ rw (attempts-again (attempt r a key value) r.pause n o w failed clash) (
          again n o w _ _ e (attempt-Attempted r a key value o w) failed clash (attempts-Run n _ _))
    ]
  ]

  -- Where the retry helper behaves as documented, patchMetadata is a run of at most three
  -- attempts: the object is read, copied, and patched if it does not have the value under the
  -- key, with no other key changed; a further attempt follows a conflict and no other error. The
  -- run leaves the object and the cluster of its last attempt. A conflict or a missing object
  -- there is returned as the error "conflict or not found", any other error as it is.
  pub patch_metadata-Run :
      IsRetry r
      → (o : O) (w : W)
      → (out : Reply W O) × Run 2 o w out
        × ((patch_metadata r a key value o w).object ≡ out.object)
        × ((patch_metadata r a key value o w).world ≡ out.world)
        × IsTold out.error (patch_metadata r a key value o w).error
  patch_metadata-Run retry o w =
      let out = attempts (attempt r a key value) r.pause 2 o w in
      rw (patch_metadata-attempts r retry a key value o w)
        (out, attempts-Run 2 o w, refl, refl, final_error-IsTold out.error)
