-- ===== src/StatusUpdater/Costs.antt =====
-- pkg/statusupdater/updater.go: how much of the client an update uses.
use argo_supply_chain_securi.Prelude.{
  ℕ, zero, suc, ◌+◌, ◌*◌, ◌≤◌, String, arith, inl, inr, Bool-cases, Option-cases,
}
use argo_supply_chain_securi.Prelude.Numbers.{suc-mul}
use argo_supply_chain_securi.Go.{is_conflict}
use argo_supply_chain_securi.Kube.{key_of, NamespacedName, Reply, Resource, Accessor}
use argo_supply_chain_securi.Kube.Laws.{IsRetry}
use argo_supply_chain_securi.StatusUpdater.{attempt, change, apply_patch, patch_metadata}
use argo_supply_chain_securi.StatusUpdater.Attempts.{
  attempts, attempts-zero, attempts-done, attempts-stop, attempts-again, patch_metadata-attempts,
}

-- What the client's calls cost at most, by any measure of what was spent in a world: the number of
-- requests, of reads, of bytes, or the time that has passed.
pub record IsMetered {W O : Type 0} (r : Resource W O) (spent : W → ℕ) (read patch wait : ℕ)
    : Type 0 where
  pub get-cost : (k : NamespacedName) (o : O) (w : W) → spent (r.get k o w).world ≤ spent w + read
  pub patch-cost : (o o' : O) (w : W) → spent (r.patch o o' w).world ≤ spent w + patch
  pub pause-cost : (w : W) → spent (r.pause w) ≤ spent w + wait

module _ {W O : Type 0} (r : Resource W O) (spent : W → ℕ) (read patch wait : ℕ)
    (metered : IsMetered r spent read patch wait) where
  module _ (a : Accessor O) (key value : String) where
    apply_patch-cost :
        (original o : O) (w : W)
        → spent (apply_patch r a key value original o w).world ≤ spent w + patch
    unfolding apply_patch
    apply_patch-cost original o w = metered.patch-cost _ _ w

    change-cost : (o : O) (w : W) → spent (change r a key value o w).world ≤ spent w + patch
    unfolding change
    change-cost o w = elim (Option-cases (r.deep_copy o)) [
      | inl e ↦ ground arith
      | inr (original, e) ↦ ground (arith, apply_patch-cost original o w)
    ]

    attempt-cost :
        (o : O) (w : W) → spent (attempt r a key value o w).world ≤ spent w + (read + patch)
    unfolding attempt
    attempt-cost o w =
        let got = r.get (key_of (r.meta o)) o w in
        elim (Option-cases got.error) [
          | inl e ↦
              ground
                (arith, metered.get-cost (key_of (r.meta o)) o w, change-cost got.object got.world)
          | inr (x, e) ↦ ground (arith, metered.get-cost (key_of (r.meta o)) o w)
        ]

  module _ (f : O → W → Reply W O) (each : ℕ)
      (each-cost : (o : O) (w : W) → spent (f o w).world ≤ spent w + each) where
    attempts-cost :
        (n : ℕ) (o : O) (w : W)
        → spent (attempts f r.pause n o w).world ≤ spent w + (suc n * each + n * wait)
    attempts-cost zero o w = rw (attempts-zero f r.pause o w) (omega (arith, each-cost o w))
    attempts-cost (suc n) o w = elim (Option-cases (f o w).error) [
      | inl fine ↦
          rw (attempts-done f r.pause n o w fine)
            (omega (arith, each-cost o w, suc-mul (suc n) each, suc-mul n wait))
      | inr (e, failed) ↦ elim (Bool-cases (is_conflict e)) [
        | inl again ↦ rw (attempts-again f r.pause n o w failed again) (
            omega (
              arith,
              suc-mul (suc n) each,
              suc-mul n wait,
              each-cost o w,
              metered.pause-cost (f o w).world,
              attempts-cost n (f o w).object (r.pause (f o w).world),
            ))
        | inr stop ↦
            rw (attempts-stop f r.pause n o w failed stop)
              (omega (arith, each-cost o w, suc-mul (suc n) each, suc-mul n wait))
      ]
    ]

  -- An update of one annotation or label reads the object at most three times, sends at most three
  -- patches, and waits at most twice.
  pub patch_metadata-Within :
      (retry : IsRetry r) (a : Accessor O) (key value : String) (o : O) (w : W)
      → spent (patch_metadata r a key value o w).world ≤ spent w + (3 * (read + patch) + 2 * wait)
  patch_metadata-Within retry a key value o w =
      rw (patch_metadata-attempts r retry a key value o w)
        (attempts-cost (attempt r a key value) (read + patch) (attempt-cost a key value) 2 o w)
