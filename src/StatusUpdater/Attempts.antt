-- ===== src/StatusUpdater/Attempts.antt =====
-- pkg/statusupdater/updater.go: what the retries of `patch_metadata` come to.
use argo_supply_chain_securi.Prelude.{
  ℕ, zero, suc, ◌≡◌, refl, String, true, false, inl, inr, none, some, arith, Bool-cases,
  Option-cases, if◌then◌else◌,
}
use argo_supply_chain_securi.Go.{Error, is_conflict}
use argo_supply_chain_securi.Kube.{Reply, Resource, Accessor}
use argo_supply_chain_securi.Kube.Laws.{IsRetry}
use argo_supply_chain_securi.StatusUpdater.{attempt, final_error, patch_metadata}

-- The plain loop: after a conflict, and after no other error, it goes on from the object and the
-- cluster that the failed attempt left, at most n times.
module _ {W O : Type 0} where
  unfoldable pub attempts : (O → W → Reply W O) → (W → W) → ℕ → O → W → Reply W O
  attempts f pause zero o w = f o w
  attempts f pause (suc n) o w =
      let one = f o w in
      let rest = attempts f pause n one.object (pause one.world) in
      elim one.error [ none ↦ one | some e ↦ if is_conflict e then rest else one ]

  module _ (f : O → W → Reply W O) (pause : W → W) where
    pub attempts-zero : (o : O) (w : W) → attempts f pause zero o w ≡ f o w
    unfolding attempts
    attempts-zero o w = refl

    pub attempts-done :
        (n : ℕ) (o : O) (w : W) → (f o w).error ≡ none → attempts f pause (suc n) o w ≡ f o w
    unfolding attempts
    attempts-done n o w fine = ground arith

    pub attempts-stop :
        (n : ℕ) (o : O) (w : W) {e : Error}
        → (f o w).error ≡ some e
        → is_conflict e ≡ false
        → attempts f pause (suc n) o w ≡ f o w
    unfolding attempts
    attempts-stop n o w failed stop = ground arith

    pub attempts-again :
        (n : ℕ) (o : O) (w : W) {e : Error}
        → (f o w).error ≡ some e
        → is_conflict e ≡ true
        → attempts f pause (suc n) o w ≡ attempts f pause n (f o w).object (pause (f o w).world)
    unfolding attempts
    attempts-again n o w failed again = ground arith

module _ {W O : Type 0} (r : Resource W O) (retry : IsRetry r) where
  on_error-attempts :
      (f : O → W → Reply W O) (n : ℕ) (o : O) (w : W)
      → r.on_error (suc n) is_conflict f o w ≡ attempts f r.pause n o w
  unfolding attempts
  on_error-attempts f zero o w = retry.last is_conflict f o w
  on_error-attempts f (suc n) o w = elim (Option-cases (f o w).error) [
    | inl fine ↦ ground (arith, retry.done (suc n) is_conflict f o w fine)
    | inr (e, failed) ↦ elim (Bool-cases (is_conflict e)) [
      | inl again ↦ ground (
        arith,
        retry.again n is_conflict f o w e failed again,
        on_error-attempts f n (f o w).object (r.pause (f o w).world),
      )
      | inr stop ↦ ground (arith, retry.stop (suc n) is_conflict f o w e failed stop)
    ]
  ]

  -- An update is the plain loop over the attempts, with the error translated.
  pub patch_metadata-attempts :
      (a : Accessor O) (key value : String) (o : O) (w : W)
      → let done = attempts (attempt r a key value) r.pause 2 o w in
        patch_metadata r a key value o w
        ≡ record { error = final_error done.error; object = done.object; world = done.world }
  unfolding patch_metadata
  patch_metadata-attempts a key value o w = rw (on_error-attempts (attempt r a key value) 2 o w)
