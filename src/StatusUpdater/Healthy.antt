-- ===== src/StatusUpdater/Healthy.antt =====
-- pkg/statusupdater/updater.go: an update over a cluster that answers.
use argo_supply_chain_securi.Prelude.{
  ◌≡◌, refl, arith, String, inl, inr, Option, none, some, Bool-cases,
}
use argo_supply_chain_securi.Prelude.Dict
use argo_supply_chain_securi.Go.{is_conflict}
use argo_supply_chain_securi.Kube.{NamespacedName, Resource, Accessor, Reply, key_of}
use argo_supply_chain_securi.Kube.Laws.{IsRetry, IsClient}
use argo_supply_chain_securi.StatusUpdater.{
  or_make, holds, apply_patch, change, attempt, final_error, patch_metadata,
}
use argo_supply_chain_securi.StatusUpdater.Stored.{
  change-eq_of_holds, change-eq-apply_patch, attempt-eq-change, patch_metadata-IsStored,
}

-- In the worlds of `Healthy`, the calls for the objects with these names succeed, and lead to such
-- a world.
pub record IsServing {W O : Type 0} (r : Resource W O) (Healthy : W → Type 0)
    (Named : NamespacedName → Type 0) : Type 0 where
  pub get_serves :
      (k : NamespacedName) (o : O) (w : W)
      → Named k
      → Healthy w
      → ((r.get k o w).error ≡ none) × Healthy (r.get k o w).world
  pub patch_serves :
      (o o' : O) (w : W)
      → Named (key_of (r.meta o'))
      → Healthy w
      → ((r.patch o o' w).error ≡ none) × Healthy (r.patch o o' w).world

module _ {W O : Type 0} (r : Resource W O) (a : Accessor O) (stored : W → NamespacedName → Option O)
    (retry : IsRetry r) (client : IsClient r a stored) (Healthy : W → Type 0)
    (Named : NamespacedName → Type 0) (serving : IsServing r Healthy Named) where
  abbrev Served : Reply W O → Type 0
  Served done = (done.error ≡ none) × Healthy done.world

  module _ (key value : String) where
    apply_patch-Served :
        (o : O) (w : W)
        → Named (key_of (r.meta o))
        → Healthy w
        → Served (apply_patch r a key value o o w)
    unfolding apply_patch
    apply_patch-Served o w named well =
        let set = some (Dict.insert key value (or_make (a.read o))) in
        serving.patch_serves o (a.write o set) w (rw (client.key-write o set) named) well

    change-Served :
        (o : O) (w : W) → Named (key_of (r.meta o)) → Healthy w → Served (change r a key value o w)
    change-Served o w named well =
        elim (Bool-cases (holds value (Dict.lookup key (or_make (a.read o))))) [
          | inl same ↦ rw (change-eq_of_holds r a stored client key value o w same) (refl, well)
          | inr new ↦
              rw (change-eq-apply_patch r a stored client key value o w new)
                (apply_patch-Served o w named well)
        ]

    attempt-Served :
        (o : O) (w : W) → Named (key_of (r.meta o)) → Healthy w → Served (attempt r a key value o w)
    attempt-Served o w named well =
        let k = key_of (r.meta o) in
        let (found, well') = serving.get_serves k o w named well in
        rw (attempt-eq-change r a stored client key value o w found)
          (change-Served _ _ (rw (client.get_key k o w found) named) well')

    -- If the first attempt succeeds, it is the only one.
    patch_metadata_once :
        (o : O) (w : W)
        → (attempt r a key value o w).error ≡ none
        → let done = patch_metadata r a key value o w in
          (done.error ≡ none) × (done.world ≡ (attempt r a key value o w).world)
    unfolding patch_metadata final_error
    patch_metadata_once o w fine =
        ground (arith, retry.done 2 is_conflict (attempt r a key value) o w fine)

    -- An update in a healthy cluster reports no error and leaves it healthy, and the object handed
    -- back has its name still.
    pub patch_metadata-Served :
        (o : O) (w : W)
        → Named (key_of (r.meta o))
        → Healthy w
        → let done = patch_metadata r a key value o w in
          (done.error ≡ none) × Healthy done.world × Named (key_of (r.meta done.object))
    patch_metadata-Served o w named well =
        let (fine, well') = attempt-Served o w named well in
        let (fine', e) = patch_metadata_once o w fine in
        let done = patch_metadata-IsStored r a stored client key value retry o w fine' in
        (fine', rw e well', rw (done.named) named)
