-- ===== src/StatusUpdater.antt =====
-- pkg/statusupdater/updater.go: one annotation or label is set on the cluster, from a fresh copy
-- of the object, with retries on a conflict.
pub mod Attempts
pub mod Costs
pub mod Attempted
pub mod Runs
pub mod Healthy
pub mod Stored
use argo_supply_chain_securi.Prelude.{
  ℕ, String, Bool, true, false, Option, none, some, [], ◌==◌, ◌||◌, if◌then◌else◌,
}
use argo_supply_chain_securi.Prelude.Dict
use argo_supply_chain_securi.Prelude.Dict.{Dict}
use argo_supply_chain_securi.Go.{Error, plain, is_conflict, is_not_found}
use argo_supply_chain_securi.Kube.{Metadata, find, key_of, Reply, Resource, Accessor}

-- if metadata == nil { metadata = make(map[string]string) }
abbrev pub or_make : Metadata → Dict String
or_make none = []
or_make (some m) = m

-- existing, exists := metadata[key]; exists && existing == value
unfoldable pub holds : String → Option String → Bool
holds value none = false
holds value (some existing) = existing == value

-- The error that callers compare with.
unfoldable pub final_error : Option Error → Option Error
final_error none = none
final_error (some e) =
    if is_conflict e || is_not_found e then some (plain "conflict or not found") else some e

-- backoff.Steps
abbrev pub steps : ℕ
steps = 3

module _ {W O : Type 0} (r : Resource W O) (a : Accessor O) (key value : String) where
  -- The object with the key set, patched against the copy that was made before.
  unfoldable pub apply_patch : O → O → W → Reply W O
  unfolding Dict.insert
  apply_patch original o w =
      r.patch original (a.write o (some (Dict.insert key value (or_make (a.read o))))) w

  -- What follows a successful read.
  unfoldable pub change : O → W → Reply W O
  unfolding apply_patch holds find Dict.lookup
  change o w = elim (r.deep_copy o) [
    | none ↦ record {
      error = some (plain "unable to convert object to client.Object");
      object = o;
      world = w;
    }
    | some original ↦
        if holds value (Dict.lookup key (or_make (a.read o)))
        then record { error = none; object = o; world = w }
        else apply_patch original o w
  ]

  -- The function that is retried.
  unfoldable pub attempt : O → W → Reply W O
  unfolding change
  attempt o w =
      let got = r.get (key_of (r.meta o)) o w in
      elim got.error [ some e ↦ got | none ↦ change got.object got.world ]

  unfoldable pub patch_metadata : O → W → Reply W O
  unfolding final_error
  patch_metadata o w =
      let done = r.on_error steps is_conflict attempt o w in
      record { error = final_error done.error; object = done.object; world = done.world }
