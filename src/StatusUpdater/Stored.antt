-- ===== src/StatusUpdater/Stored.antt =====
-- pkg/statusupdater/updater.go: what an update that reports no error has done.
use argo_supply_chain_securi.Prelude.{
  ℕ, zero, suc, ◌≡◌, ◌≢◌, refl, sym, subst, String, true, false, inl, inr, Option, none, some,
  arith, Bool-cases, Option-cases, ◌∙◌, eq_iff, eq_refl,
}
use argo_supply_chain_securi.Prelude.Dict
use argo_supply_chain_securi.Prelude.Dict.{Dict}
use argo_supply_chain_securi.Go.{Error, is_conflict}
use argo_supply_chain_securi.Kube.{
  Metadata, NamespacedName, Reply, Resource, Accessor, find, key_of,
}
use argo_supply_chain_securi.Kube.Laws.{IsRetry, IsClient}
use argo_supply_chain_securi.StatusUpdater.{
  or_make, holds, apply_patch, change, attempt, final_error, patch_metadata,
}
use argo_supply_chain_securi.StatusUpdater.Attempts.{
  attempts, attempts-zero, attempts-done, attempts-stop, attempts-again, patch_metadata-attempts,
}

pub find-or_make : (k : String) (m : Metadata) → find k m ≡ Dict.lookup k (or_make m)
unfolding find Dict.lookup
find-or_make k none = refl
find-or_make k (some m) = refl

pub holds-eq : (v : String) (o : Option String) → holds v o ≡ true → o ≡ some v
unfolding holds
holds-eq v none h = cc
holds-eq v (some e) h = ground (arith, eq_iff e v)

pub holds-ne : (v : String) (o : Option String) → holds v o ≡ false → o ≢ some v
unfolding holds
holds-ne v o h e = ground (arith, eq_refl v)

final_error-none : (e : Option Error) → final_error e ≡ none → e ≡ none
unfolding final_error
final_error-none e h = ground arith

pub find-insert : (k v : String) (m : Dict String) → find k (some (Dict.insert k v m)) ≡ some v
unfolding find
find-insert k v m = simp (Dict.lookup-insert, eq_refl)

module _ {W O : Type 0} (r : Resource W O) (a : Accessor O) (stored : W → NamespacedName → Option O)
    (key value : String) where
  -- The reply reports success, and the object handed back and stored has the value.
  pub record IsStored (k : NamespacedName) (done : Reply W O) : Type 0 where
    pub read_back : find key (a.read done.object) ≡ some value
    pub named : key_of (r.meta done.object) ≡ k
    pub kept : stored done.world k ≡ some done.object

module _ {W O : Type 0} (r : Resource W O) (a : Accessor O) (stored : W → NamespacedName → Option O)
    (client : IsClient r a stored) (key value : String) where
  apply_patch-IsStored :
      (o : O) (w : W)
      → find key (a.read o) ≢ some value
      → (apply_patch r a key value o o w).error ≡ none
      → IsStored r a stored key value (key_of (r.meta o)) (apply_patch r a key value o o w)
  unfolding apply_patch
  apply_patch-IsStored o w new fine =
      let d : Dict String = Dict.insert key value (or_make (a.read o)) in
      let o' : O = a.write o (some d) in
      let put : find key (a.read o') ≡ some value =
        rw (client.read-write o (some d)) (find-insert key value (or_make (a.read o))) in
      record {
        read_back = client.patch_sets o o' w key value fine put new;
        named = client.patch_key o o' w fine ∙ client.key-write o (some d);
        kept =
            subst (λ k. stored (r.patch o o' w).world k ≡ some (r.patch o o' w).object)
              (client.key-write o (some d)) (client.patch_stored o o' w fine);
      }

  pub change-eq_of_holds :
      (o : O) (w : W)
      → holds value (Dict.lookup key (or_make (a.read o))) ≡ true
      → change r a key value o w ≡ record { error = none; object = o; world = w }
  unfolding change
  change-eq_of_holds o w same = ground (arith, client.copy o)

  pub change-eq-apply_patch :
      (o : O) (w : W)
      → holds value (Dict.lookup key (or_make (a.read o))) ≡ false
      → change r a key value o w ≡ apply_patch r a key value o o w
  unfolding change
  change-eq-apply_patch o w new = ground (arith, client.copy o)

  change-IsStored :
      (o : O) (w : W)
      → stored w (key_of (r.meta o)) ≡ some o
      → (change r a key value o w).error ≡ none
      → IsStored r a stored key value (key_of (r.meta o)) (change r a key value o w)
  change-IsStored o w here fine =
      elim (Bool-cases (holds value (Dict.lookup key (or_make (a.read o))))) [
        | inl same ↦ rw (change-eq_of_holds o w same) (record {
          read_back = find-or_make key (a.read o) ∙ holds-eq value _ same;
          named = refl;
          kept = here;
        })
        | inr new ↦ rw (change-eq-apply_patch o w new) (
            apply_patch-IsStored o w
              (λ e. holds-ne value _ new (sym (find-or_make key (a.read o)) ∙ e))
              (rw (change-eq-apply_patch o w new) at fine))
      ]

  pub attempt-eq-change :
      (o : O) (w : W)
      → let got = r.get (key_of (r.meta o)) o w in
        got.error ≡ none → attempt r a key value o w ≡ change r a key value got.object got.world
  unfolding attempt
  attempt-eq-change o w found = ground arith

  -- An attempt that fails to read fails, so a success has read.
  get-error-attempt :
      (o : O) (w : W)
      → (attempt r a key value o w).error ≡ none
      → (r.get (key_of (r.meta o)) o w).error ≡ none
  unfolding attempt
  get-error-attempt o w fine = ground arith

  attempt-IsStored :
      (o : O) (w : W)
      → (attempt r a key value o w).error ≡ none
      → IsStored r a stored key value (key_of (r.meta o)) (attempt r a key value o w)
  attempt-IsStored o w fine =
      let k = key_of (r.meta o) in
      let found = get-error-attempt o w fine in
      let got = r.get k o w in
      let named : key_of (r.meta got.object) ≡ k = client.get_key k o w found in
      rw (attempt-eq-change o w found) (
        subst (λ j. IsStored r a stored key value j (change r a key value got.object got.world))
          named
          (change-IsStored got.object got.world (rw named (client.get_stored k o w found))
            (rw (attempt-eq-change o w found) at fine)))

  key-apply_patch :
      (o : O) (w : W) {e : Error}
      → (apply_patch r a key value o o w).error ≡ some e
      → key_of (r.meta (apply_patch r a key value o o w).object) ≡ key_of (r.meta o)
  unfolding apply_patch
  key-apply_patch o w {e} failed = rw (client.patch_failed o _ w e failed) (client.key-write o _)

  key-change :
      (o : O) (w : W) {e : Error}
      → (change r a key value o w).error ≡ some e
      → key_of (r.meta (change r a key value o w).object) ≡ key_of (r.meta o)
  key-change o w failed = elim (Bool-cases (holds value (Dict.lookup key (or_make (a.read o))))) [
    | inl same ↦ rw (change-eq_of_holds o w same)
    | inr new ↦
        rw (change-eq-apply_patch o w new)
          (key-apply_patch o w (rw (change-eq-apply_patch o w new) at failed))
  ]

  attempt-eq-get :
      (o : O) (w : W) {e : Error}
      → (r.get (key_of (r.meta o)) o w).error ≡ some e
      → attempt r a key value o w ≡ r.get (key_of (r.meta o)) o w
  unfolding attempt
  attempt-eq-get o w failed = ground arith

  -- A failed attempt leaves an object of the same name, from which the next one starts.
  key-attempt :
      (o : O) (w : W) {e : Error}
      → (attempt r a key value o w).error ≡ some e
      → key_of (r.meta (attempt r a key value o w).object) ≡ key_of (r.meta o)
  key-attempt o w failed = elim (Option-cases (r.get (key_of (r.meta o)) o w).error) [
    | inl found ↦ rw (attempt-eq-change o w found) (
        key-change _ _ (rw (attempt-eq-change o w found) at failed)
        ∙ client.get_key (key_of (r.meta o)) o w found)
    | inr (e, missed) ↦
        rw (attempt-eq-get o w missed, client.get_failed (key_of (r.meta o)) o w e missed)
  ]

  attempts-IsStored :
      (n : ℕ) (o : O) (w : W)
      → (attempts (attempt r a key value) r.pause n o w).error ≡ none
      → IsStored r a stored key value
          (key_of (r.meta o))
          (attempts (attempt r a key value) r.pause n o w)
  attempts-IsStored zero o w fine =
      rw attempts-zero (attempt-IsStored o w (rw attempts-zero at fine))
  attempts-IsStored (suc n) o w fine = elim (Option-cases (attempt r a key value o w).error) [
    | inl done ↦
        rw (attempts-done (attempt r a key value) r.pause n o w done) (attempt-IsStored o w done)
    | inr (e, failed) ↦ elim (Bool-cases (is_conflict e)) [
      | inl again ↦
          let rest =
            attempts (attempt r a key value) r.pause n (attempt r a key value o w).object
              (r.pause (attempt r a key value o w).world) in
          let more = attempts-again (attempt r a key value) r.pause n o w failed again in
          rw more (
            subst (λ k. IsStored r a stored key value k rest) (key-attempt o w failed)
              (attempts-IsStored n _ _ (rw more at fine)))
      | inr stop ↦
          absurd (ground (arith, attempts-stop (attempt r a key value) r.pause n o w failed stop))
    ]
  ]

  -- Where the client and the retry helper behave as documented, an update that reports no error
  -- has left the value under the key, both in the object that it was handed and in the object
  -- that the cluster stores under that name, which has kept its name.
  pub patch_metadata-IsStored :
      IsRetry r
      → (o : O) (w : W) → (patch_metadata r a key value o w).error ≡ none
      → IsStored r a stored key value (key_of (r.meta o)) (patch_metadata r a key value o w)
  patch_metadata-IsStored retry o w fine =
      let plain = patch_metadata-attempts r retry a key value o w in
      let set = attempts-IsStored 2 o w (final_error-none _ (rw plain at fine)) in
      rw plain (record { read_back = set.read_back; named = set.named; kept = set.kept })
