-- ===== src/StatusUpdater/Attempted.antt =====
-- pkg/statusupdater/updater.go: the ways in which one attempt can go, as a relation.
use argo_supply_chain_securi.Prelude.{
  ◌≡◌, ◌≢◌, ◌⊎◌, sym, ◌∙◌, String, true, false, inl, inr, none, some, arith, Bool-cases,
  Option-cases, ◌==◌, eq_iff,
}
use argo_supply_chain_securi.Prelude.Dict
use argo_supply_chain_securi.Prelude.Dict.{Dict}
use argo_supply_chain_securi.Go.{Error, plain}
use argo_supply_chain_securi.Kube.{Metadata, Reply, Resource, Accessor, find, key_of}
use argo_supply_chain_securi.StatusUpdater.{or_make, holds, apply_patch, change, attempt}
use argo_supply_chain_securi.StatusUpdater.Stored.{find-or_make, find-insert, holds-eq, holds-ne}

-- The second map is the first with the value under the key.
pub record IsUpdated (key value : String) (old new : Metadata) : Type 0 where
  pub set : find key new ≡ some value
  pub others : (k : String) → (k ≡ key) ⊎ (find k new ≡ find k old)

module _ {W O : Type 0} (r : Resource W O) (a : Accessor O) (key value : String) where
  abbrev pub got : O → W → Reply W O
  got o w = r.get (key_of (r.meta o)) o w

  -- One attempt from an object and a cluster, and the reply that it comes to: the object's read
  -- failed; or what was read could not be copied, or has the value, or was patched to have it.
  pub data Attempted (o : O) (w : W) : Reply W O → Type 0 where
    unread : (e : Error) → (got o w).error ≡ some e → Attempted o w (got o w)
    uncopied :
        (got o w).error ≡ none
        → r.deep_copy (got o w).object ≡ none
        → Attempted o w (record {
          error = some (plain "unable to convert object to client.Object");
          object = (got o w).object;
          world = (got o w).world;
        })
    unchanged :
        (original : O)
        → (got o w).error ≡ none
        → r.deep_copy (got o w).object ≡ some original
        → find key (a.read (got o w).object) ≡ some value
        → Attempted o w
            (record { error = none; object = (got o w).object; world = (got o w).world })
    patched :
        (original : O) (new : Metadata)
        → (got o w).error ≡ none
        → r.deep_copy (got o w).object ≡ some original
        → find key (a.read (got o w).object) ≢ some value
        → IsUpdated key value (a.read (got o w).object) new
        → Attempted o w (r.patch original (a.write (got o w).object new) (got o w).world)

  attempt_unread :
      (o : O) (w : W) (e : Error) → (got o w).error ≡ some e → attempt r a key value o w ≡ got o w
  unfolding attempt
  attempt_unread o w e failed = ground (arith, failed)

  attempt_read :
      (o : O) (w : W)
      → (got o w).error ≡ none
      → attempt r a key value o w ≡ change r a key value (got o w).object (got o w).world
  unfolding attempt
  attempt_read o w fine = ground (arith, fine)

  change_uncopied :
      (o : O) (w : W)
      → r.deep_copy o ≡ none
      → change r a key value o w ≡ record {
        error = some (plain "unable to convert object to client.Object");
        object = o;
        world = w;
      }
  unfolding change
  change_uncopied o w lost = ground (arith, lost)

  change_unchanged :
      (original o : O) (w : W)
      → r.deep_copy o ≡ some original
      → holds value (Dict.lookup key (or_make (a.read o))) ≡ true
      → change r a key value o w ≡ record { error = none; object = o; world = w }
  unfolding change
  change_unchanged original o w copied same = ground (arith, copied, same)

  change_patched :
      (original o : O) (w : W)
      → r.deep_copy o ≡ some original
      → holds value (Dict.lookup key (or_make (a.read o))) ≡ false
      → change r a key value o w
        ≡ r.patch original (a.write o (some (Dict.insert key value (or_make (a.read o))))) w
  unfolding change apply_patch
  change_patched original o w copied new = ground (arith, copied, new)

  find-insert_other :
      (k : String) (m : Metadata)
      → (k ≡ key) ⊎ (find k (some (Dict.insert key value (or_make m))) ≡ find k m)
  find-insert_other k m = elim (Bool-cases (key == k)) [
    | inl same ↦ inl (sym ((eq_iff key k).0 same))
    | inr other ↦ inr (
        find-or_make k (some (Dict.insert key value (or_make m)))
        ∙ Dict.lookup-insert key k value (or_make m)
        ∙ ground (arith, other, find-or_make k m))
  ]

  insert-IsUpdated :
      (m : Metadata) → IsUpdated key value m (some (Dict.insert key value (or_make m)))
  insert-IsUpdated m = record {
    set = find-insert key value (or_make m);
    others = λ k. find-insert_other k m;
  }

  change-Attempted :
      (o : O) (w : W) (original : O)
      → (got o w).error ≡ none
      → r.deep_copy (got o w).object ≡ some original
      → Attempted o w (change r a key value (got o w).object (got o w).world)
  change-Attempted o w original fine copied =
      let read = got o w in
      let m = a.read read.object in
      elim (Bool-cases (holds value (Dict.lookup key (or_make m)))) [
        | inl same ↦
            rw (change_unchanged original read.object read.world copied same)
              (unchanged original fine copied (find-or_make key m ∙ holds-eq value _ same))
        | inr new ↦ rw (change_patched original read.object read.world copied new) (
            patched original (some (Dict.insert key value (or_make m))) fine copied
              (λ e. holds-ne value _ new (sym (find-or_make key m) ∙ e)) (insert-IsUpdated m))
      ]

  pub attempt-Attempted : (o : O) (w : W) → Attempted o w (attempt r a key value o w)
  attempt-Attempted o w = elim (Option-cases (got o w).error) [
    | inr (e, failed) ↦ rw (attempt_unread o w e failed) (unread e failed)
    | inl fine ↦ rw (attempt_read o w fine) (elim (Option-cases (r.deep_copy (got o w).object)) [
      | inl lost ↦ rw (change_uncopied (got o w).object (got o w).world lost) (uncopied fine lost)
      | inr (original, copied) ↦ change-Attempted o w original fine copied
    ])
  ]
