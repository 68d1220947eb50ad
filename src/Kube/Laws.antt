-- ===== src/Kube/Laws.antt =====
-- What the documentation of the client and of retry.OnError promises, as hypotheses.
use argo_supply_chain_securi.Prelude.{
  ℕ, suc, ◌≡◌, ◌≢◌, String, Bool, true, false, Option, none, some,
}
use argo_supply_chain_securi.Go.{Error}
use argo_supply_chain_securi.Kube.{NamespacedName, Reply, Resource, Accessor, find, key_of}

-- The error is retried while attempts are left and `retriable` accepts it. The last error is
-- returned.
pub record IsRetry {W O : Type 0} (r : Resource W O) : Type 0 where
  pub done :
      (n : ℕ) (retriable : Error → Bool) (f : O → W → Reply W O) (o : O) (w : W)
      → (f o w).error ≡ none
      → r.on_error (suc n) retriable f o w ≡ f o w
  pub stop :
      (n : ℕ) (retriable : Error → Bool) (f : O → W → Reply W O) (o : O) (w : W) (e : Error)
      → (f o w).error ≡ some e
      → retriable e ≡ false
      → r.on_error (suc n) retriable f o w ≡ f o w
  pub last :
      (retriable : Error → Bool) (f : O → W → Reply W O) (o : O) (w : W)
      → r.on_error 1 retriable f o w ≡ f o w
  pub again :
      (n : ℕ) (retriable : Error → Bool) (f : O → W → Reply W O) (o : O) (w : W) (e : Error)
      → (f o w).error ≡ some e
      → retriable e ≡ true
      → r.on_error (suc (suc n)) retriable f o w
        ≡ r.on_error (suc n) retriable f (f o w).object (r.pause (f o w).world)

-- `stored w k` is what the API server holds under the name k in the world w.
pub record IsClient {W O : Type 0} (r : Resource W O) (a : Accessor O)
    (stored : W → NamespacedName → Option O) : Type 0 where
  -- A deep copy is equal to its original.
  pub copy : (o : O) → r.deep_copy o ≡ some o
  -- Setting a map leaves the object's name alone, and getting it gives it back.
  pub key-write : (o : O) (m : Option _) → key_of (r.meta (a.write o m)) ≡ key_of (r.meta o)
  pub read-write : (o : O) (m : Option _) → a.read (a.write o m) ≡ m
  -- A successful read gives the stored object, which has the name asked for.
  pub get_key :
      (k : NamespacedName) (o : O) (w : W)
      → (r.get k o w).error ≡ none
      → key_of (r.meta (r.get k o w).object) ≡ k
  pub get_stored :
      (k : NamespacedName) (o : O) (w : W)
      → (r.get k o w).error ≡ none
      → stored (r.get k o w).world k ≡ some (r.get k o w).object
  -- A call that fails leaves the object as it was handed over.
  pub get_failed :
      (k : NamespacedName) (o : O) (w : W) (e : Error)
      → (r.get k o w).error ≡ some e
      → (r.get k o w).object ≡ o
  pub patch_failed :
      (o o' : O) (w : W) (e : Error)
      → (r.patch o o' w).error ≡ some e
      → (r.patch o o' w).object ≡ o'
  -- A successful patch hands back the object as it is now stored, under the same name.
  pub patch_key :
      (o o' : O) (w : W)
      → (r.patch o o' w).error ≡ none
      → key_of (r.meta (r.patch o o' w).object) ≡ key_of (r.meta o')
  pub patch_stored :
      (o o' : O) (w : W)
      → (r.patch o o' w).error ≡ none
      → stored (r.patch o o' w).world (key_of (r.meta o')) ≡ some (r.patch o o' w).object
  -- A merge patch sets what differs from the original.
  pub patch_sets :
      (o o' : O) (w : W) (k v : String)
      → (r.patch o o' w).error ≡ none
      → find k (a.read o') ≡ some v
      → find k (a.read o) ≢ some v
      → find k (a.read (r.patch o o' w).object) ≡ some v
