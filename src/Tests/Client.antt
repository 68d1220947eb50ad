-- ===== src/Tests/Client.antt =====
-- The client of the cluster in memory keeps what the documentation promises.
use argo_supply_chain_securi.Prelude.{
  ℕ, zero, suc, ◌≡◌, refl, ap, ◌∙◌, arith, String, Bool, false, Option, none, some, List, ◌∷◌,
}
use argo_supply_chain_securi.Prelude.Dict.{Dict}
use argo_supply_chain_securi.Go.{Error}
use argo_supply_chain_securi.Kube.{
  NamespacedName, ObjectMeta, key_of, Reply, Resource, Pod, Accessor, pod_annotations,
}
use argo_supply_chain_securi.Kube.Laws.{IsRetry, IsClient}
use argo_supply_chain_securi.StatusUpdater.Costs.{IsMetered}
use argo_supply_chain_securi.Workflow.{Workflow, workflow_labels}
use argo_supply_chain_securi.Tests.World.{World, seek, seek-key, seek_self, tried, missing}

-- A client of one kind of object, by where the cluster keeps its objects.
module _ {O : Type 0} (meta : O → ObjectMeta) (all : World → List O)
    (store : List O → World → World) where
  abbrev answer : O → World → Option O → Reply World O
  answer o w none = record { error = some missing; object = o; world = w }
  answer o w (some o') = record { error = none; object = o'; world = w }

  abbrev pub stored : World → NamespacedName → Option O
  stored w k = seek meta (all w) k

  abbrev pub resource : Resource World O
  resource = record {
    meta = meta;
    deep_copy = λ o. some o;
    get = λ k o w. answer o w (stored w k);
    patch = λ o o' w. record { error = none; object = o'; world = store (o' ∷ all w) w };
    on_error = tried;
    pause = λ w. w;
  }

  tried-done :
      (n : ℕ) (retriable : Error → Bool) (f : O → World → Reply World O) (o : O) (w : World)
      → (f o w).error ≡ none
      → tried (suc n) retriable f o w ≡ f o w
  tried-done zero retriable f o w h = refl
  tried-done (suc n) retriable f o w h = ground (arith, h)

  tried-stop :
      (n : ℕ) (retriable : Error → Bool) (f : O → World → Reply World O) (o : O) (w : World)
      (e : Error)
      → (f o w).error ≡ some e
      → retriable e ≡ false
      → tried (suc n) retriable f o w ≡ f o w
  tried-stop zero retriable f o w e h g = refl
  tried-stop (suc n) retriable f o w e h g = ground (arith, h, g)

  pub resource-IsRetry : IsRetry resource
  resource-IsRetry = record {
    done = tried-done;
    stop = tried-stop;
    last = λ _ _ _ _. refl;
    again = λ n retriable f o w e p q. ground (arith, p, q);
  }

  get-stored :
      (k : NamespacedName) (o : O) (w : World)
      → (answer o w (stored w k)).error ≡ none
      → stored w k ≡ some (answer o w (stored w k)).object
  get-stored k o w h = ground arith

  world-answer : (k : NamespacedName) (o : O) (w : World) → (answer o w (stored w k)).world ≡ w
  world-answer k o w = ground arith

  get-failed :
      (k : NamespacedName) (o : O) (w : World) (e : Error)
      → (answer o w (stored w k)).error ≡ some e
      → (answer o w (stored w k)).object ≡ o
  get-failed k o w e h = ground arith

  pub resource-IsClient :
      (a : Accessor O)
      → ((o : O) (m : Option (Dict String)) → key_of (meta (a.write o m)) ≡ key_of (meta o))
      → ((o : O) (m : Option (Dict String)) → a.read (a.write o m) ≡ m)
      → ((os : List O) (w : World) → all (store os w) ≡ os)
      → IsClient resource a stored
  resource-IsClient a named read put = record {
    copy = λ o. refl;
    key-write = named;
    read-write = read;
    get_key = λ k o w h. seek-key meta (all w) k (get-stored k o w h);
    get_stored = λ k o w h. rw (world-answer k o w) (get-stored k o w h);
    get_failed = get-failed;
    patch_failed = λ o o' w e h. refl;
    patch_key = λ o o' w h. refl;
    patch_stored = λ o o' w h.
        ap (λ os. seek meta os (key_of (meta o'))) (put (o' ∷ all w) w) ∙ seek_self meta o' (all w);
    patch_sets = λ o o' w k v h set new. set;
  }

  -- What is stored can be read.
  pub get-found :
      (k : NamespacedName) (o : O) (w : World) {o' : O}
      → stored w k ≡ some o'
      → ((resource.get k o w).error ≡ none) × ((resource.get k o w).world ≡ w)
  get-found k o w here = rw here (refl, refl)

  -- What the store does not change costs nothing.
  pub resource-IsMetered :
      (spent : World → ℕ)
      → ((os : List O) (w : World) → spent (store os w) ≡ spent w)
      → IsMetered resource spent 0 0 0
  resource-IsMetered spent stays = record {
    get-cost = λ k o w. omega (arith, ap spent (world-answer k o w));
    patch-cost = λ o o' w. omega (arith, stays (o' ∷ all w) w);
    pause-cost = λ w. omega arith;
  }

abbrev pub pods : Resource World Pod
pods = resource (λ p. p.meta) (λ w. w.pods) (λ os w. record w { pods = os })

abbrev pub workflows : Resource World Workflow
workflows = resource (λ f. f.meta) (λ w. w.workflows) (λ os w. record w { workflows = os })

abbrev pub stored_pod : World → NamespacedName → Option Pod
stored_pod = stored (λ p. p.meta) (λ w. w.pods) (λ os w. record w { pods = os })

abbrev pub stored_workflow : World → NamespacedName → Option Workflow
stored_workflow = stored (λ f. f.meta) (λ w. w.workflows) (λ os w. record w { workflows = os })

pub pods-IsRetry : IsRetry pods
pods-IsRetry = resource-IsRetry (λ p. p.meta) (λ w. w.pods) (λ os w. record w { pods = os })

pub pods-IsClient : IsClient pods pod_annotations stored_pod
pods-IsClient =
    resource-IsClient (λ p. p.meta) (λ w. w.pods) (λ os w. record w { pods = os }) pod_annotations
      (λ _ _. refl) (λ _ _. refl) (λ _ _. refl)

pub workflows-IsRetry : IsRetry workflows
workflows-IsRetry =
    resource-IsRetry (λ f. f.meta) (λ w. w.workflows) (λ os w. record w { workflows = os })

pub workflows-IsClient : IsClient workflows workflow_labels stored_workflow
workflows-IsClient =
    resource-IsClient (λ f. f.meta) (λ w. w.workflows) (λ os w. record w { workflows = os })
      workflow_labels (λ _ _. refl) (λ _ _. refl) (λ _ _. refl)
