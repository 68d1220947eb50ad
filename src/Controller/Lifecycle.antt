-- ===== src/Controller/Lifecycle.antt =====
-- internal/controller/workflow_controller.go: the rounds of one workflow, one after the other, with
-- what else happens on the cluster between them.
use argo_supply_chain_securi.Prelude.{
  String, arith, ◌≡◌, ◌∙◌, refl, sym, true, none, some, Option, inl, inr, Option-cases, Bool-cases,
}
use mathlib.Core.Option.{some-injective}
use argo_supply_chain_securi.Prelude.Dict.{Dict}
use argo_supply_chain_securi.Go.{
  Outcome, ok, err, panic, plain, Go, ◌>>=◌, pure, throw, is_not_found,
}
use argo_supply_chain_securi.Kube.{NamespacedName}
use argo_supply_chain_securi.Config
use argo_supply_chain_securi.Config.{Config}
use argo_supply_chain_securi.Workflow.{Workflow}
use argo_supply_chain_securi.Controller.{
  Platform, is_finished, reconcile_workflow, with_keychain, read_workflow, get_current_namespace,
  get_config_map, config_map_name, reconcile, empty_workflow,
}

module _ {W K : Type 0} (p : Platform W K) (stored : W → NamespacedName → Option Workflow)
    (k : NamespacedName) where
  -- The cluster stores the workflow with the label Completed or Error.
  abbrev pub IsDone : W → Type 0
  IsDone w = (wf : Workflow) × (stored w k ≡ some wf) × (is_finished p wf ≡ true)

  -- The calls that a round begins with leave the stored workflow alone, and a read that reports no
  -- error has read it.
  pub record IsReading : Type 0 where
    pub file : (path : String) (w : W) → stored (p.read_file path w).1 k ≡ stored w k
    pub config_map :
        (n : NamespacedName) (w : W) → stored (p.get_config_map_data n w).1 k ≡ stored w k
    pub keychain :
        (namespace : String) (wf : Workflow) (w : W)
        → stored (p.get_authn_keychain namespace wf w).1 k ≡ stored w k
    pub kept : (o : Workflow) (w : W) → stored (p.workflows.get k o w).world k ≡ stored w k
    pub got :
        (o : Workflow) (w : W)
        → (p.workflows.get k o w).error ≡ none
        → stored w k ≡ some (p.workflows.get k o w).object

  -- A call that leaves a finished workflow as it is.
  abbrev Keeps : {A : Type 0} → Go W A → Type 0
  Keeps f = (w : W) → IsDone w → stored (f w).1 k ≡ stored w k

  IsDone-kept : (w w' : W) → stored w' k ≡ stored w k → IsDone w → IsDone w'
  IsDone-kept w w' e (wf, here, done) = (wf, e ∙ here, done)

  bind-Keeps :
      {A B : Type 0} (m : Go W A) (f : A → Go W B)
      → Keeps m
      → ((a : A) → Keeps (f a))
      → Keeps (m >>= f)
  unfolding ◌>>=◌
  bind-Keeps {A = A} m f hm hf w done = by_outcome (m w).0 refl
    where
      by_outcome : (r : Outcome A) → (m w).0 ≡ r → stored ((m >>= f) w).1 k ≡ stored w k
      by_outcome (ok a) e = rw e (hf a (m w).1 (IsDone-kept w (m w).1 (hm w done) done) ∙ hm w done)
      by_outcome (err x) e = rw e (hm w done)
      by_outcome panic e = rw e (hm w done)

  world-reconcile_workflow :
      (cfg : Config K) (wf : Workflow) (w : W)
      → is_finished p wf ≡ true
      → (reconcile_workflow p cfg wf w).1 ≡ w
  unfolding reconcile_workflow
  world-reconcile_workflow cfg wf w h = ground (arith, h)

  with_keychain-kept :
      (reads : IsReading) (cfg : Config K) (wf : Workflow) (w : W)
      → is_finished p wf ≡ true
      → stored (with_keychain p cfg wf w).1 k ≡ stored w k
  unfolding with_keychain ◌>>=◌
  with_keychain-kept reads cfg wf w h = by_outcome (p.get_authn_keychain p.namespace wf w).0 refl
    where
      by_outcome :
          (r : Outcome K)
          → (p.get_authn_keychain p.namespace wf w).0 ≡ r
          → stored (with_keychain p cfg wf w).1 k ≡ stored w k
      by_outcome (ok chain) e =
          rw (e, world-reconcile_workflow (record cfg { auth_key_chain = some chain }) wf _ h)
            (reads.keychain p.namespace wf w)
      by_outcome (err x) e = rw e (reads.keychain p.namespace wf w)
      by_outcome panic e = rw e (reads.keychain p.namespace wf w)

  read_workflow-Keeps :
      (reads : IsReading) (cfg : Config K)
      → Keeps (λ w. read_workflow p cfg (p.workflows.get k empty_workflow w))
  unfolding read_workflow
  read_workflow-Keeps reads cfg w (wf, here, done) =
      elim (Option-cases (p.workflows.get k empty_workflow w).error) [
        | inr (e, failed) ↦ elim (Bool-cases (is_not_found e)) [
          | inl gone ↦ rw (failed, gone) (reads.kept empty_workflow w)
          | inr other ↦ rw (failed, other) (reads.kept empty_workflow w)
        ]
        | inl fine ↦
            let same : wf ≡ (p.workflows.get k empty_workflow w).object =
              some-injective _ _ (sym here ∙ reads.got empty_workflow w fine) in
            rw fine
              (with_keychain-kept reads cfg _ _ (rw (← same) done) ∙ reads.kept empty_workflow w)
      ]

  get_config_map-Keeps :
      (reads : IsReading) (name namespace : String) → Keeps (get_config_map p name namespace)
  unfolding get_config_map
  get_config_map-Keeps reads name namespace =
      bind-Keeps (p.get_config_map_data (record { namespace = namespace; name = name })) _
        (λ w done. reads.config_map _ w) opened
    where
      opened :
          (d : Option (Dict String))
          → Keeps {A = Dict String}
              (elim d [ none ↦ throw (plain "empty config map") | some m ↦ pure m ])
      opened none w done = refl
      opened (some m) w done = refl

  reconcile-Keeps : IsReading → Keeps (reconcile p k)
  unfolding reconcile get_current_namespace
  reconcile-Keeps reads =
      bind-Keeps (get_current_namespace p) _ (λ w done. reads.file _ w)
        (λ ns.
          bind-Keeps (get_config_map p config_map_name ns) _
            (get_config_map-Keeps reads config_map_name ns)
            (λ data'. read_workflow-Keeps reads (Config.new p.default_rekor_url data')))

  -- One thing that happens: a round of the workflow, or anything that leaves it alone.
  pub data Step : W → W → Type 0 where
    round : {w : W} → Step w (reconcile p k w).1
    elsewhere : {w w' : W} → stored w' k ≡ stored w k → Step w w'

  pub data Steps : W → W → Type 0 where
    rest : {w : W} → Steps w w
    further : {w w' w'' : W} → Step w w' → Steps w' w'' → Steps w w''

  Step-kept : {w w' : W} → IsReading → Step w w' → IsDone w → stored w' k ≡ stored w k
  Step-kept {w} reads round done = reconcile-Keeps reads w done
  Step-kept reads (elsewhere same) done = same

  -- Where the calls that a round begins with only read, a workflow that is stored with the label
  -- Completed or Error is never changed again by its rounds: however many of them follow each
  -- other, whatever else happens between them that leaves it alone, it stays stored as it was.
  pub finished_stays : {w w' : W} → IsReading → Steps w w' → IsDone w → stored w' k ≡ stored w k
  finished_stays reads rest done = refl
  finished_stays {w} reads (further {w' = next} step more) done =
      let same = Step-kept reads step done in
      finished_stays reads more (IsDone-kept w next same done) ∙ same
