-- ===== src/Controller/Startup.antt =====
-- internal/controller/workflow_controller.go: SetupWithManager, clientWithInClusterConfig and
-- checkConfigMapExists, which run once when the process starts. client-go and the manager are the
-- parameter `Startup`.
pub mod Laws
use argo_supply_chain_securi.Prelude.{String, ◌<>◌, Option, none, some, ◌⊎◌}
use argo_supply_chain_securi.Go.{Outcome, ok, err, panic, Error, Go, ◌>>=◌, ◌>>◌, wrap, from_result}
use argo_supply_chain_securi.Kube.{NamespacedName}
use argo_supply_chain_securi.Controller.{Platform, config_map_name, get_current_namespace}

-- The fields of the Reconciler that SetupWithManager sets; the interface is nil before.
pub record Reconciler (C : Type 0) : Type 0 where
  pub incluster_client : Option C
  pub namespace : String

pub record Startup (W : Type 0) : Type 1 where
  pub RestConfig : Type 0
  pub Client : Type 0
  pub incluster_config : Go W RestConfig
  pub new_for_config : RestConfig → Error ⊎ Client
  -- ConfigMaps(namespace).Get(name), of which only the error is looked at
  pub get_config_map : Client → NamespacedName → Go W (Unit {0})
  -- ctrl.NewControllerManagedBy(mgr).For(&Workflow{}).Complete(r)
  pub complete : Reconciler Client → Go W (Unit {0})

-- What SetupWithManager changes: its receiver and the world.
pub record Boot (C W : Type 0) : Type 0 where
  pub reconciler : Reconciler C
  pub world : W

must_outcome : {A : Type 0} → Outcome A → Outcome A
must_outcome (ok a) = ok a
must_outcome (err e) = panic
must_outcome panic = panic

module _ {C W : Type 0} where
  -- A call that leaves the receiver as it is.
  unfoldable pub in_world : {A : Type 0} → Go W A → Go (Boot C W) A
  in_world m b = let (r, w) = m b.world in (r, record b { world = w })

  -- if err != nil { panic(err) }
  unfoldable pub must : {A : Type 0} → Go (Boot C W) A → Go (Boot C W) A
  unfolding must_outcome
  must m b = let (r, b') = m b in (must_outcome r, b')

  abbrev pub set_incluster_client : C → Go (Boot C W) (Unit {0})
  set_incluster_client client b =
      (ok tt, record b { reconciler = record b.reconciler { incluster_client = some client } })

  abbrev pub set_namespace : String → Go (Boot C W) (Unit {0})
  set_namespace namespace b =
      (ok tt, record b { reconciler = record b.reconciler { namespace = namespace } })

module _ {W K : Type 0} (p : Platform W K) (s : Startup W) where
  open s use {Client, incluster_config, new_for_config, get_config_map, complete}

  unfoldable pub client_with_incluster_config : Go W Client
  client_with_incluster_config = do config ← incluster_config; from_result (new_for_config config)

  -- A method call on a nil interface panics.
  unfoldable pub check_config_map_exists : String → Go (Boot Client W) (Unit {0})
  check_config_map_exists name b = elim b.reconciler.incluster_client [
    | none ↦ (panic, b)
    | some client ↦
        wrap ("ConfigMap " <> (b.reconciler.namespace <> ("/" <> (name <> " not found: "))))
          (in_world
            (get_config_map client (record { namespace = b.reconciler.namespace; name = name })))
          b
  ]

  -- The end of SetupWithManager.
  unfoldable pub complete_setup : Go (Boot Client W) (Unit {0})
  complete_setup b = in_world (complete b.reconciler) b

  -- From the namespace on.
  unfoldable pub with_namespace : String → Go (Boot Client W) (Unit {0})
  with_namespace namespace = do
    set_namespace namespace
    must (check_config_map_exists config_map_name)
    complete_setup

  -- From the client on.
  unfoldable pub with_client : Client → Go (Boot Client W) (Unit {0})
  with_client client = do
    set_incluster_client client
    namespace ← must (in_world (get_current_namespace p))
    with_namespace namespace

  unfoldable pub setup_with_manager : Go (Boot Client W) (Unit {0})
  setup_with_manager = do client ← must (in_world client_with_incluster_config); with_client client
