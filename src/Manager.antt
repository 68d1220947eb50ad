-- ===== src/Manager.antt =====
-- cmd/main.go: the process, from the command line to the manager's end. The flag set, the
-- manager and its servers are the parameter `Process`; logging is left out.
pub mod Laws
use argo_supply_chain_securi.Prelude.{
  ℕ, String, Bool, true, false, none, List, [], ◌∷◌, ◌++◌, ◌⊎◌, inl, inr, not, if◌then◌else◌,
}
use argo_supply_chain_securi.Go.{Outcome, ok, err, panic, Go}
use argo_supply_chain_securi.Controller.{Platform}
use argo_supply_chain_securi.Controller.Startup.{Reconciler, Startup, Boot, setup_with_manager}

-- The variables that main binds to flags.
pub record Flags : Type 0 where
  pub metrics_addr : String
  pub probe_addr : String
  pub enable_leader_election : Bool
  pub secure_metrics : Bool
  pub enable_http2 : Bool

-- Their values before flag.Parse.
abbrev pub default_flags : Flags
default_flags = record {
  metrics_addr = ":8080";
  probe_addr = ":8081";
  enable_leader_election = false;
  secure_metrics = false;
  enable_http2 = false;
}

-- The field of tls.Config that the source sets: the protocols offered, none where it is nil.
pub record TlsConfig : Type 0 where
  pub next_protos : List String

-- A func(*tls.Config), as the change that it makes.
abbrev pub TlsOption : Type 0
TlsOption = TlsConfig → TlsConfig

abbrev pub disable_http2 : TlsOption
disable_http2 c = record c { next_protos = "http/1.1" ∷ [] }

-- tlsOpts
unfoldable pub tls_opts : Flags → List TlsOption
tls_opts flags = [] ++ (if not flags.enable_http2 then disable_http2 ∷ [] else [])

-- What a server does with its TLSOpts: each is called on the config, in order.
unfoldable pub configured : List TlsOption → TlsConfig → TlsConfig
configured [] c = c
configured (f ∷ fs) c = configured fs (f c)

pub record MetricsOptions : Type 0 where
  pub bind_address : String
  pub secure_serving : Bool
  pub tls_opts : List TlsOption

-- ctrl.Options, as far as main fills it in.
pub record Options (Scheme Server : Type 0) : Type 0 where
  pub scheme : Scheme
  pub metrics : MetricsOptions
  pub webhook_server : Server
  pub health_probe_bind_address : String
  pub leader_election : Bool
  pub leader_election_id : String

-- How the process comes to its end: main returns, a status is given to os.Exit, or a panic.
pub data Ending : Type 0 where
  returned : Ending
  exited : ℕ → Ending
  crashed : Ending

-- What main calls. `parse` is opts.BindFlags and flag.Parse over the declared flags, which may end
-- the process with a status. `startup` is the cluster's client and the builder at a manager.
pub record Process (W : Type 0) : Type 1 where
  pub Scheme : Type 0
  pub new_scheme : Scheme
  pub add_client_go_to_scheme : Scheme → Outcome Scheme
  pub add_workflows_to_scheme : Scheme → Outcome Scheme
  pub parse : Flags → W → (ℕ ⊎ Flags) × W
  pub Server : Type 0
  pub new_server : List TlsOption → Server
  pub RestConfig : Type 0
  pub get_config : Go W RestConfig
  pub Manager : Type 0
  pub new_manager : RestConfig → Options Scheme Server → Go W Manager
  pub startup : Manager → Startup W
  pub Checker : Type 0
  pub ping : Checker
  pub add_healthz_check : Manager → String → Checker → Go W (Unit {0})
  pub add_readyz_check : Manager → String → Checker → Go W (Unit {0})
  -- mgr.Start(ctrl.SetupSignalHandler())
  pub start : Manager → Go W (Unit {0})

module _ {W : Type 0} where
  -- utilruntime.Must
  abbrev must_add : {A : Type 0} → Outcome A → (A → W → Ending × W) → W → Ending × W
  must_add (ok a) next w = next a w
  must_add (err e) next w = (crashed, w)
  must_add panic next w = (crashed, w)

  abbrev pub settle : {A : Type 0} → Outcome A → (A → W → Ending × W) → W → Ending × W
  settle (ok a) next w = next a w
  settle (err e) next w = (exited 1, w)
  settle panic next w = (crashed, w)

  -- if err != nil { setupLog.Error(…); os.Exit(1) }
  unfoldable pub or_exit : {A : Type 0} → Go W A → (A → W → Ending × W) → W → Ending × W
  or_exit m next w = let (r, w') = m w in settle r next w'

-- The Reconciler that main makes: SetupWithManager fills in the rest.
abbrev pub new_reconciler : {C : Type 0} → Reconciler C
new_reconciler = record { incluster_client = none; namespace = "" }

module _ {W K : Type 0} (p : Platform W K) (e : Process W) where
  open e use {
    Scheme, new_scheme, add_client_go_to_scheme, add_workflows_to_scheme, parse, new_server, Server,
    get_config, Manager, new_manager, startup, ping, add_healthz_check, add_readyz_check, start,
  }

  unfoldable pub manager_options : Scheme → Flags → Options Scheme Server
  manager_options scheme flags = record {
    scheme = scheme;
    metrics = record {
      bind_address = flags.metrics_addr;
      secure_serving = flags.secure_metrics;
      tls_opts = tls_opts flags;
    };
    webhook_server = new_server (tls_opts flags);
    health_probe_bind_address = flags.probe_addr;
    leader_election = flags.enable_leader_election;
    leader_election_id = "ea2e965f.argo.slsa.io";
  }

  -- (&controller.Reconciler{…}).SetupWithManager(mgr)
  unfoldable pub set_up : Manager → Go W (Unit {0})
  set_up mgr w =
      let (r, b) =
        setup_with_manager p (startup mgr) (record { reconciler = new_reconciler; world = w }) in
      (r, b.world)

  unfoldable pub end_main : Unit {0} → W → Ending × W
  end_main done w = (returned, w)

  -- From the manager on.
  unfoldable pub run_manager : Manager → W → Ending × W
  unfolding end_main
  run_manager mgr = or_exit (set_up mgr) (λ _.
      or_exit (add_healthz_check mgr "healthz" ping)
        (λ _. or_exit (add_readyz_check mgr "readyz" ping) (λ _. or_exit (start mgr) end_main)))

  -- From the parsed flags on. ctrl.GetConfigOrDie exits with the status 1 too.
  unfoldable pub with_flags : Scheme → Flags → W → Ending × W
  with_flags scheme flags =
      or_exit get_config
        (λ config. or_exit (new_manager config (manager_options scheme flags)) run_manager)

  abbrev pub with_parsed : Scheme → ℕ ⊎ Flags → W → Ending × W
  with_parsed scheme (inl status) w = (exited status, w)
  with_parsed scheme (inr flags) w = with_flags scheme flags w

  unfoldable pub main : Scheme → W → Ending × W
  main scheme w = let (r, w') = parse default_flags w in with_parsed scheme r w'

  -- init, and then main.
  unfoldable pub run_process : W → Ending × W
  run_process =
      must_add (add_client_go_to_scheme new_scheme)
        (λ scheme. must_add (add_workflows_to_scheme scheme) main)
