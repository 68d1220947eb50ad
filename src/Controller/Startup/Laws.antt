-- ===== src/Controller/Startup/Laws.antt =====
-- internal/controller/workflow_controller.go: what stands when SetupWithManager has not panicked.
use argo_supply_chain_securi.Prelude.{String, ◌<>◌, ◌≡◌, ◌≢◌, refl, ap, ◌∙◌, arith, some}
use argo_supply_chain_securi.Go.{Outcome, ok, err, panic, Go, ◌>>=◌, wrap, catch}
use argo_supply_chain_securi.Controller.{
  Platform, config_map_name, service_account_info_path, get_current_namespace,
}
use argo_supply_chain_securi.Controller.Startup.{
  Reconciler, Startup, Boot, in_world, must, must_outcome, client_with_incluster_config,
  check_config_map_exists, complete_setup, with_namespace, with_client, setup_with_manager,
}

module _ {C W A B : Type 0} where
  -- What is left of a call that must not fail, and is followed by another.
  must-calm :
      (m : Go (Boot C W) A) (f : A → Go (Boot C W) B) (b : Boot C W)
      → ((must m >>= f) b).0 ≢ panic
      → (a : A) × ((m b).0 ≡ ok a) × ((must m >>= f) b ≡ f a (m b).1)
  unfolding ◌>>=◌ must must_outcome
  must-calm m f b calm = by_outcome (m b).0 refl
    where
      by_outcome :
          (r : Outcome A)
          → (m b).0 ≡ r
          → (a : A) × ((m b).0 ≡ ok a) × ((must m >>= f) b ≡ f a (m b).1)
      by_outcome (ok a) e = (a, e, rw e refl)
      by_outcome (err x) e = absurd (calm (rw e refl))
      by_outcome panic e = absurd (calm (rw e refl))

module _ {W K : Type 0} (p : Platform W K) (s : Startup W) where
  -- The Reconciler with its client and its namespace.
  abbrev pub ready : s.Client → String → Reconciler s.Client
  ready client namespace = record { incluster_client = some client; namespace = namespace }

  abbrev boot : Reconciler s.Client → W → Boot s.Client W
  boot r w = record { reconciler = r; world = w }

  abbrev pub found : s.Client → String → W → Outcome (Unit {0}) × W
  found client namespace w =
      s.get_config_map client (record { namespace = namespace; name = config_map_name }) w

  abbrev pub mount : W → Outcome String × W
  mount w = p.read_file (service_account_info_path <> "/namespace") w

  -- The cluster was reached from b, the namespace was read, its config map found, and the manager
  -- has taken the Reconciler, in that order.
  pub record IsReady (b after : Boot s.Client W) (result : Outcome (Unit {0})) : Type 0 where
    pub client : s.Client
    pub connected : (client_with_incluster_config p s b.world).0 ≡ ok client
    pub namespace : String
    pub mounted : (mount (client_with_incluster_config p s b.world).1).0 ≡ ok namespace
    pub configured :
        (found client namespace (mount (client_with_incluster_config p s b.world).1).1).0 ≡ ok tt
    pub reconciler : after.reconciler ≡ ready client namespace
    pub completed :
        s.complete
          (ready client namespace)
          (found client namespace (mount (client_with_incluster_config p s b.world).1).1).1
        ≡ (result, after.world)

  -- The config map of the namespace can be read, and the read changes only the world.
  check_config_map_exists-ok :
      (client : s.Client) (namespace : String) (w : W)
      → (check_config_map_exists p s config_map_name (boot (ready client namespace) w)).0 ≡ ok tt
      → ((found client namespace w).0 ≡ ok tt)
        × ((check_config_map_exists p s config_map_name (boot (ready client namespace) w)).1
            ≡ boot (ready client namespace) (found client namespace w).1)
  unfolding check_config_map_exists wrap catch in_world
  check_config_map_exists-ok client namespace w h = ground arith

  with_namespace-calm :
      (client : s.Client) (old namespace : String) (w : W)
      → (with_namespace p s namespace (boot (ready client old) w)).0 ≢ panic
      → ((found client namespace w).0 ≡ ok tt)
        × (with_namespace p s namespace (boot (ready client old) w)
            ≡ complete_setup p s (boot (ready client namespace) (found client namespace w).1))
  unfolding with_namespace ◌>>=◌
  with_namespace-calm client old namespace w calm =
      let (_, checked, e) =
        must-calm (check_config_map_exists p s config_map_name) (λ _. complete_setup p s)
          (boot (ready client namespace) w) calm in
      let (there, left) = check_config_map_exists-ok client namespace w checked in
      (there, e ∙ ap (complete_setup p s) left)

  with_client-calm :
      (client : s.Client) (b : Boot s.Client W)
      → (with_client p s client b).0 ≢ panic
      → (namespace : String) × ((mount b.world).0 ≡ ok namespace)
        × ((found client namespace (mount b.world).1).0 ≡ ok tt)
        × (with_client p s client b
            ≡ complete_setup p s
                (boot (ready client namespace) (found client namespace (mount b.world).1).1))
  unfolding with_client in_world get_current_namespace ◌>>=◌
  with_client-calm client b calm =
      let (namespace, mounted, e) =
        must-calm (in_world (get_current_namespace p)) (with_namespace p s)
          (boot (ready client b.reconciler.namespace) b.world) calm in
      let (there, e') =
        with_namespace-calm client b.reconciler.namespace namespace (mount b.world).1
          (rw e at calm) in
      (namespace, mounted, there, e ∙ e')

  complete_setup-ready :
      (client : s.Client) (namespace : String) (w : W) (done : Outcome (Unit {0}) × Boot s.Client W)
      → done ≡ complete_setup p s (boot (ready client namespace) w)
      → (done.1.reconciler ≡ ready client namespace)
        × (s.complete (ready client namespace) w ≡ (done.0, done.1.world))
  unfolding complete_setup in_world
  complete_setup-ready client namespace w done e = rw e (refl, refl)

  -- SetupWithManager never returns an error of its own: if it does not panic, it has reached the
  -- cluster, read its namespace and found the config map there, the Reconciler holds the client
  -- and the namespace, and the result is that of the manager's Complete for this Reconciler.
  pub setup_with_manager-IsReady :
      (b : Boot s.Client W)
      → (setup_with_manager p s b).0 ≢ panic
      → IsReady b (setup_with_manager p s b).1 (setup_with_manager p s b).0
  unfolding setup_with_manager in_world
  setup_with_manager-IsReady b calm =
      let (client, connected, e) =
        must-calm (in_world (client_with_incluster_config p s)) (with_client p s) b calm in
      let (namespace, mounted, there, e') = with_client-calm client _ (rw e at calm) in
      let (held, ended) = complete_setup-ready client namespace _ _ (e ∙ e') in
      record {
        client = client;
        connected = connected;
        namespace = namespace;
        mounted = mounted;
        configured = there;
        reconciler = held;
        completed = ended;
      }
