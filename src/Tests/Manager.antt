-- ===== src/Tests/Manager.antt =====
-- cmd/main.go: the process over the cluster in memory, with nothing given on the command line.
use argo_supply_chain_securi.Prelude.{ℕ, ◌+◌, String, ◌≡◌, refl, inr, none}
use argo_supply_chain_securi.Go.{ok, ◌>>=◌, wrap, catch, from_result}
use argo_supply_chain_securi.Controller.{get_current_namespace}
use argo_supply_chain_securi.Controller.Startup.{
  Startup, in_world, must, client_with_incluster_config, check_config_map_exists, complete_setup,
  with_namespace, with_client, setup_with_manager,
}
use argo_supply_chain_securi.Manager.{
  Process, returned, or_exit, set_up, run_manager, with_flags, main, run_process,
}
use argo_supply_chain_securi.Manager.Laws.{HasServed, run_process-HasServed}
use argo_supply_chain_securi.Tests.World.{World}
use argo_supply_chain_securi.Tests.Cluster.{world}
use argo_supply_chain_securi.Tests.Rounds.{fine}

abbrev startup : Startup World
startup = record {
  RestConfig = String;
  Client = String;
  incluster_config = λ w. (ok "https://kubernetes", w);
  new_for_config = λ url. inr url;
  get_config_map = λ client k w. (ok tt, w);
  complete = λ r w. (ok tt, w);
}

-- A scheme counts the APIs that it knows.
abbrev process : Process World
process = record {
  Scheme = ℕ;
  new_scheme = 0;
  add_client_go_to_scheme = λ n. ok (n + 1);
  add_workflows_to_scheme = λ n. ok (n + 1);
  parse = λ flags w. (inr flags, w);
  Server = Unit {0};
  new_server = λ options. tt;
  RestConfig = String;
  get_config = λ w. (ok "https://kubernetes", w);
  Manager = String;
  new_manager = λ url options w. (ok url, w);
  startup = λ url. startup;
  Checker = Unit {0};
  ping = tt;
  add_healthz_check = λ url path check w. (ok tt, w);
  add_readyz_check = λ url path check w. (ok tt, w);
  start = λ url w. (ok tt, w);
}

served : run_process fine process (world none) ≡ (returned, world none)
unfolding run_process main with_flags run_manager or_exit set_up setup_with_manager with_client
    with_namespace complete_setup check_config_map_exists client_with_incluster_config
    get_current_namespace in_world must wrap catch from_result ◌>>=◌
served = refl

run_process-HasServed_example : HasServed fine process (world none) (world none)
run_process-HasServed_example = run_process-HasServed fine process (world none) (world none) served
