-- ===== src/Manager/Laws.antt =====
-- cmd/main.go: what stands when main returns, which is the process's only end without a failure.
use argo_supply_chain_securi.Prelude.{
  ◌≡◌, ◌≢◌, refl, ap, subst, arith, ◌⊎◌, inl, inr, List, [], ◌∷◌, ℕ, if◌then◌else◌,
}
use argo_supply_chain_securi.Go.{Outcome, ok, err, panic, Go}
use argo_supply_chain_securi.Go.Binds.{pair-ok}
use argo_supply_chain_securi.Controller.{Platform}
use argo_supply_chain_securi.Controller.Startup.{Boot, setup_with_manager}
use argo_supply_chain_securi.Controller.Startup.Laws.{IsReady, setup_with_manager-IsReady}
use argo_supply_chain_securi.Manager.{
  Flags, default_flags, TlsConfig, TlsOption, tls_opts, configured, Ending, returned, Process,
  or_exit, must_add, settle, new_reconciler, manager_options, set_up, run_manager, end_main,
  with_flags, with_parsed, main, run_process,
}

-- The servers that are given these options offer HTTP/2 only if the flag enables it: without it
-- all that they offer is HTTP/1.1, with it what they offer is not touched.
abbrev pub LimitsHttp2 : Flags → List TlsOption → Type 0
LimitsHttp2 flags options =
    (c : TlsConfig)
    → (configured options c).next_protos
      ≡ (if flags.enable_http2 then c.next_protos else "http/1.1" ∷ [])

tls_opts-LimitsHttp2 : (flags : Flags) → LimitsHttp2 flags (tls_opts flags)
unfolding tls_opts configured
tls_opts-LimitsHttp2 flags c = ground arith

module _ {W A : Type 0} where
  settle-returned :
      (r : Outcome A) (next : A → W → Ending × W) (w : W) {after : W}
      → settle r next w ≡ (returned, after)
      → (a : A) × (r ≡ ok a) × (next a w ≡ (returned, after))
  settle-returned (ok a) next w h = (a, refl, h)
  settle-returned (err x) next w h = cc
  settle-returned panic next w h = cc

  -- A call that may end the process was successful where the process goes on to return.
  or_exit-returned :
      (m : Go W A) (next : A → W → Ending × W) (w : W) {after : W}
      → or_exit m next w ≡ (returned, after)
      → (a : A) × (v : W) × (m w ≡ (ok a, v)) × (next a v ≡ (returned, after))
  unfolding or_exit
  or_exit-returned m next w h =
      let (a, e, h') = settle-returned (m w).0 next (m w).1 h in (a, (m w).1, pair-ok (m w) e, h')

  must_add-returned :
      (r : Outcome A) (next : A → W → Ending × W) (w : W) {after : W}
      → must_add r next w ≡ (returned, after)
      → (a : A) × (r ≡ ok a) × (next a w ≡ (returned, after))
  must_add-returned (ok a) next w h = (a, refl, h)
  must_add-returned (err x) next w h = cc
  must_add-returned panic next w h = cc

module _ {W K : Type 0} (p : Platform W K) (e : Process W) where
  -- The manager has run: the Reconciler was set up on it, both probes were added to it, and it was
  -- started and ended without an error, one after the other from the world w to the world after.
  pub record HasRun (mgr : e.Manager) (w after : W) : Type 0 where
    pub up : Boot (e.startup mgr).Client W
    pub ready :
        IsReady p (e.startup mgr) (record { reconciler = new_reconciler; world = w }) up (ok tt)
    pub alive : W
    pub healthz : e.add_healthz_check mgr "healthz" e.ping up.world ≡ (ok tt, alive)
    pub probed : W
    pub readyz : e.add_readyz_check mgr "readyz" e.ping alive ≡ (ok tt, probed)
    pub started : e.start mgr probed ≡ (ok tt, after)

  -- A process that has served its manager from the world w to the world after.
  pub record HasServed (w after : W) : Type 0 where
    pub core : e.Scheme
    pub core_added : e.add_client_go_to_scheme e.new_scheme ≡ ok core
    pub scheme : e.Scheme
    pub workflows_added : e.add_workflows_to_scheme core ≡ ok scheme
    pub flags : Flags
    pub parsed : W
    pub given : e.parse default_flags w ≡ (inr flags, parsed)
    pub config : e.RestConfig
    pub reached : W
    pub cluster : e.get_config parsed ≡ (ok config, reached)
    pub options : List TlsOption
    pub http2 : LimitsHttp2 flags options
    pub mgr : e.Manager
    pub managed : W
    pub made :
        e.new_manager config
          (record {
            scheme = scheme;
            metrics = record {
              bind_address = flags.metrics_addr;
              secure_serving = flags.secure_metrics;
              tls_opts = options;
            };
            webhook_server = e.new_server options;
            health_probe_bind_address = flags.probe_addr;
            leader_election = flags.enable_leader_election;
            leader_election_id = "ea2e965f.argo.slsa.io";
          })
          reached
        ≡ (ok mgr, managed)
    pub run : HasRun mgr managed after

  set_up-IsReady :
      (mgr : e.Manager) (w : W) {v : W}
      → set_up p e mgr w ≡ (ok tt, v)
      → (b : Boot (e.startup mgr).Client W) × (b.world ≡ v)
        × IsReady p (e.startup mgr) (record { reconciler = new_reconciler; world = w }) b (ok tt)
  unfolding set_up
  set_up-IsReady mgr w {v} h =
      let before : Boot (e.startup mgr).Client W = record {
        reconciler = new_reconciler;
        world = w;
      } in
      let done = setup_with_manager p (e.startup mgr) before in
      let fine : done.0 ≡ ok tt = ap (λ r. r.0) h in
      let calm : done.0 ≢ panic = λ x. cc in
      (
        done.1,
        ap (λ r. r.1) h,
        subst (IsReady p (e.startup mgr) before done.1) fine
            (setup_with_manager-IsReady p (e.startup mgr) before calm),
      )

  run_manager-HasRun :
      (mgr : e.Manager) (w : W) {after : W}
      → run_manager p e mgr w ≡ (returned, after)
      → HasRun mgr w after
  unfolding run_manager end_main
  run_manager-HasRun mgr w {after} h =
      let (_, v, set, h1) = or_exit-returned _ _ w h in
      let (b, at, ready) = set_up-IsReady mgr w set in
      let (_, v2, healthz, h2) = or_exit-returned _ _ v h1 in
      let (_, v3, readyz, h3) = or_exit-returned _ _ v2 h2 in
      let (_, v4, started, h4) = or_exit-returned _ _ v3 h3 in
      let over : v4 ≡ after = ap (λ r. r.1) h4 in
      record {
        up = b;
        ready = ready;
        alive = v2;
        healthz = rw (at) healthz;
        probed = v3;
        readyz = readyz;
        started = rw (over) at started;
      }

  with_parsed-returned :
      (scheme : e.Scheme) (r : ℕ ⊎ Flags) (w : W) {after : W}
      → with_parsed p e scheme r w ≡ (returned, after)
      → (flags : Flags) × (r ≡ inr flags) × (with_flags p e scheme flags w ≡ (returned, after))
  with_parsed-returned scheme (inl status) w h = cc
  with_parsed-returned scheme (inr flags) w h = (flags, refl, h)

  main-returned :
      (scheme : e.Scheme) (w : W) {after : W}
      → main p e scheme w ≡ (returned, after)
      → (flags : Flags) × (v : W) × (e.parse default_flags w ≡ (inr flags, v))
        × (with_flags p e scheme flags v ≡ (returned, after))
  unfolding main
  main-returned scheme w h =
      let r = e.parse default_flags w in
      let (flags, given, h') = with_parsed-returned scheme r.0 r.1 h in
      (flags, r.1, (λ i. (given i, r.1)), h')

  -- The process returns from main only when it has served: both APIs are in its scheme, the flags
  -- were read over their defaults, the manager was made from them with HTTP/2 off at the metrics
  -- and the webhook server unless the flag enables it, the Reconciler reached the cluster, found
  -- its config map and was taken by that manager, both probes were added, and only then was the
  -- manager started, which ended without an error.
  pub run_process-HasServed :
      (w after : W) → run_process p e w ≡ (returned, after) → HasServed w after
  unfolding run_process main with_flags manager_options
  run_process-HasServed w after h =
      let (core, core_added, h1) = must_add-returned _ _ w h in
      let (scheme, workflows_added, h2) = must_add-returned _ _ w h1 in
      let (flags, v, given, h3) = main-returned scheme w h2 in
      let (config, v1, cluster, h4) = or_exit-returned _ _ v h3 in
      let (mgr, v2, made, h5) = or_exit-returned _ _ v1 h4 in
      record {
        core = core;
        core_added = core_added;
        scheme = scheme;
        workflows_added = workflows_added;
        flags = flags;
        parsed = v;
        given = given;
        config = config;
        reached = v1;
        cluster = cluster;
        options = tls_opts flags;
        http2 = tls_opts-LimitsHttp2 flags;
        mgr = mgr;
        managed = v2;
        made = made;
        run = run_manager-HasRun mgr v2 h5;
      }
