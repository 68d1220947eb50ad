-- ===== src/Tests/Cluster.antt =====
-- A workflow with one build node, its pod, and services that sign whatever they are asked to sign.
use argo_supply_chain_securi.Prelude.{
  String, ◌⊎◌, inl, inr, true, false, Option, none, some, List, [], ◌∷◌, ◌==◌, if◌then◌else◌,
}
use argo_supply_chain_securi.Go.{Error, plain, ok, err, Go}
use argo_supply_chain_securi.Kube.{Pod, PodPhase, Metadata}
use argo_supply_chain_securi.Config.{Config}
use argo_supply_chain_securi.Oci.{Reference}
use argo_supply_chain_securi.Workflow.{Workflow, NodePhase, NodeStatus, Parameter, Outputs}
use argo_supply_chain_securi.Services.{Services}
use argo_supply_chain_securi.Pod.{PodStatus, Scene}
use argo_supply_chain_securi.Tests.World.{World}
use argo_supply_chain_securi.Tests.Client.{pods}

abbrev pub image : String
image = "registry/app@sha256:ab"

abbrev pub reference : Reference
reference = record { registry_str = "registry"; repository_str = "app"; digest = some "sha256:ab" }

abbrev pub parse : String → Error ⊎ Reference
parse text = if text == image then inr reference else inl (plain "could not parse reference")

abbrev pub parameter : String → Parameter
parameter name = record { name = name; value = some image }

abbrev pub outputs : List Parameter → Option Outputs
outputs ps = some (record { parameters = ps; artifacts = [] })

abbrev pub node : NodePhase → NodeStatus
node phase = record {
  id = "wf-1";
  display_name = "build";
  node_type = "Pod";
  template_name = "main";
  phase = phase;
  outputs = outputs (parameter "OCI" ∷ []);
}

abbrev pub pod : Metadata → Pod
pod annotations = record {
  meta = record { namespace = "ci"; name = "wf-main-1"; labels = none; annotations = annotations };
  phase = PodPhase.succeeded;
}

abbrev pub workflow : List NodeStatus → Metadata → Workflow
workflow nodes labels = record {
  meta = record { namespace = "ci"; name = "wf"; labels = labels; annotations = none };
  uid = "1";
  spec = record { parameters = parameter "branch" ∷ []; manifest = "" };
  nodes = nodes;
  started_at = some 1;
  finished_at = some 2;
  outputs = none;
}

abbrev pub built : Workflow
built = workflow (node NodePhase.succeeded ∷ []) (some (("argo.slsa.io/enable", "true") ∷ []))

abbrev pub skipped : Workflow
skipped = workflow (node NodePhase.skipped ∷ []) (some (("argo.slsa.io/enable", "true") ∷ []))

abbrev pub world : Metadata → World
world annotations = record { pods = pod annotations ∷ []; workflows = built ∷ []; signed = [] }

abbrev pub config : Config String
config = record {
  auth_key_chain = none;
  signer_type = "cosign";
  kms_url = "";
  transparency = false;
  transparency_url = "https://rekor";
  sbom_generation = false;
}

abbrev pub signs : String → Config String → Go World (Unit {0})
signs oci cfg w = (ok tt, record w { signed = oci ∷ w.signed })

abbrev pub refuses : String → Config String → Go World (Unit {0})
refuses oci cfg w = (err (plain "no key"), w)

-- The services with a signer of one's own.
abbrev pub services : (String → Config String → Go World (Unit {0})) → Services World String
services signer = record {
  pods = pods;
  parse_reference = parse;
  has_parameters = λ o. elim o [ none ↦ false | some _ ↦ true ];
  phase_text = λ p. "";
  predicate_cyclone_dx = "cyclonedx";
  predicate_slsa1 = "slsaprovenance1";
  get_value = λ p. elim p.value [ none ↦ "" | some v ↦ v ];
  sign_with_config_opts = signer;
  generate_sbom_with_config_opts = λ oci kind cfg w. (ok tt, w);
  attest_with_config_opts = λ cfg oci kind predicate w. (ok [], w);
  generate_slsa_v1_provenance = λ wf sub. (ok "{}", wf);
}

abbrev pub status : NodePhase → Option Pod → PodStatus
status phase pod' = record {
  pod_name = "wf-main-1";
  pod = pod';
  status = phase;
  node = node phase;
  artifacts_found = false;
  artifact_info = "";
  signed = false;
  sbom_attached = false;
  provenance_attached = false;
  reconciliation = false;
}

abbrev pub found : PodStatus → PodStatus
found st = record st { artifacts_found = true; artifact_info = image }

abbrev pub at : PodStatus → Metadata → Scene World
at st annotations = record { self = st; workflow = built; world = world annotations }
