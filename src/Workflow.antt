-- ===== src/Workflow.antt =====
-- The parts of Argo's Workflow object that the source reads. The types are those of
-- argo-workflows; what it computes from them is a parameter where it is used.
use argo_supply_chain_securi.Prelude.{ℕ, String, Option, List}
use argo_supply_chain_securi.Kube.{ObjectMeta, Accessor}

pub data NodePhase : Type 0 where
  pending running succeeded skipped failed error omitted : NodePhase
  unknown_phase : String → NodePhase

pub record Parameter : Type 0 where
  pub name : String
  pub value : Option String

-- `manifest` stands for the fields that are only serialised.
pub record Artifact : Type 0 where
  pub name : String
  pub manifest : String

pub record Outputs : Type 0 where
  pub parameters : List Parameter
  pub artifacts : List Artifact

pub record NodeStatus : Type 0 where
  pub id : String
  pub display_name : String
  pub node_type : String
  pub template_name : String
  pub phase : NodePhase
  pub outputs : Option Outputs

pub record Spec : Type 0 where
  pub parameters : List Parameter
  pub manifest : String

-- `nodes` are the values of the map Status.Nodes in the order in which a `range` meets them.
-- The zero time is `none`.
pub record Workflow : Type 0 where
  pub meta : ObjectMeta
  pub uid : String
  pub spec : Spec
  pub nodes : List NodeStatus
  pub started_at : Option ℕ
  pub finished_at : Option ℕ
  pub outputs : Option Outputs

abbrev pub workflow_labels : Accessor Workflow
workflow_labels = record {
  read = λ w. w.meta.labels;
  write = λ w m. record w { meta = record w.meta { labels = m } };
}
