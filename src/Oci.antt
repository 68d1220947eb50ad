-- ===== src/Oci.antt =====
-- References to images, as go-containerregistry parses them: the parser is a parameter.
pub mod Laws
use argo_supply_chain_securi.Prelude.{
  String, ◌<>◌, Bool, true, false, Option, none, some, ◌⊎◌, inl, inr,
}
use argo_supply_chain_securi.Go.{Error}

-- name.Reference; one with a digest is a name.Digest.
pub record Reference : Type 0 where
  pub registry_str : String
  pub repository_str : String
  pub digest : Option String

-- What checkOCI returns: ok, ociRef, ociDigest.
pub record Checked : Type 0 where
  pub is_oci : Bool
  pub ref : String
  pub digest : String

abbrev rejected : Checked
rejected = record { is_oci = false; ref = ""; digest = "" }

with_digest : Reference → Option String → Checked
with_digest r none = rejected
with_digest r (some d) = record {
  is_oci = true;
  ref = r.registry_str <> "/" <> r.repository_str;
  digest = d;
}

-- internal/workflow-pod-reconciler/pod_status.go: checkOCI
unfoldable pub check_oci : (String → Error ⊎ Reference) → String → Checked
unfolding with_digest
check_oci parse_reference oci = elim (parse_reference oci) [
  | inl e ↦ rejected
  | inr r ↦ with_digest r r.digest
]
