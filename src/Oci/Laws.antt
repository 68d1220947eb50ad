-- ===== src/Oci/Laws.antt =====
-- internal/workflow-pod-reconciler/pod_status.go: the two ends of checkOCI.
use argo_supply_chain_securi.Prelude.{String, ◌<>◌, ◌≡◌, arith, true, some, ◌⊎◌, inr}
use argo_supply_chain_securi.Go.{Error}
use argo_supply_chain_securi.Oci.{Reference, check_oci}

pub check_oci-digest :
    (parse : String → Error ⊎ Reference) (oci : String) {r : Reference} {d : String}
    → parse oci ≡ inr r
    → r.digest ≡ some d
    → check_oci parse oci
      ≡ record { is_oci = true; ref = r.registry_str <> "/" <> r.repository_str; digest = d }
unfolding check_oci
check_oci-digest parse oci p q = ground arith

-- What it accepts is the parse of a reference with a digest.
pub check_oci-is_oci :
    (parse : String → Error ⊎ Reference) (oci : String)
    → (check_oci parse oci).is_oci ≡ true
    → (r : Reference) × (d : String) × (parse oci ≡ inr r) × (r.digest ≡ some d)
unfolding check_oci
check_oci-is_oci parse oci h = ground arith
