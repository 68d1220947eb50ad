-- ===== src/WorkflowStatus/Subjects.antt =====
-- internal/workflow-pod-reconciler/workflow_pod_reconciler.go: the subjects of the provenance.
use argo_supply_chain_securi.Prelude.{
  String, ◌<>◌, ◌≡◌, ◌↔◌, refl, sym, ap, arith, Bool, true, some, inl, inr, List, [], ◌∷◌, ◌&&◌,
  Bool-cases, if◌then◌else◌,
}
use argo_supply_chain_securi.Prelude.Lists.{Any, map_sum}
use argo_supply_chain_securi.Prelude.Text.{trim_prefix}
use argo_supply_chain_securi.Oci.{check_oci, Reference}
use argo_supply_chain_securi.Oci.Laws.{check_oci-digest, check_oci-is_oci}
use argo_supply_chain_securi.Services.{Services, Subject}
use argo_supply_chain_securi.Pod.{PodStatus}
use argo_supply_chain_securi.WorkflowStatus.{subjects_of, subject_of}

tests : (a b c : Bool) → (a && b && c) ≡ true → (a ≡ true) × (b ≡ true) × (c ≡ true)
tests a b c h = ground arith

module _ {W K : Type 0} (svc : Services W K) (s : Subject) where
  -- The pod has a signed artifact, and the subject is its image: registry and repository, and the
  -- digest without its algorithm.
  pub record IsImageOf (p : PodStatus) : Type 0 where
    pub found : p.artifacts_found ≡ true
    pub signed : p.signed ≡ true
    pub image : Reference
    pub parsed : svc.parse_reference p.artifact_info ≡ inr image
    pub hex : String
    pub digest : image.digest ≡ some hex
    pub named : s.name ≡ image.registry_str <> "/" <> image.repository_str
    pub trimmed : s.sha256 ≡ trim_prefix hex "sha256:"

  abbrev is_kept : PodStatus → Bool
  is_kept p =
      p.artifacts_found && p.signed && (check_oci svc.parse_reference p.artifact_info).is_oci

  image-kept :
      (p : PodStatus)
      → IsImageOf p
      → (is_kept p ≡ true) × (subject_of (check_oci svc.parse_reference p.artifact_info) ≡ s)
  image-kept p h =
      let e = check_oci-digest svc.parse_reference p.artifact_info h.parsed h.digest in
      (rw (h.found, h.signed, e), rw e (ground (arith, h.named, h.trimmed)))

  kept-image :
      (p : PodStatus)
      → is_kept p ≡ true
      → subject_of (check_oci svc.parse_reference p.artifact_info) ≡ s
      → IsImageOf p
  kept-image p k e =
      let (found, signed, oci) = tests p.artifacts_found p.signed _ k in
      let (r, d, parsed, dig) = check_oci-is_oci svc.parse_reference p.artifact_info oci in
      let e' = rw (check_oci-digest svc.parse_reference p.artifact_info parsed dig) at e in
      record {
        found = found;
        signed = signed;
        image = r;
        parsed = parsed;
        hex = d;
        digest = dig;
        named = sym (ap (λ (t : Subject). t.name) e');
        trimmed = sym (ap (λ (t : Subject). t.sha256) e');
      }

  subjects_of-cons :
      (p : PodStatus) (ps : List PodStatus)
      → subjects_of svc (p ∷ ps) ≡ (
          if is_kept p
          then subject_of (check_oci svc.parse_reference p.artifact_info) ∷ subjects_of svc ps
          else subjects_of svc ps)
  unfolding subjects_of
  subjects_of-cons p ps = refl

  -- The subjects are the images of the pods with a signed artifact, and no others.
  pub subjects_of-IsImageOf :
      (ps : List PodStatus) → Any (λ t. t ≡ s) (subjects_of svc ps) ↔ Any IsImageOf ps
  subjects_of-IsImageOf [] = unfold subjects_of in (λ h. h, λ h. h)
  subjects_of-IsImageOf (p ∷ ps) = elim (Bool-cases (is_kept p)) [
    | inl kept ↦
        rw (subjects_of-cons p ps, kept)
          (
            λ h. map_sum (kept-image p kept) (subjects_of-IsImageOf ps).0 h,
            λ h. map_sum (λ i. (image-kept p i).1) (subjects_of-IsImageOf ps).1 h,
          )
    | inr gone ↦
        rw (subjects_of-cons p ps, gone)
          (
            λ h. inr ((subjects_of-IsImageOf ps).0 h),
            λ h. elim h [
              | inl i ↦ absurd (cc ((image-kept p i).0))
              | inr there ↦ (subjects_of-IsImageOf ps).1 there
            ],
          )
  ]
