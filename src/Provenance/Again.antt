-- ===== src/Provenance/Again.antt =====
-- pkg/provenance: the provenance of a workflow whose provenance was generated before, which has
-- taken the controller's own labels and annotations from it.
use argo_supply_chain_securi.Prelude.{
  String, ◌≡◌, ◌≢◌, refl, ap, ◌⊎◌, inl, inr, none, some, [], ◌∷◌, List, Bool-cases,
}
use argo_supply_chain_securi.Prelude.Dict.{Dict}
use argo_supply_chain_securi.Go.{Error, panic}
use argo_supply_chain_securi.Go.Results.{to_outcome}
use argo_supply_chain_securi.Kube.{Metadata, key_of}
use argo_supply_chain_securi.Workflow.{Workflow}
use argo_supply_chain_securi.Services.{Subject}
use argo_supply_chain_securi.Provenance.Params.{
  is_argo_slsa, delete_argo_slsa, remove_argo_slsa_info, without_argo_slsa_info,
  get_internal_params, get_external_params,
}
use argo_supply_chain_securi.Provenance.Details.{
  Protobuf, RunDetails, run_details, build_definition, get_byproducts, get_metadata,
}
use argo_supply_chain_securi.Provenance.{with_details, generate_slsa_v1_provenance}

delete_argo_slsa_twice :
    (m : Dict String) → delete_argo_slsa (delete_argo_slsa m) ≡ delete_argo_slsa m
unfolding delete_argo_slsa
delete_argo_slsa_twice [] = refl
delete_argo_slsa_twice ((k, v) ∷ m) = elim (Bool-cases (is_argo_slsa k)) [
  | inl own ↦ rw own (delete_argo_slsa_twice m)
  | inr other ↦ rw (other, other, delete_argo_slsa_twice m) refl
]

remove_argo_slsa_info_twice :
    (m : Metadata) → remove_argo_slsa_info (remove_argo_slsa_info m) ≡ remove_argo_slsa_info m
unfolding remove_argo_slsa_info
remove_argo_slsa_info_twice none = refl
remove_argo_slsa_info_twice (some m) = ap some (delete_argo_slsa_twice m)

without_argo_slsa_info_twice :
    (wf : Workflow) → without_argo_slsa_info (without_argo_slsa_info wf) ≡ without_argo_slsa_info wf
unfolding without_argo_slsa_info
without_argo_slsa_info_twice wf =
    rw (remove_argo_slsa_info_twice wf.meta.labels, remove_argo_slsa_info_twice wf.meta.annotations)
      refl

module _ (pb : Protobuf) where
  build_definition-without :
      (wf : Workflow) → build_definition pb (without_argo_slsa_info wf) ≡ build_definition pb wf
  unfolding build_definition without_argo_slsa_info get_internal_params get_external_params
  build_definition-without wf =
      rw
        (
          remove_argo_slsa_info_twice wf.meta.labels,
          remove_argo_slsa_info_twice wf.meta.annotations,
        )
        refl

  run_details-without :
      (wf : Workflow) → run_details pb (without_argo_slsa_info wf) ≡ run_details pb wf
  unfolding run_details without_argo_slsa_info get_byproducts get_metadata
  run_details-without wf = refl

  generated_again :
      (wf : Workflow) (sub : List Subject) (r : Error ⊎ RunDetails pb)
      → run_details pb wf ≡ r
      → generate_slsa_v1_provenance pb (generate_slsa_v1_provenance pb wf sub).1 sub
        ≡ generate_slsa_v1_provenance pb wf sub
  unfolding generate_slsa_v1_provenance with_details
  generated_again wf sub (inl e) failed = rw (failed, failed) refl
  generated_again wf sub (inr rd) made =
      rw
        (
          made,
          run_details-without wf,
          made,
          build_definition-without wf,
          without_argo_slsa_info_twice wf,
        )
        refl

  -- To generate a provenance a second time gives the same result, and changes the workflow no
  -- further.
  pub generate_again :
      (wf : Workflow) (sub : List Subject)
      → generate_slsa_v1_provenance pb (generate_slsa_v1_provenance pb wf sub).1 sub
        ≡ generate_slsa_v1_provenance pb wf sub
  generate_again wf sub = generated_again wf sub (run_details pb wf) refl

  calm-to_outcome : (r : Error ⊎ String) → to_outcome r ≢ panic
  calm-to_outcome (inl e) h = cc
  calm-to_outcome (inr a) h = cc

  calm-with_details :
      (wf : Workflow) (sub : List Subject) (r : Error ⊎ RunDetails pb)
      → ((with_details pb wf sub r).0 ≢ panic)
        × (key_of (with_details pb wf sub r).1.meta ≡ key_of wf.meta)
  unfolding with_details without_argo_slsa_info
  calm-with_details wf sub (inl e) = (calm-to_outcome (inl e), refl)
  calm-with_details wf sub (inr rd) = (calm-to_outcome _, refl)

  -- The generator never panics, and leaves the workflow its name.
  pub calm-generate_slsa_v1_provenance :
      (wf : Workflow) (sub : List Subject)
      → ((generate_slsa_v1_provenance pb wf sub).0 ≢ panic)
        × (key_of (generate_slsa_v1_provenance pb wf sub).1.meta ≡ key_of wf.meta)
  unfolding generate_slsa_v1_provenance
  calm-generate_slsa_v1_provenance wf sub = calm-with_details wf sub (run_details pb wf)
