-- ===== src/Config/Laws.antt =====
-- pkg/config/config.go: what the switches of the config map mean.
use argo_supply_chain_securi.Prelude.{String, ◌≡◌, ◌↔◌, refl, true, Option, none, some}
use argo_supply_chain_securi.Prelude.Dict
use argo_supply_chain_securi.Prelude.Dict.{Dict}
use argo_supply_chain_securi.Prelude.Text.{lower_equals}
use argo_supply_chain_securi.Config.{new, enabled, transparency_key, sbom_generation_key}

-- The key stands in the config map with a spelling of "true".
abbrev pub IsOn : String → Dict String → Type 0
IsOn k m = (v : String) × (Dict.lookup k m ≡ some v) × (lower_equals v "true" ≡ true)

enabled_iff : (k : String) (m : Dict String) → (enabled (Dict.lookup k m) ≡ true) ↔ IsOn k m
unfolding enabled
enabled_iff k m = (λ h. by_value (Dict.lookup k m) refl h, λ (v, e, h). rw e h)
  where
    by_value :
        (o : Option String)
        → Dict.lookup k m ≡ o
        → enabled o ≡ true
        → (v : String) × (Dict.lookup k m ≡ some v) × (lower_equals v "true" ≡ true)
    by_value none e h = cc
    by_value (some v) e h = (v, e, h)

-- The transparency log and the SBOM are on exactly if their keys are there and say true, in any
-- case of letters.
pub new_switches :
    (K : Type 0) (rekor_url : String) (m : Dict String)
    → (((new {K = K} rekor_url m).transparency ≡ true) ↔ IsOn transparency_key m)
      × (((new {K = K} rekor_url m).sbom_generation ≡ true) ↔ IsOn sbom_generation_key m)
unfolding new
new_switches K rekor_url m = (enabled_iff transparency_key m, enabled_iff sbom_generation_key m)
