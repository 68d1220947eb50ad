-- ===== src/Sbom/Laws.antt =====
-- pkg/sbom/oci/oci.go: the loop over the platforms of an image.
use argo_supply_chain_securi.Prelude.{◌≡◌, ◌≢◌, ◌↔◌, refl, arith, Bool, true, false, List, [], ◌∷◌}
use argo_supply_chain_securi.Go.{ok, panic, Go}
use argo_supply_chain_securi.Sbom.{attach_children}

module _ {W D : Type 0} (attach : D → Go W (Unit {0})) where
  -- Each platform in turn, from the world that the one before left, succeeds.
  abbrev pub AllSucceed : List D → W → Type 0
  AllSucceed [] w = Unit
  AllSucceed (d ∷ ds) w = ((attach d w).0 ≡ ok tt) × AllSucceed ds (attach d w).1

  -- The world after every platform has been tried once.
  abbrev pub all_tried : List D → W → W
  all_tried [] w = w
  all_tried (d ∷ ds) w = all_tried ds (attach d w).1

  -- No platform makes the call panic.
  abbrev pub NonePanics : List D → W → Type 0
  NonePanics [] w = Unit
  NonePanics (d ∷ ds) w = ((attach d w).0 ≢ panic) × NonePanics ds (attach d w).1

  stays_failed : (ds : List D) (w : W) → (attach_children attach ds true w).0 ≢ ok false
  unfolding attach_children
  stays_failed [] w h = cc
  stays_failed (d ∷ ds) w h = ground (arith, stays_failed ds (attach d w).1)

  -- The loop reports no failure exactly if every platform got its SBOM.
  pub attach_children-AllSucceed :
      (ds : List D) (w : W) → ((attach_children attach ds false w).0 ≡ ok false) ↔ AllSucceed ds w
  unfolding attach_children
  attach_children-AllSucceed [] w = (λ _. tt, λ _. refl)
  attach_children-AllSucceed (d ∷ ds) w =
      ground (arith, attach_children-AllSucceed ds (attach d w).1, stays_failed ds (attach d w).1)

  -- Unless the call panics at some platform, a failure at one keeps none of the others from being
  -- tried: the loop leaves the world that all platforms, tried once each, have left.
  pub attach_children-all_tried :
      (ds : List D) (failed : Bool) (w : W)
      → NonePanics ds w
      → (attach_children attach ds failed w).1 ≡ all_tried ds w
  unfolding attach_children
  attach_children-all_tried [] failed w h = refl
  attach_children-all_tried (d ∷ ds) failed w h = ground (
    arith,
    attach_children-all_tried ds failed (attach d w).1,
    attach_children-all_tried ds true (attach d w).1,
  )
