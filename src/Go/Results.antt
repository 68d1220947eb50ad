-- ===== src/Go/Results.antt =====
-- Functions that return (value, error) and change nothing.
use argo_supply_chain_securi.Prelude.{◌⊎◌, inl, inr}
use argo_supply_chain_securi.Go.{Error, Outcome, ok, err}

module _ {ℓ} {A B : Type ℓ} where
  infixl 5 ◌>>=◌
  abbrev pub ◌>>=◌ : Error ⊎ A → (A → Error ⊎ B) → Error ⊎ B
  inl e >>= f = inl e
  inr a >>= f = f a

abbrev pub to_outcome {ℓ} : {A : Type ℓ} → Error ⊎ A → Outcome A
to_outcome (inl e) = err e
to_outcome (inr a) = ok a
