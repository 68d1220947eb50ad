-- ===== src/Go/Costs.antt =====
-- Calls whose cost is bounded, and the ways in which they are put together.
use argo_supply_chain_securi.Prelude.{ℕ, ◌+◌, ◌≤◌, arith, Bool, true, false, if◌then◌else◌}
use argo_supply_chain_securi.Go.{
  Outcome, ok, err, panic, Error, Go, ◌>>=◌, ◌>>◌, continue, catch, caught, pure,
}

-- The call adds at most k to what was spent.
abbrev pub Within {ℓ} : {S A : Type ℓ} → (S → ℕ) → ℕ → Go S A → Type ℓ
Within {S = S} spent k m = (s : S) → spent (m s).1 ≤ spent s + k

module _ {ℓ} {S A : Type ℓ} (spent : S → ℕ) where
  pub Within-pure : (k : ℕ) (a : A) → Within spent k (pure a)
  Within-pure k a s = omega arith

  pub if-Within :
      (k : ℕ) (b : Bool) (m n : Go S A)
      → Within spent k m
      → Within spent k n
      → Within spent k (if b then m else n)
  if-Within k true m n first second = first
  if-Within k false m n first second = second

  caught-Within :
      (k : ℕ) (f : Error → Go S A) (r : Outcome A) (s : S)
      → ((e : Error) → Within spent k (f e))
      → spent (caught r f s).1 ≤ spent s + k
  caught-Within k f (ok a) s within = omega arith
  caught-Within k f (err e) s within = within e s
  caught-Within k f panic s within = omega arith

  pub catch-Within :
      (j k : ℕ) (m : Go S A) (f : Error → Go S A)
      → Within spent j m
      → ((e : Error) → Within spent k (f e))
      → Within spent (j + k) (catch m f)
  unfolding catch
  catch-Within j k m f first second s =
      omega (arith, first s, caught-Within k f (m s).0 (m s).1 second)

module _ {ℓ} {S A B : Type ℓ} (spent : S → ℕ) where
  continue-Within :
      (k : ℕ) (f : A → Go S B) (r : Outcome A) (s : S)
      → ((a : A) → Within spent k (f a))
      → spent (continue r f s).1 ≤ spent s + k
  continue-Within k f (ok a) s within = within a s
  continue-Within k f (err e) s within = omega arith
  continue-Within k f panic s within = omega arith

  bind-Within :
      (j k : ℕ) (m : Go S A) (f : A → Go S B)
      → Within spent j m
      → ((a : A) → Within spent k (f a))
      → Within spent (j + k) (m >>= f)
  unfolding ◌>>=◌
  bind-Within j k m f first second s =
      omega (arith, first s, continue-Within k f (m s).0 (m s).1 second)

  pub then-Within :
      (j k : ℕ) (m : Go S A) (n : Go S B)
      → Within spent j m
      → Within spent k n
      → Within spent (j + k) (m >> n)
  then-Within j k m n first second = bind-Within j k m (λ _. n) first (λ _. second)
