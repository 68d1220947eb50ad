-- ===== src/Go.antt =====
-- Go's conventions: errors as values, panics, and functions that change the world.
pub mod Results
pub mod Binds
pub mod Costs
use argo_supply_chain_securi.Prelude.{
  String, ◌<>◌, Bool, true, false, Option, none, some, ◌⊎◌, inl, inr,
}

-- The reason of an API status error, as far as the source asks for it.
pub data Reason : Type 0 where
  conflict not_found unspecified : Reason

-- `wrapped` is fmt.Errorf("text%w", err).
pub data Error : Type 0 where
  api : Reason → String → Error
  plain : String → Error
  wrapped : String → Error → Error

-- err.Error()
unfoldable pub message : Error → String
message (api r text) = text
message (plain text) = text
message (wrapped text e) = text <> message e

abbrev conflicts : Reason → Bool
conflicts conflict = true
conflicts _ = false

abbrev misses : Reason → Bool
misses not_found = true
misses _ = false

-- apierrors.IsConflict, which looks through wrapped errors
unfoldable pub is_conflict : Error → Bool
is_conflict (api r text) = conflicts r
is_conflict (plain text) = false
is_conflict (wrapped text e) = is_conflict e

-- apierrors.IsNotFound
unfoldable pub is_not_found : Error → Bool
is_not_found (api r text) = misses r
is_not_found (plain text) = false
is_not_found (wrapped text e) = is_not_found e

-- A call returns a value, returns an error, or panics.
pub data Outcome {ℓ} (A : Type ℓ) : Type ℓ where
  ok : A → Outcome A
  err : Error → Outcome A
  panic : Outcome A

abbrev pub from_error {ℓ} : {A : Type ℓ} → Option Error → A → Outcome A
from_error none a = ok a
from_error (some e) a = err e

-- A call that reads and changes a state of type S.
abbrev pub Go {ℓ} : Type ℓ → Type ℓ → Type ℓ
Go S A = S → Outcome A × S

module _ {ℓ} {S A B : Type ℓ} where
  abbrev continue : Outcome A → (A → Go S B) → Go S B
  continue (ok a) f s = f a s
  continue (err e) f s = (err e, s)
  continue panic f s = (panic, s)

  infixl 5 ◌>>=◌ ◌>>◌
  unfoldable pub ◌>>=◌ : Go S A → (A → Go S B) → Go S B
  ◌>>=◌ m f s = let (r, s') = m s in continue r f s'

  abbrev pub ◌>>◌ : Go S A → Go S B → Go S B
  m >> n = m >>= λ _. n

module _ {ℓ} {S A : Type ℓ} where
  abbrev pub pure : A → Go S A
  pure a s = (ok a, s)

  abbrev pub throw : Error → Go S A
  throw e s = (err e, s)

  abbrev caught : Outcome A → (Error → Go S A) → Go S A
  caught (ok a) f s = (ok a, s)
  caught (err e) f s = f e s
  caught panic f s = (panic, s)

  -- `if err != nil { … }` that does not return the error. A panic goes on.
  unfoldable pub catch : Go S A → (Error → Go S A) → Go S A
  catch m f s = let (r, s') = m s in caught r f s'

  -- fmt.Errorf("text%w", err) around a call
  unfoldable pub wrap : String → Go S A → Go S A
  unfolding catch
  wrap text m = catch m (λ e. throw (wrapped text e))

module _ {ℓ} {S A : Type ℓ} where
  -- a call that returns (value, error) and changes nothing
  unfoldable pub from_result : Error ⊎ A → Go S A
  from_result (inl e) s = (err e, s)
  from_result (inr a) s = (ok a, s)

  -- `defer f()`: f runs at every end of the rest of the function.
  unfoldable pub deferred : (S → S) → Go S A → Go S A
  deferred f m s = let (r, s') = m s in (r, f s')
