-- ===== src/Go/Binds.antt =====
-- Inversion of the ways in which calls are put together.
use argo_supply_chain_securi.Prelude.{◌≡◌, refl, sym, arith, ap, String, ◌⊎◌, inl, inr}
use argo_supply_chain_securi.Go.{
  Outcome, ok, err, panic, Error, Go, ◌>>=◌, continue, catch, caught, wrap, from_result, deferred,
  throw, wrapped, pure,
}

module _ {ℓ} {S A B : Type ℓ} where
  continue-ok :
      (r : Outcome A) (f : A → Go S B) (s : S) {b : B} {t : S}
      → continue r f s ≡ (ok b, t)
      → (a : A) × (r ≡ ok a) × (f a s ≡ (ok b, t))
  continue-ok (ok a) f s h = (a, refl, h)
  continue-ok (err e) f s h = cc
  continue-ok panic f s h = cc

  -- A sequence that succeeds has succeeded in both parts.
  pub bind-ok :
      (m : Go S A) (f : A → Go S B) (s : S) {b : B} {t : S}
      → (m >>= f) s ≡ (ok b, t)
      → (a : A) × ((m s).0 ≡ ok a) × (f a (m s).1 ≡ (ok b, t))
  unfolding ◌>>=◌
  bind-ok m f s h = continue-ok (m s).0 f (m s).1 h

module _ {ℓ} {S A : Type ℓ} where
  wrap_caught-ok :
      (text : String) (r : Outcome A) (s : S) {a : A} {t : S}
      → caught r (λ e. throw (wrapped text e)) s ≡ (ok a, t)
      → (r ≡ ok a) × (s ≡ t)
  wrap_caught-ok text (ok x) s h = (ap (λ p. p.0) h, ap (λ p. p.1) h)
  wrap_caught-ok text (err e) s h = cc
  wrap_caught-ok text panic s h = cc

  -- A wrapped call that succeeds is the call.
  pub wrap-ok :
      (text : String) (m : Go S A) (s : S) {a : A} {t : S}
      → wrap text m s ≡ (ok a, t)
      → m s ≡ (ok a, t)
  unfolding wrap catch
  wrap-ok text m s h = let (r, u) = wrap_caught-ok text (m s).0 (m s).1 h in ground (arith, r, u)

  pub from_result-ok : (r : Error ⊎ A) (s : S) {a : A} → (from_result r s).0 ≡ ok a → r ≡ inr a
  unfolding from_result
  from_result-ok (inl e) s h = cc
  from_result-ok (inr x) s h = ground arith

  -- The value of a wrapped call that succeeds is the call's.
  pub wrap-value :
      (text : String) (m : Go S A) (s : S) {a : A} → (wrap text m s).0 ≡ ok a → (m s).0 ≡ ok a
  unfolding wrap catch
  wrap-value text m s h = ground arith

  pub pair-ok : (r : Outcome A × S) {a : A} → r.0 ≡ ok a → r ≡ (ok a, r.1)
  pair-ok r h = λ i. (h i, r.1)

  pub world-from_result : (r : Error ⊎ A) (s : S) → (from_result r s).1 ≡ s
  unfolding from_result
  world-from_result (inl e) s = refl
  world-from_result (inr x) s = refl

  -- A function that defers f and succeeds has run f on what its body left.
  pub deferred-ok :
      (f : S → S) (m : Go S A) (s : S) {a : A} {t : S}
      → deferred f m s ≡ (ok a, t)
      → (m s ≡ (ok a, (m s).1)) × (t ≡ f (m s).1)
  unfolding deferred
  deferred-ok f m s h = (pair-ok (m s) (ap (λ r. r.0) h), sym (ap (λ r. r.1) h))

pub ok-injective {ℓ} : {A : Type ℓ} {a b : A} → ok a ≡ ok b → a ≡ b
ok-injective h = ground (arith, h)

module _ {ℓ} {S A : Type ℓ} where
  caught-pure : (r : Outcome A) (a : A) (s : S) → (caught r (λ e. pure a) s).1 ≡ s
  caught-pure (ok x) a s = refl
  caught-pure (err e) a s = refl
  caught-pure panic a s = refl

  -- To go on after an error changes nothing.
  pub state-catch : (m : Go S A) (a : A) (s : S) → (catch m (λ e. pure a) s).1 ≡ (m s).1
  unfolding catch
  state-catch m a s = caught-pure (m s).0 a (m s).1

module _ {ℓ} {S A : Type ℓ} where
  -- What succeeds is not caught.
  pub catch-ok :
      (m : Go S A) (f : Error → Go S A) (s : S) {a : A} → (m s).0 ≡ ok a → catch m f s ≡ m s
  unfolding catch
  catch-ok m f s h = ground (arith, h)

  -- An error that is only logged leaves the state of the call.
  pub catch-err :
      (m : Go S A) (a : A) (s : S) {e : Error}
      → (m s).0 ≡ err e
      → catch m (λ x. pure a) s ≡ (ok a, (m s).1)
  unfolding catch
  catch-err m a s h = ground (arith, h)

  caught-err :
      (r : Outcome A) (a : A) (s : S) (e : Error) → (caught r (λ x. pure a) s).0 ≡ err e → ⊥
  caught-err (ok x) a s e h = cc
  caught-err (err x) a s e h = cc
  caught-err panic a s e h = cc

  -- An error that is only logged does not come through.
  pub catch-not_err :
      (m : Go S A) (a : A) (s : S) (e : Error) → (catch m (λ x. pure a) s).0 ≡ err e → ⊥
  unfolding catch
  catch-not_err m a s e = caught-err (m s).0 a (m s).1 e
