-- ===== src/Prelude/Numbers.antt =====
-- Products and lengths over the native numbers.
use mathlib.Core.Path.{◌≡◌}
use mathlib.Core.List.{List, [], ◌∷◌}
use Prim.Native.Nat.{ℕ, zero, suc, ◌+◌, ◌*◌}
use Prim.Native.Nat.mul

pub suc-mul : (n k : ℕ) → suc n * k ≡ k + n * k
suc-mul n k = Prim.Native.Nat.mul.suc n k

abbrev pub length {ℓ} : {A : Type ℓ} → List A → ℕ
length [] = zero
length (x ∷ xs) = suc (length xs)
