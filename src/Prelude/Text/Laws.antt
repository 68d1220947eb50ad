-- ===== src/Prelude/Text/Laws.antt =====
-- Laws of the functions of Go's package strings.
use Prim.Native.Nat.{◌+◌}
use Prim.Native.String.{String, ◌++◌, count}
use mathlib.Core.Path.{◌≡◌, ap}
use mathlib.Core.Logic.{◌≢◌, inl, inr}
use mathlib.Core.Bool.{true, false}
use native.Mathlib.Omega.{arith}
use text.Mathlib.TextEquality.{starts_with_iff}
use text.Mathlib.TextLemmas.{length-append, length-eq-zero_iff}
use text.Mathlib.TextPositions.{starts_with-append, slice-append_right, len-append}
use argo_supply_chain_securi.Prelude.Cases.{Bool-cases}
use argo_supply_chain_securi.Prelude.Text.{has_prefix, trim_prefix}

-- The prefix goes if it is there.
pub trim_prefix-append : (p s : String) → trim_prefix (p ++ s) p ≡ s
unfolding trim_prefix
trim_prefix-append p s = rw (starts_with-append p s, len-append p s) (slice-append_right p s)

pub has_prefix-append : (p s : String) → has_prefix (p ++ s) p ≡ true
unfolding has_prefix
has_prefix-append p s = starts_with-append p s

-- A text is no prefix of one that it properly extends.
pub has_prefix-append_false : (p s : String) → s ≢ "" → has_prefix p (p ++ s) ≡ false
unfolding has_prefix
has_prefix-append_false p s h = elim (Bool-cases (has_prefix p (p ++ s))) [
  | inl yes' ↦
      let (r, e) = (starts_with_iff p (p ++ s)).0 yes' in
      let counts : count p + count s + count r ≡ count p =
        rw (← length-append p s, ← length-append (p ++ s) r) (ap count e) in
      absurd (h (length-eq-zero_iff.0 (omega (arith, counts))))
  | inr no' ↦ no'
]

-- What has the prefix is the prefix with something behind it.
pub has_prefix-split : (s p : String) → has_prefix s p ≡ true → (rest : String) × (p ++ rest ≡ s)
unfolding has_prefix
has_prefix-split s p h = (starts_with_iff s p).0 h
