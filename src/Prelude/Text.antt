-- ===== src/Prelude/Text.antt =====
-- The functions of Go's package strings that the source calls.
pub mod Laws
use Prim.Native.Nat.{ℕ, ◌+◌, compare, Ordering}
use Prim.Native.Char.{code}
use Prim.Native.String.{String, slice, len}
use mathlib.Core.Bool.{Bool, true, false, ◌&&◌}
use mathlib.Core.List.{List, [], ◌∷◌}
use mathlib.Core.Option.{none, some}
use text.Mathlib.Text.{starts_with, find?}
use argo_supply_chain_securi.Prelude.Cases.{if◌then◌else◌}

-- strings.HasPrefix(s, prefix)
unfoldable pub has_prefix : String → String → Bool
has_prefix s prefix = starts_with s prefix

-- strings.TrimPrefix(s, prefix), with Go's body: s[len(prefix):] behind the test.
unfoldable pub trim_prefix : String → String → String
unfolding has_prefix
trim_prefix s prefix = if has_prefix s prefix then slice s (len prefix) (len s) else s

abbrev leb : ℕ → ℕ → Bool
leb a b = elim (compare a b) [ Ordering.gt ↦ false | _ ↦ true ]

abbrev eqb : ℕ → ℕ → Bool
eqb a b = elim (compare a b) [ Ordering.eq ↦ true | _ ↦ false ]

lower : ℕ → ℕ
lower c = if leb b'A' c && leb c b'Z' then c + 32 else c

-- strings.ToLower(s) as code points. Only the letters of ASCII are lowered: no other character
-- is lowered to one of the letters that the source compares with.
unfoldable pub to_lower : String → List ℕ
unfolding lower
to_lower String.[] = []
to_lower (String.◌∷◌ c s) = lower (code c) ∷ to_lower s

codes : String → List ℕ
codes String.[] = []
codes (String.◌∷◌ c s) = code c ∷ codes s

same_codes : List ℕ → List ℕ → Bool
same_codes [] [] = true
same_codes (a ∷ l) (b ∷ m) = eqb a b && same_codes l m
same_codes _ _ = false

-- strings.ToLower(s) == t
unfoldable pub lower_equals : String → String → Bool
unfolding to_lower same_codes codes
lower_equals s t = same_codes (to_lower s) (codes t)

-- strings.Contains(s, substr)
unfoldable pub contains : String → String → Bool
contains s substr = elim (find? s substr) [ none ↦ false | some i ↦ true ]
