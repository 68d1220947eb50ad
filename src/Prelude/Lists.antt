-- ===== src/Prelude/Lists.antt =====
-- Predicates on lists, by recursion.
use mathlib.Core.Logic.{◌⊎◌, inl, inr}
use mathlib.Core.List.{List, [], ◌∷◌, ◌++◌}

abbrev pub All {ℓ κ} : {A : Type ℓ} → (A → Type κ) → List A → Type κ
All P [] = Unit
All P (head ∷ tail) = P head × All P tail

pub All-append {ℓ κ} :
    {A : Type ℓ} (P : A → Type κ) (front back : List A)
    → All P front
    → All P back
    → All P (front ++ back)
All-append P [] back _ rest = rest
All-append P (head ∷ tail) back (first, more) rest = (first, All-append P tail back more rest)

pub All-Unit {ℓ} : {A : Type ℓ} (xs : List A) → All (λ x. Unit {0}) xs
All-Unit [] = tt
All-Unit (x ∷ xs) = (tt, All-Unit xs)

pub All-map {ℓ κ} :
    {A : Type ℓ} (P Q : A → Type κ) → ((x : A) → P x → Q x) → (xs : List A) → All P xs → All Q xs
All-map P Q f [] all = tt
All-map P Q f (head ∷ tail) (first, more) = (f head first, All-map P Q f tail more)

pub All-split {ℓ κ} :
    {A : Type ℓ} (P : A → Type κ) (front back : List A)
    → All P (front ++ back)
    → All P front × All P back
All-split P [] back all = (tt, all)
All-split P (head ∷ tail) back (first, more) =
    let (rest, last) = All-split P tail back more in ((first, rest), last)

abbrev pub Any {ℓ} : {A : Type ℓ} → (A → Type 0) → List A → Type 0
Any P [] = ⊥
Any P (x ∷ xs) = P x ⊎ Any P xs

pub not-All-of-Any {ℓ} :
    {A : Type ℓ} (P Q : A → Type 0) (xs : List A)
    → ((x : A) → P x → Q x → ⊥)
    → Any P xs
    → All Q xs
    → ⊥
not-All-of-Any P Q [] clash h a = absurd h
not-All-of-Any P Q (x ∷ xs) clash (inl h) a = clash x h a.0
not-All-of-Any P Q (x ∷ xs) clash (inr h) a = not-All-of-Any P Q xs clash h a.1

pub map_sum : {A B C D : Type 0} → (A → B) → (C → D) → A ⊎ C → B ⊎ D
map_sum f g (inl a) = inl (f a)
map_sum f g (inr c) = inr (g c)

-- An implication that holds all along, and its premise all along.
pub All-apply {ℓ κ} :
    {A : Type ℓ} (P Q : A → Type κ) (xs : List A) → All (λ x. P x → Q x) xs → All P xs → All Q xs
All-apply P Q [] f h = tt
All-apply P Q (x ∷ xs) (f, fs) (h, hs) = (f h, All-apply P Q xs fs hs)
