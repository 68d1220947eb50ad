-- ===== src/Tests/World.antt =====
-- The cluster in memory: its pods, its workflows and what was signed.
use argo_supply_chain_securi.Prelude.{
  ℕ, zero, suc, ◌≡◌, refl, arith, String, Bool, true, Option, none, some, List, [], ◌∷◌, ◌==◌, ◌&&◌,
  inl, inr, if◌then◌else◌, Bool-cases, eq_iff,
}
use argo_supply_chain_securi.Go.{Error, api, not_found}
use argo_supply_chain_securi.Kube.{NamespacedName, ObjectMeta, key_of, Reply, Pod}
use argo_supply_chain_securi.Workflow.{Workflow}

pub record World : Type 0 where
  pub pods : List Pod
  pub workflows : List Workflow
  pub signed : List String

abbrev pub same : NamespacedName → NamespacedName → Bool
same a b = (a.namespace == b.namespace) && (a.name == b.name)

pub same-eq : (a b : NamespacedName) → same a b ≡ true → a ≡ b
same-eq a b h = ground (arith, eq_iff a.namespace b.namespace, eq_iff a.name b.name)

pub same_refl : (a : NamespacedName) → same a a ≡ true
same_refl a = ground (arith, eq_iff a.namespace a.namespace, eq_iff a.name a.name)

abbrev pub missing : Error
missing = api not_found "not found"

module _ {O : Type 0} (meta : O → ObjectMeta) where
  abbrev pub seek : List O → NamespacedName → Option O
  seek [] k = none
  seek (o ∷ os) k = let rest = seek os k in if same (key_of (meta o)) k then some o else rest

  pub seek-key :
      (os : List O) (k : NamespacedName) {o : O} → seek os k ≡ some o → key_of (meta o) ≡ k
  seek-key [] k h = cc
  seek-key (x ∷ os) k {o} h = elim (Bool-cases (same (key_of (meta x)) k)) [
    | inl here ↦ ground (arith, same-eq (key_of (meta x)) k here, h, here)
    | inr there ↦ seek-key os k (rw there at h)
  ]

  pub seek_self : (o : O) (os : List O) → seek (o ∷ os) (key_of (meta o)) ≡ some o
  seek_self o os = rw (same_refl (key_of (meta o))) refl

abbrev pub tried :
    {O : Type 0} → ℕ → (Error → Bool) → (O → World → Reply World O) → O → World → Reply World O
tried zero retriable f o w = f o w
tried (suc zero) retriable f o w = f o w
tried (suc (suc n)) retriable f o w =
    let one = f o w in
    let rest = tried (suc n) retriable f one.object one.world in
    elim one.error [ none ↦ one | some e ↦ if retriable e then rest else one ]
