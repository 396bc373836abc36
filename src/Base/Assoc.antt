-- ===== src/Base/Assoc.antt =====
-- Go maps with numbers for keys, as association lists with each key once.
use Prim.Native.Nat.{ℕ}
use mathlib.Core.Path.{◌≡◌}
use mathlib.Core.Option.{Option, none, some}
use mathlib.Core.List.{List, [], ◌∷◌}
use mathlib.Core.Logic.{◌⊎◌, inl, inr}
use native.Mathlib.Omega.{arith}
use kitchen_ops.Base.Tests.{if◌then◌else◌, ◌==◌, Bool-cases}
use kitchen_ops.Base.Lists.{All}

module _ {ℓ} {A : Type ℓ} where
  abbrev pub lookup : ℕ → List (ℕ × A) → Option A
  lookup k [] = none
  lookup k (p ∷ m) = let rest = lookup k m in if p.0 == k then some p.1 else rest

  -- m[k] = a
  abbrev pub insert : ℕ → A → List (ℕ × A) → List (ℕ × A)
  insert k a [] = (k, a) ∷ []
  insert k a (p ∷ m) = let rest = insert k a m in if p.0 == k then (k, a) ∷ m else p ∷ rest

  pub All-insert {κ} :
      (P : ℕ × A → Type κ) (k : ℕ) (a : A) (m : List (ℕ × A))
      → P (k, a)
      → All P m
      → All P (insert k a m)
  All-insert P k a [] h hs = (h, tt)
  All-insert P k a (p ∷ m) h hs = elim (Bool-cases (p.0 == k)) [
    | inl same ↦ rw same (h, hs.1)
    | inr other ↦ rw other (hs.0, All-insert P k a m h hs.1)
  ]

  lookup-cons :
      (k : ℕ) (p : ℕ × A) (m : List (ℕ × A)) (a : A)
      → lookup k (p ∷ m) ≡ some a
      → ((p.0 ≡ k) × (p.1 ≡ a)) ⊎ (lookup k m ≡ some a)
  lookup-cons k p m a e = elim (Bool-cases (p.0 == k)) [
    | inl same ↦ inl (ground arith)
    | inr other ↦ inr (ground arith)
  ]

  pub All-lookup {κ} :
      (P : ℕ → A → Type κ) (k : ℕ) (a : A) (m : List (ℕ × A))
      → All (λ p. P p.0 p.1) m
      → lookup k m ≡ some a
      → P k a
  All-lookup P k a (p ∷ m) hs e = elim (lookup-cons k p m a e) [
    | inl (same, here) ↦ rw (← same, ← here) hs.0
    | inr later ↦ All-lookup P k a m hs.1 later
  ]
  All-lookup P k a [] hs e = ground arith
