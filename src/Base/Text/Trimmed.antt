-- ===== src/Base/Text/Trimmed.antt =====
-- What trimming leaves.
use Prim.Native.Nat.{ℕ}
use mathlib.Core.Path.{◌≡◌, refl}
use mathlib.Core.Logic.{inl, inr}
use mathlib.Core.Bool.{false}
use mathlib.Core.List.{[], ◌∷◌}
use native.Mathlib.Omega.{arith}
use kitchen_ops.Base.Tests.{Bytes, Bool-cases}
use kitchen_ops.Base.Lists.{All}
use kitchen_ops.Base.Text.{is_space, trim_left, trim_right, trim_space, drop_space}

trim_right_idem : (text : Bytes) → trim_right (trim_right text) ≡ trim_right text
trim_right_idem [] = refl
trim_right_idem (c ∷ text) = again c (trim_right text) (trim_right_idem text)
  where
    again :
        (d : ℕ) (rest : Bytes)
        → trim_right rest ≡ rest
        → trim_right (drop_space d rest) ≡ drop_space d rest
    again d [] e = ground arith
    again d (x ∷ rest) e = rw (e, trim_right) refl

trim_left_right :
    (text : Bytes) → trim_left (trim_right (trim_left text)) ≡ trim_right (trim_left text)
trim_left_right [] = refl
trim_left_right (c ∷ text) = elim (Bool-cases (is_space c)) [
  | inl space ↦ rw space (trim_left_right text)
  | inr solid ↦ rw solid (kept (trim_right text) solid)
]
  where
    kept : (rest : Bytes) → is_space c ≡ false → trim_left (drop_space c rest) ≡ drop_space c rest
    kept [] h = ground arith
    kept (x ∷ rest) h = ground arith

-- Trimming twice is trimming once.
pub trim_space_idem : (text : Bytes) → trim_space (trim_space text) ≡ trim_space text
trim_space_idem text = rw (trim_left_right text) (trim_right_idem (trim_left text))

trim_right_solid : (text : Bytes) → All (λ c. is_space c ≡ false) text → trim_right text ≡ text
trim_right_solid [] h = refl
trim_right_solid (c ∷ text) h = rw (trim_right_solid text h.1) (kept text h.0)
  where
    kept : (rest : Bytes) → is_space c ≡ false → drop_space c rest ≡ c ∷ rest
    kept [] e = rw e refl
    kept (x ∷ rest) e = refl

-- A text without spaces is trimmed.
pub trim_space_solid : (text : Bytes) → All (λ c. is_space c ≡ false) text → trim_space text ≡ text
trim_space_solid [] h = refl
trim_space_solid (c ∷ text) h = rw h.0 (trim_right_solid (c ∷ text) h)
