-- ===== src/Base/Decimal.antt =====
-- strconv.FormatUint and strconv.ParseUint of Go's standard library, at base 10 and 64 bits.
use Prim.Native.Nat.{ℕ, zero, suc, ◌+◌, ◌-◌, ◌*◌, ◌/◌, ◌%◌, ◌^◌, ◌<◌}
use mathlib.Core.Path.{◌≡◌, refl, ◌∙◌}
use mathlib.Core.Logic.{inl, inr}
use mathlib.Core.Bool.{◌&&◌}
use mathlib.Core.Option.{Option, none, some}
use mathlib.Core.List.{[], ◌∷◌}
use native.Mathlib.Omega.{arith}
use native.Mathlib.Nat.{pow-suc}
use kitchen_ops.Base.Tests.{ltb, leb, if◌then◌else◌, Bytes, Bool-cases, ltb→lt}
use kitchen_ops.Base.Lists.{All}

abbrev pub u64_mod : ℕ
u64_mod = 2 ^ 64

-- The digits before `acc`; a 64-bit word has 20 digits at most.
digits_before : ℕ → ℕ → Bytes → Bytes
digits_before zero n acc = acc
digits_before (suc fuel) n acc =
    let more = digits_before fuel (n / 10) ((48 + n % 10) ∷ acc) in
    if ltb n 10 then (48 + n) ∷ acc else more

unfoldable pub format_uint : ℕ → Bytes
unfolding digits_before
format_uint n = digits_before 20 n []

-- A byte that is no digit, and a value past 64 bits, are errors.
parse_from : ℕ → Bytes → Option ℕ
parse_from acc [] = some acc
parse_from acc (c ∷ cs) =
    let rest = parse_from (acc * 10 + (c - 48)) cs in
    if leb 48 c && leb c 57 && ltb (acc * 10 + (c - 48)) u64_mod then rest else none

unfoldable pub parse_uint : Bytes → Option ℕ
unfolding parse_from
parse_uint [] = none
parse_uint (c ∷ cs) = parse_from 0 (c ∷ cs)

parse_from-digits_before :
    (fuel n : ℕ) (acc : Bytes)
    → n < 10 ^ fuel
    → n < u64_mod
    → parse_from 0 (digits_before fuel n acc) ≡ parse_from n acc
unfolding digits_before parse_from
parse_from-digits_before zero zero acc h w = refl
parse_from-digits_before zero (suc n) acc h w = absurd (omega arith)
parse_from-digits_before (suc fuel) n acc h w = elim (Bool-cases (ltb n 10)) [
  | inl last ↦ ground arith
  | inr more ↦ rw more (
      parse_from-digits_before fuel (n / 10) ((48 + n % 10) ∷ acc) (omega (arith, pow-suc 10 fuel))
        (omega arith)
      ∙ ground arith)
]

digits_before_nonempty :
    (fuel n : ℕ) (acc : Bytes) (d : ℕ)
    → parse_uint (digits_before fuel n (d ∷ acc)) ≡ parse_from 0 (digits_before fuel n (d ∷ acc))
unfolding parse_uint digits_before
digits_before_nonempty zero n acc d = refl
digits_before_nonempty (suc fuel) n acc d =
    ground (arith, digits_before_nonempty fuel (n / 10) (d ∷ acc) (48 + n % 10))

parse_uint-digits_before :
    (fuel n : ℕ)
    → n < 10 ^ suc fuel
    → n < u64_mod
    → parse_uint (digits_before (suc fuel) n []) ≡ some n
unfolding parse_uint digits_before parse_from
parse_uint-digits_before fuel n h w = elim (Bool-cases (ltb n 10)) [
  | inl last ↦ ground arith
  | inr more ↦ rw more (
      digits_before_nonempty fuel (n / 10) [] (48 + n % 10)
      ∙ (parse_from-digits_before fuel (n / 10) ((48 + n % 10) ∷ [])
            (omega (arith, pow-suc 10 fuel)) (omega arith)
          ∙ ground arith))
]

-- A task id survives the trip through the queue's string members.
pub parse_uint-format_uint : (n : ℕ) → n < u64_mod → parse_uint (format_uint n) ≡ some n
unfolding format_uint
parse_uint-format_uint n w = parse_uint-digits_before 19 n (omega arith) w

digits_before-All :
    (P : ℕ → Type 0)
    → ((n : ℕ) → n < 10 → P (48 + n))
    → (fuel n : ℕ) (acc : Bytes) → All P acc
    → All P (digits_before fuel n acc)
unfolding digits_before
digits_before-All P digit zero n acc h = h
digits_before-All P digit (suc fuel) n acc h = elim (Bool-cases (ltb n 10)) [
  | inl last ↦ rw last (digit n (ltb→lt n 10 last), h)
  | inr more ↦ rw more (
      digits_before-All P digit fuel (n / 10) ((48 + n % 10) ∷ acc)
        (digit (n % 10) (omega arith), h))
]

-- Whatever holds of every digit holds of a number's text.
pub format_uint-All :
    (P : ℕ → Type 0) (n : ℕ) → ((d : ℕ) → d < 10 → P (48 + d)) → All P (format_uint n)
unfolding format_uint
format_uint-All P n digit = digits_before-All P digit 20 n [] tt
