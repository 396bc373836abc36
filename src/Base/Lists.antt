-- ===== src/Base/Lists.antt =====
-- Lists measured by native numbers, predicates on lists by recursion, and list searches.
use Prim.Native.Nat.{ℕ, zero, suc, ◌+◌, min}
use mathlib.Core.Path.{◌≡◌, refl}
use mathlib.Core.Bool.{Bool, true, false, ◌&&◌}
use mathlib.Core.Option.{Option, none, some}
use mathlib.Core.List.{List, [], ◌∷◌, ◌++◌}
use native.Mathlib.Omega.{arith}
use kitchen_ops.Base.Tests.{if◌then◌else◌, Bytes, ◌==◌, ltb, Bool-cases}
use mathlib.Core.Logic.{◌↔◌, inl, inr}

module _ {ℓ} {A : Type ℓ} where
  abbrev pub length : List A → ℕ
  length [] = 0
  length (x ∷ xs) = suc (length xs)

  abbrev pub get_elem? : List A → ℕ → Option A
  get_elem? [] i = none
  get_elem? (x ∷ xs) zero = some x
  get_elem? (x ∷ xs) (suc i) = get_elem? xs i

  abbrev pub take : ℕ → List A → List A
  take zero xs = []
  take (suc n) [] = []
  take (suc n) (x ∷ xs) = x ∷ take n xs

  abbrev pub drop : ℕ → List A → List A
  drop zero xs = xs
  drop (suc n) [] = []
  drop (suc n) (x ∷ xs) = drop n xs

  -- The elements that pass a test, in their order: SQL's WHERE.
  abbrev pub where_ : (A → Bool) → List A → List A
  where_ p [] = []
  where_ p (x ∷ xs) = let rest = where_ p xs in if p x then x ∷ rest else rest

  abbrev pub any : (A → Bool) → List A → Bool
  any p [] = false
  any p (x ∷ xs) = let rest = any p xs in if p x then true else rest

  -- How many elements pass a test.
  abbrev pub count : (A → Bool) → List A → ℕ
  count p [] = 0
  count p (x ∷ xs) = (if p x then 1 else 0) + count p xs

  abbrev pub All {κ} : (A → Type κ) → List A → Type κ
  All P [] = Unit
  All P (x ∷ xs) = P x × All P xs

  -- Insertion before the first element that does not come earlier: a stable sort.
  abbrev pub insert_sorted : (A → A → Bool) → A → List A → List A
  insert_sorted less x [] = x ∷ []
  insert_sorted less x (y ∷ ys) =
      let rest = insert_sorted less x ys in if less y x then y ∷ rest else x ∷ y ∷ ys

  abbrev pub sort : (A → A → Bool) → List A → List A
  sort less [] = []
  sort less (x ∷ xs) = insert_sorted less x (sort less xs)

module _ {ℓ} {A : Type ℓ} where
  pub length-append : (xs ys : List A) → length (xs ++ ys) ≡ length xs + length ys
  length-append [] ys = omega arith
  length-append (x ∷ xs) ys = omega (arith, length-append xs ys)

  pub length-take : (n : ℕ) (xs : List A) → length (take n xs) ≡ min n (length xs)
  length-take zero xs = omega arith
  length-take (suc n) [] = omega arith
  length-take (suc n) (x ∷ xs) = omega (arith, length-take n xs)

  length-insert_sorted :
      (less : A → A → Bool) (x : A) (ys : List A)
      → length (insert_sorted less x ys) ≡ suc (length ys)
  length-insert_sorted less x [] = refl
  length-insert_sorted less x (y ∷ ys) = ground (arith, length-insert_sorted less x ys)

  pub length-sort : (less : A → A → Bool) (xs : List A) → length (sort less xs) ≡ length xs
  length-sort less [] = refl
  length-sort less (x ∷ xs) =
      omega (arith, length-insert_sorted less x (sort less xs), length-sort less xs)

  pub length-where : (p : A → Bool) (xs : List A) → length (where_ p xs) ≡ count p xs
  length-where p [] = refl
  length-where p (x ∷ xs) = ground (arith, length-where p xs)

  pub All-append {κ} : (P : A → Type κ) (xs ys : List A) → All P xs → All P ys → All P (xs ++ ys)
  All-append P [] ys hx hy = hy
  All-append P (x ∷ xs) ys hx hy = (hx.0, All-append P xs ys hx.1 hy)

  pub All-map {κ μ} :
      (P : A → Type κ) (Q : A → Type μ) (xs : List A) → ((x : A) → P x → Q x) → All P xs → All Q xs
  All-map P Q [] h a = tt
  All-map P Q (x ∷ xs) h a = (h x a.0, All-map P Q xs h a.1)

-- Equality and the order of Go strings, byte by byte.
abbrev pub bytes_eq : Bytes → Bytes → Bool
bytes_eq [] [] = true
bytes_eq [] (y ∷ ys) = false
bytes_eq (x ∷ xs) [] = false
bytes_eq (x ∷ xs) (y ∷ ys) = x == y && bytes_eq xs ys

pub bytes_eq_iff : (a b : Bytes) → (bytes_eq a b ≡ true) ↔ (a ≡ b)
bytes_eq_iff [] [] = ((λ _. refl), (λ _. refl))
bytes_eq_iff [] (y ∷ b) = ((λ h. cc), (λ h. cc))
bytes_eq_iff (x ∷ a) [] = ((λ h. cc), (λ h. cc))
bytes_eq_iff (x ∷ a) (y ∷ b) = ground (arith, (bytes_eq_iff a b).0, (bytes_eq_iff a b).1)

abbrev pub bytes_lt : Bytes → Bytes → Bool
bytes_lt xs [] = false
bytes_lt [] (y ∷ ys) = true
bytes_lt (x ∷ xs) (y ∷ ys) =
    let rest = bytes_lt xs ys in if ltb x y then true else (if x == y then rest else false)

module _ {ℓ κ} {A : Type ℓ} (P : A → Type κ) where
  pub if_elim : (b : Bool) {x y : A} → P x → P y → P (if b then x else y)
  if_elim true px py = px
  if_elim false px py = py

  pub All-insert_sorted :
      (less : A → A → Bool) (x : A) (ys : List A) → P x → All P ys → All P (insert_sorted less x ys)
  All-insert_sorted less x [] px h = (px, tt)
  All-insert_sorted less x (y ∷ ys) px h = elim (Bool-cases (less y x)) [
    | inl later ↦ rw later (h.0, All-insert_sorted less x ys px h.1)
    | inr here ↦ rw here (px, h)
  ]

  pub All-sort : (less : A → A → Bool) (xs : List A) → All P xs → All P (sort less xs)
  All-sort less [] h = tt
  All-sort less (x ∷ xs) h = All-insert_sorted less x (sort less xs) h.0 (All-sort less xs h.1)

  pub All-where : (p : A → Bool) (xs : List A) → All P xs → All P (where_ p xs)
  All-where p [] h = tt
  All-where p (x ∷ xs) h = elim (Bool-cases (p x)) [
    | inl hit ↦ rw hit (h.0, All-where p xs h.1)
    | inr miss ↦ rw miss (All-where p xs h.1)
  ]

  pub All-take : (n : ℕ) (xs : List A) → All P xs → All P (take n xs)
  All-take zero xs h = tt
  All-take (suc n) [] h = tt
  All-take (suc n) (x ∷ xs) h = (h.0, All-take n xs h.1)

-- The elements that `where_` keeps pass its test.
pub All-where_self {ℓ} :
    {A : Type ℓ} (p : A → Bool) (xs : List A) → All (λ x. p x ≡ true) (where_ p xs)
All-where_self p [] = tt
All-where_self p (x ∷ xs) = elim (Bool-cases (p x)) [
  | inl hit ↦ rw hit (hit, All-where_self p xs)
  | inr miss ↦ rw miss (All-where_self p xs)
]

pub All-zip {ℓ κ μ ν} :
    {A : Type ℓ} (P : A → Type κ) (Q : A → Type μ) (R : A → Type ν) (xs : List A)
    → ((x : A) → P x → Q x → R x)
    → All P xs
    → All Q xs
    → All R xs
All-zip P Q R [] h p q = tt
All-zip P Q R (x ∷ xs) h p q = (h x p.0 q.0, All-zip P Q R xs h p.1 q.1)
