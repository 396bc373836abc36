-- ===== src/Base/Sorted.antt =====
-- What sorting does: a permutation in order.
use mathlib.Core.List.{List, [], ◌∷◌, Perm}
use mathlib.Core.List.Perm
use mathlib.Core.Path.{◌≡◌, refl}
use mathlib.Core.Bool.{Bool, true, false}
use mathlib.Core.Logic.{inl, inr}
use kitchen_ops.Base.Tests.{Bool-cases}
use kitchen_ops.Base.Lists.{All, All-map, All-where, All-insert_sorted, insert_sorted, sort, where_}

module _ {A : Type 0} (before : A → A → Bool) where
  -- Nothing later in the list comes before.
  abbrev pub IsSorted : List A → Type 0
  IsSorted [] = Unit
  IsSorted (x ∷ xs) = All (λ y. before y x ≡ false) xs × IsSorted xs

  pub sort-Perm : (xs : List A) → Perm (sort before xs) xs
  sort-Perm [] = Perm.nil
  sort-Perm (x ∷ xs) = Perm.trans (insert-Perm x (sort before xs)) (Perm.cons x (sort-Perm xs))
    where
      insert-Perm : (y : A) (ys : List A) → Perm (insert_sorted before y ys) (y ∷ ys)
      insert-Perm y [] = Perm.refl _
      insert-Perm y (z ∷ ys) = elim (Bool-cases (before z y)) [
        | inl later ↦ rw later (Perm.trans (Perm.cons z (insert-Perm y ys)) (Perm.swap y z ys))
        | inr here ↦ rw here (Perm.refl _)
      ]

  -- A sorted list is left as it is.
  pub sort_sorted : (xs : List A) → IsSorted xs → sort before xs ≡ xs
  sort_sorted [] s = refl
  sort_sorted (x ∷ xs) s = rw (sort_sorted xs s.1) (first xs s.0)
    where
      first : (ys : List A) → All (λ y. before y x ≡ false) ys → insert_sorted before x ys ≡ x ∷ ys
      first [] h = refl
      first (y ∷ ys) h = rw h.0 refl

  pub where-IsSorted : (p : A → Bool) (xs : List A) → IsSorted xs → IsSorted (where_ p xs)
  where-IsSorted p [] s = tt
  where-IsSorted p (x ∷ xs) s = elim (Bool-cases (p x)) [
    | inl hit ↦ rw hit (All-where (λ y. before y x ≡ false) p xs s.0, where-IsSorted p xs s.1)
    | inr miss ↦ rw miss (where-IsSorted p xs s.1)
  ]

  module _ (asym : (a b : A) → before a b ≡ true → before b a ≡ false)
      (trans : (a b c : A) → before a b ≡ false → before b c ≡ false → before a c ≡ false) where
    insert-IsSorted : (x : A) (ys : List A) → IsSorted ys → IsSorted (insert_sorted before x ys)
    insert-IsSorted x [] s = (tt, tt)
    insert-IsSorted x (y ∷ ys) s = elim (Bool-cases (before y x)) [
      | inl later ↦ rw later (
        All-insert_sorted (λ z. before z y ≡ false) before x ys (asym y x later) s.0,
        insert-IsSorted x ys s.1,
      )
      | inr here ↦ rw here (
        (
          here,
          All-map (λ z. before z y ≡ false) (λ z. before z x ≡ false) ys (λ z h. trans z y x h here)
              s.0,
        ),
        s,
      )
    ]

    pub sort-IsSorted : (xs : List A) → IsSorted (sort before xs)
    sort-IsSorted [] = tt
    sort-IsSorted (x ∷ xs) = insert-IsSorted x (sort before xs) (sort-IsSorted xs)
