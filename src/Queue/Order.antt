-- ===== src/Queue/Order.antt =====
-- PopTopN takes the items of least score, in order.
use mathlib.Core.List.{Perm}
use kitchen_ops.Base.{
  ℕ, ◌||◌, ◌&&◌, not, subst, zero, suc, ◌≡◌, ◌↔◌, refl, Bool, true, false, List, [], ◌∷◌, ◌++◌,
  Bytes, bytes_lt, min, take, drop, length, length-take, All, sort, IsSorted, sort-Perm,
  sort-IsSorted, arith,
}
use kitchen_ops.Runtime.{Float64}
use kitchen_ops.Queue.{InMemoryItem, less, item_ids, pop_top_n}

-- The order of float64 values that are numbers: == holds where neither is below the other.
pub record IsTotal {F : Type 0} (fl : Float64 F) : Type 0 where
  pub asym : (a b : F) → fl.lt a b ≡ true → fl.lt b a ≡ false
  pub trans : (a b c : F) → fl.lt a b ≡ false → fl.lt b c ≡ false → fl.lt a c ≡ false
  pub eq_iff : (a b : F) → (fl.eq a b ≡ true) ↔ ((fl.lt a b ≡ false) × (fl.lt b a ≡ false))

bytes_lt-asym : (a b : Bytes) → bytes_lt a b ≡ true → bytes_lt b a ≡ false
bytes_lt-asym [] [] h = cc
bytes_lt-asym [] (y ∷ b) h = refl
bytes_lt-asym (x ∷ a) [] h = cc
bytes_lt-asym (x ∷ a) (y ∷ b) h = ground (arith, bytes_lt-asym a b)

bytes_lt_trans :
    (a b c : Bytes) → bytes_lt a b ≡ false → bytes_lt b c ≡ false → bytes_lt a c ≡ false
bytes_lt_trans a b [] h k = refl
bytes_lt_trans [] [] (z ∷ c) h k = cc
bytes_lt_trans [] (y ∷ b) (z ∷ c) h k = cc
bytes_lt_trans (x ∷ a) [] (z ∷ c) h k = cc
bytes_lt_trans (x ∷ a) (y ∷ b) (z ∷ c) h k = ground (arith, bytes_lt_trans a b c)

module _ {A : Type 0} (before : A → A → Bool) where
  All-drop : (P : A → Type 0) (n : ℕ) (xs : List A) → All P xs → All P (drop n xs)
  All-drop P zero xs h = h
  All-drop P (suc n) [] h = tt
  All-drop P (suc n) (x ∷ xs) h = All-drop P n xs h.1

  split-IsSorted :
      (n : ℕ) (xs : List A)
      → IsSorted before xs
      → All (λ a. All (λ b. before b a ≡ false) (drop n xs)) (take n xs)
  split-IsSorted zero xs s = tt
  split-IsSorted (suc n) [] s = tt
  split-IsSorted (suc n) (x ∷ xs) s =
      (All-drop (λ b. before b x ≡ false) n xs s.0, split-IsSorted n xs s.1)

  take-drop : (n : ℕ) (xs : List A) → take n xs ++ drop n xs ≡ xs
  take-drop zero xs = refl
  take-drop (suc n) [] = refl
  take-drop (suc n) (x ∷ xs) = rw (take-drop n xs)

-- A item goes before another if its score is lower, or if neither score is and its id is lower.
abbrev pub precedes : {F : Type 0} → Float64 F → InMemoryItem F → InMemoryItem F → Bool
precedes fl a b =
    fl.lt a.score b.score || (not (fl.lt b.score a.score) && bytes_lt a.task_id b.task_id)

module _ {F : Type 0} (fl : Float64 F) (total : IsTotal fl) where
  less-precedes : (a b : InMemoryItem F) → less fl a b ≡ precedes fl a b
  less-precedes a b = ground (
    arith,
    total.asym a.score b.score,
    (total.eq_iff a.score b.score).0,
    (total.eq_iff a.score b.score).1,
  )

  pub less_is : less fl ≡ precedes fl
  less_is i a b = less-precedes a b i

  pub less-asym : (a b : InMemoryItem F) → less fl a b ≡ true → less fl b a ≡ false
  less-asym a b h = ground (
    arith,
    bytes_lt-asym a.task_id b.task_id,
    total.asym a.score b.score,
    (total.eq_iff a.score b.score).0,
    (total.eq_iff b.score a.score).0,
    (total.eq_iff a.score b.score).1,
    (total.eq_iff b.score a.score).1,
  )

  pub less_trans :
      (a b c : InMemoryItem F) → less fl a b ≡ false → less fl b c ≡ false → less fl a c ≡ false
  less_trans a b c h k = ground (
    arith,
    bytes_lt_trans a.task_id b.task_id c.task_id,
    total.trans a.score b.score c.score,
    total.trans c.score b.score a.score,
    total.trans c.score a.score b.score,
    total.trans b.score a.score c.score,
    total.trans b.score c.score a.score,
    total.trans a.score c.score b.score,
    total.asym a.score b.score,
    total.asym b.score c.score,
    total.asym a.score c.score,
    (total.eq_iff a.score b.score).0,
    (total.eq_iff b.score c.score).0,
    (total.eq_iff a.score c.score).0,
    (total.eq_iff a.score b.score).1,
    (total.eq_iff b.score c.score).1,
    (total.eq_iff a.score c.score).1,
  )

  -- For a positive n and scores that are numbers, the ids that PopTopN returns are those of n items,
  -- or of all if there are fewer; those and the rest are together the items of the queue, in sorted
  -- order; and none of the rest comes before any of those. An item comes before another if its score is
  -- lower, or if neither score is lower and its id is.
  pub pop_top_n-least :
      (n : ℕ) (items : List (InMemoryItem F))
      → (popped rest : List (InMemoryItem F)) × ((pop_top_n fl (suc n) items).0 ≡ item_ids popped)
        × Perm (popped ++ rest) items
        × IsSorted (precedes fl) (popped ++ rest)
        × (length popped ≡ min (suc n) (length (popped ++ rest)))
        × All (λ a. All (λ b. precedes fl b a ≡ false) rest) popped
  unfolding pop_top_n
  pop_top_n-least n items =
      let sorted = sort (less fl) items in
      let is_sorted = sort-IsSorted (less fl) less-asym less_trans items in
      (
        take (suc n) sorted,
        drop (suc n) sorted,
        ground arith,
        rw (take-drop (less fl) (suc n) sorted) (sort-Perm (less fl) items),
        subst
            (λ (r : InMemoryItem F → InMemoryItem F → Bool).
              IsSorted r (take (suc n) sorted ++ drop (suc n) sorted))
            less_is (rw (take-drop (less fl) (suc n) sorted) is_sorted),
        rw (take-drop (less fl) (suc n) sorted) (length-take (suc n) sorted),
        subst
            (λ (r : InMemoryItem F → InMemoryItem F → Bool).
              All (λ a. All (λ b. r b a ≡ false) (drop (suc n) sorted)) (take (suc n) sorted))
            less_is (split-IsSorted (less fl) (suc n) sorted is_sorted),
      )
