-- ===== src/Queue/Listing.antt =====
-- A list of items with each id once, in order, is determined by the scores of the ids.
use kitchen_ops.Base.{
  ◌≡◌, refl, sym, subst, ap, ◌∙◌, true, false, Option, none, some, List, [], ◌∷◌, Bytes, bytes_eq,
  bytes_eq_iff, bytes_lt, sort, insert_sorted, All, All-insert_sorted, All-sort, IsSorted,
  Bool-cases, inl, inr, if◌then◌else◌, arith,
}
use kitchen_ops.Runtime.{Float64}
use kitchen_ops.Queue.{InMemoryItem, score_of, less}
use kitchen_ops.Queue.Order.{IsTotal}

bytes_lt_total : (a b : Bytes) → bytes_lt a b ≡ false → bytes_lt b a ≡ false → bytes_eq a b ≡ true
bytes_lt_total [] [] h k = refl
bytes_lt_total [] (y ∷ b) h k = cc
bytes_lt_total (x ∷ a) [] h k = cc
bytes_lt_total (x ∷ a) (y ∷ b) h k = ground (arith, bytes_lt_total a b)

pub bytes_eq_sym : (a b : Bytes) → bytes_eq a b ≡ false → bytes_eq b a ≡ false
bytes_eq_sym a b h = elim (Bool-cases (bytes_eq b a)) [
  | inl same ↦ cc ((bytes_eq_iff a b).1 (sym ((bytes_eq_iff b a).0 same)), h)
  | inr other ↦ other
]

module _ {F : Type 0} where
  abbrev pub AreDistinct : List (InMemoryItem F) → Type 0
  AreDistinct [] = Unit
  AreDistinct (i ∷ items) =
      All (λ j. bytes_eq j.task_id i.task_id ≡ false) items × AreDistinct items

  pub score_of-absent :
      (id : Bytes) (items : List (InMemoryItem F))
      → All (λ j. bytes_eq j.task_id id ≡ false) items
      → score_of id items ≡ none
  unfolding score_of
  score_of-absent id [] h = refl
  score_of-absent id (i ∷ items) h = rw h.0 (score_of-absent id items h.1)

  -- What holds of all items holds of the one that a score belongs to.
  score_of-All :
      (P : InMemoryItem F → Type 0) (id : Bytes) (score : F) (items : List (InMemoryItem F))
      → All P items
      → score_of id items ≡ some score
      → P (record { task_id = id; score = score })
  unfolding score_of
  score_of-All P id score [] h e = cc
  score_of-All P id score (i ∷ items) h e = elim (Bool-cases (bytes_eq i.task_id id)) [
    | inl hit ↦
        let at : i ≡ record { task_id = id; score = score } =
          cc ((bytes_eq_iff i.task_id id).0 hit, rw hit at e) in
        subst P at h.0
    | inr miss ↦ score_of-All P id score items h.1 (rw miss at e)
  ]

  score_of-head :
      (x : InMemoryItem F) (xs : List (InMemoryItem F)) → score_of x.task_id (x ∷ xs) ≡ some x.score
  unfolding score_of
  score_of-head x xs = rw ((bytes_eq_iff x.task_id x.task_id).1 refl) refl

  score_of-later :
      (x : InMemoryItem F) (xs : List (InMemoryItem F)) (id : Bytes)
      → bytes_eq x.task_id id ≡ false
      → score_of id (x ∷ xs) ≡ score_of id xs
  unfolding score_of
  score_of-later x xs id miss = rw miss refl

  -- What follows the same first item has the same scores.
  score_of-tails :
      (x : InMemoryItem F) (xs ys : List (InMemoryItem F))
      → AreDistinct (x ∷ xs)
      → AreDistinct (x ∷ ys)
      → ((id : Bytes) → score_of id (x ∷ xs) ≡ score_of id (x ∷ ys))
      → (id : Bytes) → score_of id xs ≡ score_of id ys
  score_of-tails x xs ys dx dy same id = elim (Bool-cases (bytes_eq x.task_id id)) [
    | inl hit ↦
        let at = (bytes_eq_iff x.task_id id).0 hit in
        subst (λ k. score_of k xs ≡ score_of k ys) at
          (score_of-absent x.task_id xs dx.0 ∙ sym (score_of-absent x.task_id ys dy.0))
    | inr miss ↦ sym (score_of-later x xs id miss) ∙ (same id ∙ score_of-later x ys id miss)
  ]

  module _ (fl : Float64 F) where
    insert-score_of :
        (i : InMemoryItem F) (items : List (InMemoryItem F)) (id : Bytes)
        → AreDistinct (i ∷ items)
        → score_of id (insert_sorted (less fl) i items) ≡ score_of id (i ∷ items)
    unfolding score_of
    insert-score_of i [] id d = refl
    insert-score_of i (j ∷ items) id d = elim (Bool-cases (less fl j i)) [
      | inl later ↦ rw later (rw (insert-score_of i items id (d.0.1, d.1.1)) (swapped _))
      | inr here ↦ rw here refl
    ]
      where
        -- The two ids differ, so that the order of the two items does not matter.
        swapped :
            (rest : Option F)
            → (if bytes_eq j.task_id id
                then some j.score
                else (if bytes_eq i.task_id id then some i.score else rest))
              ≡ (if bytes_eq i.task_id id
                  then some i.score
                  else (if bytes_eq j.task_id id then some j.score else rest))
        swapped rest = elim (Bool-cases (bytes_eq j.task_id id)) [
          | inl hit ↦ elim (Bool-cases (bytes_eq i.task_id id)) [
            | inl again ↦
                let same =
                  (bytes_eq_iff j.task_id i.task_id).1 (
                    (bytes_eq_iff j.task_id id).0 hit
                    ∙ sym ((bytes_eq_iff i.task_id id).0 again)) in
                cc (same, d.0.0)
            | inr miss ↦ rw (hit, miss) refl
          ]
          | inr miss ↦ rw miss refl
        ]

    insert-AreDistinct :
        (i : InMemoryItem F) (items : List (InMemoryItem F))
        → AreDistinct (i ∷ items)
        → AreDistinct (insert_sorted (less fl) i items)
    insert-AreDistinct i [] d = (tt, tt)
    insert-AreDistinct i (j ∷ items) d = elim (Bool-cases (less fl j i)) [
      | inl later ↦ rw later (
        All-insert_sorted (λ k. bytes_eq k.task_id j.task_id ≡ false) (less fl) i items
            (bytes_eq_sym j.task_id i.task_id d.0.0) d.1.0,
        insert-AreDistinct i items (d.0.1, d.1.1),
      )
      | inr here ↦ rw here d
    ]

    pub sort-AreDistinct :
        (items : List (InMemoryItem F)) → AreDistinct items → AreDistinct (sort (less fl) items)
    sort-AreDistinct [] d = tt
    sort-AreDistinct (i ∷ items) d = insert-AreDistinct i (sort (less fl) items) (
      All-sort (λ j. bytes_eq j.task_id i.task_id ≡ false) (less fl) items d.0,
      sort-AreDistinct items d.1,
    )

    pub sort-score_of :
        (items : List (InMemoryItem F)) (id : Bytes)
        → AreDistinct items
        → score_of id (sort (less fl) items) ≡ score_of id items
    unfolding score_of
    sort-score_of [] id d = refl
    sort-score_of (i ∷ items) id d =
        insert-score_of i (sort (less fl) items) id (
          All-sort (λ j. bytes_eq j.task_id i.task_id ≡ false) (less fl) items d.0,
          sort-AreDistinct items d.1,
        )
        ∙ ap (λ rest. if bytes_eq i.task_id id then some i.score else rest)
            (sort-score_of items id d.1)

    less_total :
        IsTotal fl
        → (x y : InMemoryItem F) → less fl x y ≡ false
        → less fl y x ≡ false
        → bytes_eq x.task_id y.task_id ≡ true
    less_total total x y h k = ground (
      arith,
      bytes_lt_total x.task_id y.task_id,
      (total.eq_iff x.score y.score).0,
      (total.eq_iff x.score y.score).1,
      (total.eq_iff y.score x.score).0,
      (total.eq_iff y.score x.score).1,
    )

    nothing_there :
        (y : InMemoryItem F) (ys : List (InMemoryItem F))
        → ((id : Bytes) → score_of id [] ≡ score_of id (y ∷ ys))
        → ⊥
    unfolding score_of
    nothing_there y ys same = cc (same y.task_id, score_of-head y ys)

    -- Lists in order with each id once, and with the same scores, are equal.
    pub listing_unique :
        IsTotal fl
        → (xs ys : List (InMemoryItem F)) → IsSorted (less fl) xs
        → IsSorted (less fl) ys
        → AreDistinct xs
        → AreDistinct ys
        → ((id : Bytes) → score_of id xs ≡ score_of id ys)
        → xs ≡ ys
    listing_unique total [] [] sx sy dx dy same = refl
    listing_unique total [] (y ∷ ys) sx sy dx dy same = absurd (nothing_there y ys same)
    listing_unique total (x ∷ xs) [] sx sy dx dy same =
        absurd (nothing_there x xs (λ id. sym (same id)))
    listing_unique total (x ∷ xs) (y ∷ ys) sx sy dx dy same =
        elim (Bool-cases (bytes_eq x.task_id y.task_id)) [
          | inl hit ↦
              let e : x ≡ y = same_item ((bytes_eq_iff x.task_id y.task_id).0 hit) in
              let (dy', same') =
                subst
                  (λ z.
                    AreDistinct (z ∷ ys)
                    × ((id : Bytes) → score_of id (x ∷ xs) ≡ score_of id (z ∷ ys)))
                  (sym e) (dy, same) in
              ap (λ z. z ∷ xs) e
              ∙ ap (λ zs. y ∷ zs)
                  (listing_unique total xs ys sx.1 sy.1 dx.1 dy.1
                    (score_of-tails x xs ys dx dy' same'))
          | inr miss ↦
              let x_later =
                score_of-All (λ z. less fl z y ≡ false) x.task_id x.score ys sy.0
                  (sym (score_of-later y ys x.task_id (bytes_eq_sym x.task_id y.task_id miss))
                    ∙ (sym (same x.task_id) ∙ score_of-head x xs)) in
              let y_later =
                score_of-All (λ z. less fl z x ≡ false) y.task_id y.score xs sx.0
                  (sym (score_of-later x xs y.task_id miss)
                    ∙ (same y.task_id ∙ score_of-head y ys)) in
              cc (less_total total x y x_later y_later, miss)
        ]
      where
        same_item : x.task_id ≡ y.task_id → x ≡ y
        same_item e = cc (e, score_of-head x xs, score_of-head y ys, same x.task_id)
