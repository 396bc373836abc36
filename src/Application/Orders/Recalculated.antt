-- ===== src/Application/Orders/Recalculated.antt =====
-- What RecalculatePendingDepsForOrder writes for a new order.
use kitchen_ops.Base.{
  ℕ, ◌≤◌, ◌<◌, ◌≡◌, refl, sym, ap, ◌∙◌, Bool, true, false, ◌&&◌, List, [], ◌∷◌, ◌++◌, map, where_,
  any, count, update_where, All, All-append, All-map, ◌==◌, if◌then◌else◌, Bool-cases, inl, inr,
  arith,
}
use kitchen_ops.Models.{TaskModel, TaskDependencyModel}
use kitchen_ops.Repository.Orders.{is_order_dependency, recalculate_row}
use kitchen_ops.Application.Orders.Created.{IsNew}

module _ {ℓ} {A : Type ℓ} where
  any_none : (p : A → Bool) (xs : List A) → All (λ x. p x ≡ false) xs → any p xs ≡ false
  any_none p [] h = refl
  any_none p (x ∷ xs) h = rw h.0 (any_none p xs h.1)

  any-append_right : (p : A → Bool) (xs ys : List A) → any p ys ≡ true → any p (xs ++ ys) ≡ true
  any-append_right p [] ys h = h
  any-append_right p (x ∷ xs) ys h = ground (arith, any-append_right p xs ys h)

  count_none : (p : A → Bool) (xs : List A) → any p xs ≡ false → count p xs ≡ 0
  count_none p [] h = refl
  count_none p (x ∷ xs) h = ground (arith, count_none p xs)

  where-append :
      (p : A → Bool) (xs ys : List A)
      → All (λ x. p x ≡ false) xs
      → All (λ y. p y ≡ true) ys
      → where_ p (xs ++ ys) ≡ ys
  where-append p [] [] none_of all = refl
  where-append p [] (y ∷ ys) none_of all =
      rw all.0 (ap (λ r. y ∷ r) (where-append p [] ys tt all.1))
  where-append p (x ∷ xs) ys none_of all = rw none_of.0 (where-append p xs ys none_of.1 all)

  update_where-append :
      (p : A → Bool) (f : A → A) (xs ys : List A)
      → All (λ x. p x ≡ false) xs
      → All (λ y. (if p y then f y else y) ≡ f y) ys
      → update_where p f (xs ++ ys) ≡ xs ++ map f ys
  update_where-append p f [] [] none_of all = refl
  update_where-append p f [] (y ∷ ys) none_of all =
      cc (all.0, update_where-append p f [] ys tt all.1)
  update_where-append p f (x ∷ xs) ys none_of all =
      rw none_of.0 (ap (λ r. x ∷ r) (update_where-append p f xs ys none_of.1 all))

module _ {F : Type 0} where
  -- A row of the list has the id.
  abbrev pub IsRow : List (TaskModel F) → ℕ → Type 0
  IsRow rows k = any (λ t. t.id == k) rows ≡ true

  abbrev pub AreWithin : List (TaskModel F) → List TaskDependencyModel → Type 0
  AreWithin rows deps = All (λ d. IsRow rows d.task_id × IsRow rows d.depends_on_task_id) deps

  pub IsRow-above :
      (order_id last k : ℕ) (rows : List (TaskModel F))
      → All (IsNew order_id last) rows
      → IsRow rows k
      → last < k
  IsRow-above order_id last k [] new h = cc
  IsRow-above order_id last k (row ∷ rows) new h = elim (Bool-cases (row.id == k)) [
    | inl hit ↦ ground (arith, new.0.0)
    | inr miss ↦ IsRow-above order_id last k rows new.1 (ground arith)
  ]

  -- A task with the number of its rows among some dependencies.
  abbrev pub waits_for : List TaskDependencyModel → TaskModel F → TaskModel F
  waits_for deps t = record t { pending_deps = count (λ d. d.task_id == t.id) deps }

  module _ (order_id last : ℕ) (old rows : List (TaskModel F))
      (older : All (λ t. (t.id ≤ last) × (t.order_id < order_id)) old)
      (new : All (IsNew order_id last) rows) where
    row_of_order :
        (k : ℕ) (rows' : List (TaskModel F))
        → All (IsNew order_id last) rows'
        → IsRow rows' k
        → any (λ t. (t.id == k) && (t.order_id == order_id)) rows' ≡ true
    row_of_order k [] new' h = cc
    row_of_order k (row ∷ rows') new' h = ground (arith, new'.0.1, row_of_order k rows' new'.1)

    old_excluded :
        (d : TaskDependencyModel)
        → d.task_id ≤ last
        → is_order_dependency (old ++ rows) order_id d ≡ false
    old_excluded d l = any_none _ (old ++ rows) (
        All-append _ old rows (All-map _ _ old (λ t h. ground (arith, h.0, h.1)) older)
          (All-map _ _ rows (λ t h. ground (arith, h.0)) new))

    -- The sub-query finds the new dependencies, and no others.
    pub sub_query :
        (old_deps deps : List TaskDependencyModel)
        → All (λ d. d.task_id ≤ last) old_deps
        → AreWithin rows deps
        → where_ (is_order_dependency (old ++ rows) order_id) (old_deps ++ deps) ≡ deps
    sub_query old_deps deps bounded within =
        where-append _ old_deps deps (All-map _ _ old_deps (λ d l. old_excluded d l) bounded) (
          All-map _ _ deps
            (λ d h. any-append_right _ old rows (row_of_order d.task_id rows new h.0)) within)

    -- The update leaves the older tasks alone, and counts the dependencies of the new ones.
    pub recalculated :
        (deps : List TaskDependencyModel)
        → AreWithin rows deps
        → update_where (λ t. any (λ d. d.task_id == t.id) deps) (recalculate_row deps) (old ++ rows)
          ≡ old ++ map (waits_for deps) rows
    recalculated deps within =
        update_where-append _ (recalculate_row deps) old rows
          (All-map _ _ old
            (λ t h. any_none _ deps (
              All-map _ _ deps
                (λ d g. ground (arith, IsRow-above order_id last d.task_id rows new g.0, h.0))
                within))
            older)
          (All-map _ _ rows (λ t h. counted t h.3) new)
      where
        counted :
            (t : TaskModel F)
            → t.pending_deps ≡ 0
            → (if any (λ d. d.task_id == t.id) deps then recalculate_row deps t else t)
              ≡ recalculate_row deps t
        counted t zero_deps = elim (Bool-cases (any (λ d. d.task_id == t.id) deps)) [
          | inl some_dep ↦ rw some_dep refl
          | inr no_dep ↦
              rw no_dep (
                ap (λ n. record t { pending_deps = n })
                  (zero_deps ∙ sym (count_none _ deps no_dep)))
        ]
