-- ===== src/Consistency/Board/Placing.antt =====
-- A new order keeps the count of open dependencies.
use kitchen_ops.Base.{
  ℕ, ◌≤◌, ◌<◌, ◌≡◌, inl, inr, sym, ap, ◌∙◌, true, false, ◌&&◌, List, ◌++◌, map, count, All, All-map,
  ◌==◌, arith,
}
use kitchen_ops.Models.{ArePaired, TaskModel, TaskDependencyModel, OrderModel}
use kitchen_ops.Application.Orders.Created.{IsNew, AreStored}
use kitchen_ops.Application.Orders.Recalculated.{IsRow, IsRow-above, AreWithin, waits_for}
use kitchen_ops.Consistency.Board.{Board}
use kitchen_ops.Consistency.Board.Counts.{AreCounted, is_open, is_unfinished, open_dependencies}
use kitchen_ops.Consistency.Board.Appended.{
  count_cong, count_never, count-append, ArePaired-append, IsKeyed-append, AreStored-IsKeyed,
  find-append, find-append_left, find-append_right, found_below, find-waits_for, is_open_new,
}

module _ {F : Type 0} (order_id last : ℕ) (before : Board F) (drafts rows : List (TaskModel F))
    (deps : List TaskDependencyModel) (counted : AreCounted before)
    (stored : AreStored order_id last drafts rows) (new : All (IsNew order_id last) rows)
    (within : AreWithin rows deps) (paired : ArePaired deps)
    (older : All (λ t. t.id ≤ last) before.tasks)
    (bounded : All
      (λ d. (d.task_id ≤ last) × (d.depends_on_task_id ≤ last))
      before.dependencies) where
  abbrev new_rows : List (TaskModel F)
  new_rows = map (waits_for deps) rows

  abbrev with_rows : List OrderModel → Board F
  with_rows orders = record {
    tasks = before.tasks ++ new_rows;
    dependencies = before.dependencies ++ deps;
    orders = orders;
  }

  rows_above : All (λ t. last < t.id) new_rows
  rows_above = (AreStored-IsKeyed deps order_id last drafts rows stored).1

  deps_above : All (λ d. last < d.task_id) deps
  deps_above = All-map _ _ deps (λ d h. IsRow-above order_id last d.task_id rows new h.0) within

  is_open_old : (k : ℕ) → k ≤ last → is_open (before.tasks ++ new_rows) k ≡ is_open before.tasks k
  is_open_old k l = ap is_unfinished (
      find-append_left k before.tasks new_rows
        (All-map _ _ new_rows (λ t a. omega (arith, a, l)) rows_above))

  is_open_row : (k : ℕ) → IsRow rows k → is_open (before.tasks ++ new_rows) k ≡ true
  is_open_row k there =
      ap is_unfinished (
        find-append_right k before.tasks new_rows (
          All-map _ _ before.tasks
            (λ t l. omega (arith, l, IsRow-above order_id last k rows new there)) older))
      ∙ is_open_new deps order_id last k rows new there

  -- An older task has the open dependencies that it had.
  open_of_old :
      (k : ℕ)
      → k ≤ last
      → open_dependencies (before.tasks ++ new_rows) (before.dependencies ++ deps) k
        ≡ open_dependencies before.tasks before.dependencies k
  open_of_old k l = omega (
    arith,
    count-append (λ d. (d.task_id == k) && is_open (before.tasks ++ new_rows) d.depends_on_task_id)
        (λ d. false) before.dependencies deps,
    count_cong (λ d. (d.task_id == k) && is_open (before.tasks ++ new_rows) d.depends_on_task_id)
        (λ d. (d.task_id == k) && is_open before.tasks d.depends_on_task_id) before.dependencies
        (All-map _ _ before.dependencies
          (λ d h. ap (λ b. (d.task_id == k) && b) (is_open_old d.depends_on_task_id h.1)) bounded),
    count_never (λ d. (d.task_id == k) && is_open (before.tasks ++ new_rows) d.depends_on_task_id)
        (λ d. false) deps (All-map _ _ deps (λ d a. ground (arith, l)) deps_above),
  )

  -- Every dependency of a new task is open.
  open_of_new :
      (k : ℕ)
      → last < k
      → open_dependencies (before.tasks ++ new_rows) (before.dependencies ++ deps) k
        ≡ count (λ d. d.task_id == k) deps
  open_of_new k l = omega (
    arith,
    count-append (λ d. (d.task_id == k) && is_open (before.tasks ++ new_rows) d.depends_on_task_id)
        (λ d. false) before.dependencies deps,
    count_never (λ d. (d.task_id == k) && is_open (before.tasks ++ new_rows) d.depends_on_task_id)
        (λ d. false) before.dependencies
        (All-map _ _ before.dependencies (λ d h. ground (arith, h.0, l)) bounded),
    count_cong (λ d. (d.task_id == k) && is_open (before.tasks ++ new_rows) d.depends_on_task_id)
        (λ d. d.task_id == k) deps
        (All-map _ _ deps (λ d h. ground (arith, is_open_row d.depends_on_task_id h.1)) within),
  )

  pub with_rows-AreCounted : (orders : List OrderModel) → AreCounted (with_rows orders)
  with_rows-AreCounted orders = record {
    keyed =
        IsKeyed-append last before.tasks new_rows counted.keyed
          (AreStored-IsKeyed deps order_id last drafts rows stored).0 older rows_above;
    paired =
        ArePaired-append last before.dependencies deps counted.paired paired
          (All-map _ _ before.dependencies (λ d h. h.0) bounded) deps_above;
    counted = λ k t found. elim (find-append k before.tasks new_rows t found) [
      | inl there ↦
          let (number, gate) = counted.counted k t there in
          (number ∙ sym (open_of_old k (found_below k last before.tasks t older there)), gate)
      | inr here ↦
          let (number, free, above) = find-waits_for deps order_id last k rows t new here in
          (number ∙ sym (open_of_new k above), λ busy. cc)
    ];
  }
