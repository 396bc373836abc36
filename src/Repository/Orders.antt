-- ===== src/Repository/Orders.antt =====
-- internal/repository/order_repo.go
use kitchen_ops.Base.{
  ℕ, ◌+◌, Bool, true, false, not, ◌&&◌, ◌||◌, List, [], ◌∷◌, ◌++◌, if◌then◌else◌, ltb, ◌==◌, where_,
  sort, count, any, update_where, Bytes,
}
use kitchen_ops.Models.{
  TaskStatus, OrderStatus, OrderModel, TaskModel, TaskDependencyModel, is_unassigned, is_completed,
  order_is_confirmed, order_is_in_progress, order_is_completed,
}
use kitchen_ops.Runtime.{Services, Kitchen, Action, ◌>>=◌, ◌>>◌, pure, call, on_tx, transaction}
use kitchen_ops.Repository.Allocation.{set_tasks}

abbrev pub set_orders :
    {F Q : Type 0} → (List OrderModel → List OrderModel) → Kitchen F Q → Unit {0} × Kitchen F Q
set_orders f s = (tt, record s { db = record (s.db) { orders = f s.db.orders } })

abbrev pub add_dependencies :
    {F Q : Type 0} → List TaskDependencyModel → Kitchen F Q → Unit {0} × Kitchen F Q
add_dependencies deps s =
    (tt, record s { db = record (s.db) { task_dependencies = s.db.task_dependencies ++ deps } })

module _ {F Q : Type 0} (w : Services F Q) where
  unfoldable pub create_order : Bytes → Action F Q OrderModel
  create_order external_order_id = on_tx w λ s.
      let order : OrderModel = record {
        id = s.order_seq + 1;
        external_order_id = external_order_id;
        status = OrderStatus.confirmed;
        created_at = w.clock s.calls;
      } in
      (
        order,
        record s {
          order_seq = s.order_seq + 1;
          db = record (s.db) { orders = s.db.orders ++ order ∷ [] };
        },
      )

  -- tasks[i].OrderID = order.ID; tasks[i].Status = UNASSIGNED; tx.Create(&tasks[i])
  unfoldable pub create_task : ℕ → TaskModel F → Action F Q (TaskModel F)
  create_task order_id task = on_tx w λ s.
      let row : TaskModel F = record task {
        id = s.task_seq + 1;
        order_id = order_id;
        status = TaskStatus.unassigned;
        created_at = w.clock s.calls;
      } in
      (
        row,
        record s {
          task_seq = s.task_seq + 1;
          db = record (s.db) { tasks = s.db.tasks ++ row ∷ [] };
        },
      )

  unfoldable pub create_tasks : ℕ → List (TaskModel F) → Action F Q (List (TaskModel F))
  create_tasks order_id [] = pure []
  create_tasks order_id (task ∷ tasks) = do
    row ← create_task order_id task
    rows ← create_tasks order_id tasks
    pure (row ∷ rows)

  unfoldable pub create_dependencies : List TaskDependencyModel → Action F Q (Unit {0})
  create_dependencies [] = pure tt
  create_dependencies (d ∷ deps) = do on_tx w (add_dependencies (d ∷ [])); create_dependencies deps

  unfoldable pub create_order_with_tasks :
      Bytes
      → List (TaskModel F)
      → List TaskDependencyModel
      → Action F Q (OrderModel × List (TaskModel F))
  create_order_with_tasks external_order_id tasks deps = transaction w do
    order ← create_order external_order_id
    rows ← create_tasks order.id tasks
    create_dependencies deps
    pure (order, rows)

  unfoldable pub insert_task_dependencies : List TaskDependencyModel → Action F Q (Unit {0})
  insert_task_dependencies [] = pure tt
  insert_task_dependencies (d ∷ deps) = call w (add_dependencies (d ∷ deps))

-- The dependency's task row is one of the order's: the JOIN of the sub-query.
abbrev pub is_order_dependency : {F : Type 0} → List (TaskModel F) → ℕ → TaskDependencyModel → Bool
is_order_dependency tasks order_id d =
    any (λ t. (t.id == d.task_id) && (t.order_id == order_id)) tasks

-- SET pending_deps = COUNT(*) of the task's rows in the sub-query; a task that the sub-query
-- has no group for is left alone.
abbrev pub recalculate_row : {F : Type 0} → List TaskDependencyModel → TaskModel F → TaskModel F
recalculate_row sub t = record t { pending_deps = count (λ d. d.task_id == t.id) sub }

module _ {F Q : Type 0} (w : Services F Q) where
  unfoldable pub recalculate_pending_deps_for_order : ℕ → Action F Q (Unit {0})
  recalculate_pending_deps_for_order order_id = call w λ s.
      let sub = where_ (is_order_dependency s.db.tasks order_id) s.db.task_dependencies in
      set_tasks (update_where (λ t. any (λ d. d.task_id == t.id) sub) (recalculate_row sub)) s

  unfoldable pub list_order_ready_tasks : ℕ → Action F Q (List (TaskModel F))
  list_order_ready_tasks order_id = call w λ s. (
    sort (λ a b. ltb a.id b.id)
        (where_ (λ t. (t.order_id == order_id) && (is_unassigned t.status && (t.pending_deps == 0)))
          s.db.tasks),
    s,
  )

  -- The UPDATE of an order that has no task left.
  unfoldable pub close_order : ℕ → Action F Q Bool
  close_order order_id = do
    on_tx w (
        set_orders (
          update_where (λ o. (o.id == order_id) && not (order_is_completed o.status))
            (λ o. record o { status = OrderStatus.completed })))
    pure true

  unfoldable pub complete_order_if_all_tasks_done : ℕ → Action F Q Bool
  complete_order_if_all_tasks_done order_id = do
    remaining ←
        on_tx w
          λ s. (count (λ t. (t.order_id == order_id) && not (is_completed t.status)) s.db.tasks, s)
    if ltb 0 remaining then pure false else close_order order_id

  unfoldable pub mark_order_in_progress_if_confirmed : ℕ → Action F Q (Unit {0})
  mark_order_in_progress_if_confirmed order_id = on_tx w (
      set_orders (
        update_where (λ o. (o.id == order_id) && order_is_confirmed o.status)
          (λ o. record o { status = OrderStatus.in_progress })))

  unfoldable pub mark_order_part_completed_if_not_done : ℕ → Action F Q (Unit {0})
  mark_order_part_completed_if_not_done order_id = on_tx w (
      set_orders (
        update_where
          (λ o.
            (o.id == order_id) && (order_is_confirmed o.status || order_is_in_progress o.status))
          (λ o. record o { status = OrderStatus.part_completed })))
