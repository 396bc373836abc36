-- ===== src/Consistency/Board/Effects.antt =====
-- What a start and a completion do to the board, where they succeed.
use kitchen_ops.Base.{
  ℕ, ◌≡◌, refl, ◌∙◌, ap, subst, true, false, ◌&&◌, some, List, [], ◌∷◌, any, ◌==◌, find?, has_key,
  ltb, if◌then◌else◌, inl, inr, update_where, Bool-cases,
}
use kitchen_ops.Models.{TaskModel, Database, is_unassigned, is_assigned, is_started}
use kitchen_ops.Runtime.{Services, Kitchen, pure}
use kitchen_ops.Runtime.Outcomes.{
  OnOk, on_tx-OnOk, call-OnOk, or_throw-OnOk, bind_OnOk, on_tx_last, Preserves, bind-Preserves,
  if_Preserves,
}
use kitchen_ops.Runtime.Atomic.{AllOrNothing, transaction_atomic}
use kitchen_ops.Repository.Lifecycle.{
  increment_counter_usage, increment_machine_usage, update_staff_efficiency_and_active,
  decrement_dependent_pending_deps, is_dependent, unblock_row, start_row,
}
use kitchen_ops.Repository.Lifecycle.Outcomes.{started_OnOk, completed_OnOk}
use kitchen_ops.Repository.Orders.{
  mark_order_part_completed_if_not_done, close_order, complete_order_if_all_tasks_done,
}
use kitchen_ops.Repository.Events.{insert_domain_event}
use kitchen_ops.Application.Scores.{enqueue}
use kitchen_ops.Application.Tasks.{
  start_body, announce_child, announce_ready, complete_body, start_task, complete_task,
}
use kitchen_ops.Consistency.Board.{
  Board, board, finish_order, completed_tasks, completed_orders, remaining, set_row,
}

module _ {F : Type 0} where
  -- The task was assigned, and is written as started; the rest is as it was.
  abbrev pub Started : (now task_id : ℕ) → Board F → Board F → Type 0
  Started now task_id b c =
      (t : TaskModel F) × (find? (has_key (λ r. r.id) task_id) b.tasks ≡ some t)
      × (is_assigned t.status ≡ true)
      × (c ≡ record b { tasks = set_row t.id (start_row now) b.tasks })

  -- The task was started, and is written as completed; each unassigned dependent waits for one task
  -- less, and the order is advanced or closed.
  abbrev pub Completed : (now task_id : ℕ) → Board F → Board F → Type 0
  Completed now task_id b c =
      (t : TaskModel F) × (find? (has_key (λ r. r.id) task_id) b.tasks ≡ some t)
      × (is_started t.status ≡ true)
      × (c ≡ record b {
        tasks = completed_tasks now t.id b.dependencies b.tasks;
        orders =
            completed_orders t.order_id (completed_tasks now t.id b.dependencies b.tasks) b.orders;
      })

module _ {F Q : Type 0} (w : Services F Q) where
  pub start_body-Started :
      (now task_id : ℕ) (s : Kitchen F Q)
      → OnOk (λ _ t. Started now task_id (board s.db) (board t.db)) (start_body w now task_id s)
  unfolding start_body insert_domain_event
  start_body-Started now task_id s = started_OnOk w P task_id now _ s λ task found ready.
      or_throw-OnOk P task.assigned_machine_id _ _ _
        λ _ _. on_tx_last w P _ _ (task, found, ready, refl)
    where
      P : Unit {0} → Kitchen F Q → Type 0
      P _ t = Started now task_id (board s.db) (board t.db)

  -- The announcements and the order's marks, after the completed task has been counted off.
  abbrev At : Board F → Database F → Type 0
  At b db = board db ≡ b

  announce_ready-At :
      (b : Board F) (now : ℕ) (children : List (TaskModel F))
      → Preserves {F = F} {Q = Q} (At b) (announce_ready w now children)
  unfolding announce_ready announce_child enqueue insert_domain_event
  announce_ready-At b now [] = λ s e. e
  announce_ready-At b now (child ∷ children) =
      let is_ready = is_unassigned child.status && (child.pending_deps == 0) in
      bind-Preserves (At b) (if is_ready then announce_child w now child else pure tt)
        (λ _. announce_ready w now children)
        (if_Preserves (At b) is_ready (announce_child w now child) (pure tt)
          (λ s e. call-OnOk w (λ _ t. At b t.db) _ _ s (on_tx_last w (λ _ t. At b t.db) _ _ e))
          (λ s e. e))
        (λ _. announce_ready-At b now children)

  complete_order_board :
      (order_id : ℕ) (s : Kitchen F Q)
      → OnOk
          (λ _ t.
            At
              (record (board s.db) {
                orders =
                    if ltb 0 (remaining order_id s.db.tasks)
                    then s.db.orders
                    else finish_order order_id s.db.orders;
              })
              t.db)
          (complete_order_if_all_tasks_done w order_id s)
  unfolding complete_order_if_all_tasks_done close_order
  complete_order_board order_id s =
      on_tx-OnOk w (λ _ t. closed t.db) _
        (λ open_tasks. if ltb 0 open_tasks then pure false else close_order w order_id) s
        (elim (Bool-cases (ltb 0 (remaining order_id s.db.tasks))) [
          | inl some_left ↦ rw some_left refl
          | inr none_left ↦ rw none_left (on_tx-OnOk w (λ _ t. closed' t.db) _ _ _ refl)
        ])
    where
      closed : Database F → Type 0
      closed = At (record (board s.db) {
        orders =
            if ltb 0 (remaining order_id s.db.tasks)
            then s.db.orders
            else finish_order order_id s.db.orders;
      })

      closed' : Database F → Type 0
      closed' = At (record (board s.db) { orders = finish_order order_id s.db.orders })

  decrement_board :
      (task_id : ℕ) (s : Kitchen F Q)
      → OnOk
          (λ _ t.
            At
              (record (board s.db) {
                tasks =
                    update_where
                      (λ r. any (is_dependent task_id r) s.db.task_dependencies)
                      unblock_row
                      s.db.tasks;
              })
              t.db)
          (decrement_dependent_pending_deps w task_id s)
  unfolding decrement_dependent_pending_deps
  decrement_board task_id s =
      on_tx-OnOk w (λ _ t. counted t.db) _ _ s (on_tx_last w (λ _ t. counted t.db) _ _ refl)
    where
      counted : Database F → Type 0
      counted = At (record (board s.db) {
        tasks =
            update_where (λ r. any (is_dependent task_id r) s.db.task_dependencies) unblock_row
              s.db.tasks;
      })

  pub complete_body-Completed :
      (now task_id : ℕ) (s : Kitchen F Q)
      → OnOk
          (λ _ t. Completed now task_id (board s.db) (board t.db))
          (complete_body w now task_id s)
  unfolding complete_body increment_counter_usage increment_machine_usage
      update_staff_efficiency_and_active insert_domain_event mark_order_part_completed_if_not_done
  complete_body-Completed now task_id s = completed_OnOk w P task_id now _ s λ task found ready.
      let done = record (board s.db) {
        tasks = completed_tasks now task.id s.db.task_dependencies s.db.tasks;
      } in
      or_throw-OnOk P task.assigned_machine_id _ _ _ λ _ _.
        or_throw-OnOk P task.assigned_staff_id _ _ _ λ _ _.
          or_throw-OnOk P task.started_at _ _ _ λ _ _. on_tx-OnOk w P _ _ _ (
            on_tx-OnOk w P _ _ _ (
              on_tx-OnOk w P _ _ _ (
                bind_OnOk (λ _ t. At done t.db) P _ _ (decrement_board task.id _)
                  λ children s₁ e₁.
                    bind_OnOk (λ _ t. At done t.db) P (announce_ready w now children s₁) _
                      (announce_ready-At done now children s₁ e₁)
                      λ _ s₂ e₂. on_tx-OnOk w P _ _ s₂ (
                        on_tx-OnOk w P _ _ _ (
                          bind_OnOk (λ _ t. At (advanced task.order_id (board s₂.db)) t.db) P _ _
                            (complete_order_board task.order_id _)
                            λ _ s₃ e₃.
                              (task, found, ready, e₃ ∙ ap (advanced task.order_id) e₂))))))
    where
      P : Unit {0} → Kitchen F Q → Type 0
      P _ t = Completed now task_id (board s.db) (board t.db)

      advanced : ℕ → Board F → Board F
      advanced order_id b = record b { orders = completed_orders order_id b.tasks b.orders }

  -- The requests themselves, which happen as a whole or not at all.
  pub start_task-Started :
      (task_id : ℕ) (s : Kitchen F Q)
      → AllOrNothing
          (λ _ db. Started (w.clock s.calls) task_id (board s.db) (board db))
          s.db
          (start_task w task_id s)
  unfolding start_task
  start_task-Started task_id s =
      transaction_atomic w _ (start_body w (w.clock s.calls) task_id) s λ s' same.
        subst
          (λ db.
            OnOk (λ _ t. Started (w.clock s.calls) task_id (board db) (board t.db))
              (start_body w (w.clock s.calls) task_id s'))
          same (start_body-Started (w.clock s.calls) task_id s')

  pub complete_task-Completed :
      (task_id : ℕ) (s : Kitchen F Q)
      → AllOrNothing
          (λ _ db. Completed (w.clock s.calls) task_id (board s.db) (board db))
          s.db
          (complete_task w task_id s)
  unfolding complete_task
  complete_task-Completed task_id s =
      transaction_atomic w _ (complete_body w (w.clock s.calls) task_id) s λ s' same.
        subst
          (λ db.
            OnOk (λ _ t. Completed (w.clock s.calls) task_id (board db) (board t.db))
              (complete_body w (w.clock s.calls) task_id s'))
          same (complete_body-Completed (w.clock s.calls) task_id s')
