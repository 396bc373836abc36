-- ===== src/Application/Tasks/Success.antt =====
-- StartTask and CompleteTask succeed where no call fails and the task is in the status they ask for.
use kitchen_ops.Base.{
  ℕ, ◌≡◌, Bool, true, false, ◌&&◌, none, some, List, [], ◌∷◌, ◌==◌, find?, has_key, update_where,
  if◌then◌else◌, ltb, ap, ◌∙◌,
}
use kitchen_ops.Models.{TaskModel, TaskStatus, is_assigned, is_started, is_unassigned}
use kitchen_ops.Runtime.{
  Services, Kitchen, Error, Action, ◌>>◌, pure, guard, and_then, next_call, on_tx, not_assigned,
  not_started,
}
use kitchen_ops.Runtime.Success.{
  OnDone, IsOpen, on_tx-OnDone, call-OnDone, read_OnDone, on_tx_last_done, bind_OnDone,
  assoc_OnDone, transaction_done, OnDone-map,
}
use kitchen_ops.Repository.Allocation.{set_tasks}
use kitchen_ops.Repository.Lifecycle.{
  read_task_locked, update_task_status_started, update_task_status_completed, start_row,
  complete_row, increment_counter_usage, increment_machine_usage,
  update_staff_efficiency_and_active, decrement_dependent_pending_deps,
}
use kitchen_ops.Repository.Orders.{
  mark_order_part_completed_if_not_done, close_order, complete_order_if_all_tasks_done,
}
use kitchen_ops.Repository.Events.{insert_domain_event}
use kitchen_ops.Application.Scores.{enqueue}
use kitchen_ops.Application.Tasks.{
  start_body, start_task, announce_child, announce_ready, complete_body, complete_task,
}

module _ {F Q B : Type 0} (w : Services F Q) (quiet : (n : ℕ) → w.fails n ≡ none)
    (P : B → Kitchen F Q → Type 0) where
  module _ (test : TaskStatus → Bool) (refusal : ℕ → Error) (row : TaskModel F → TaskModel F) where
    checked : TaskModel F → Action F Q (TaskModel F)
    checked task = do
      guard (test task.status) (refusal task.id)
      on_tx w (set_tasks (update_where (has_key (λ t. t.id) task.id) row))
      pure (row task)

    -- A checked transition of a row that is there and passes the test.
    transition_done :
        (task_id : ℕ) (k : TaskModel F → Action F Q B) (s : Kitchen F Q) (task : TaskModel F)
        → s.aborted ≡ false
        → find? (has_key (λ t. t.id) task_id) s.db.tasks ≡ some task
        → test task.status ≡ true
        → OnDone P (
            k
              (row task)
              (set_tasks
                (update_where (has_key (λ t. t.id) task.id) row)
                (next_call (next_call s))).1)
        → OnDone P (and_then (and_then (read_task_locked w task_id s) checked) k)
    unfolding read_task_locked checked
    transition_done task_id k s task open_tx found passed h =
        assoc_OnDone P (read_task_locked w task_id s) checked k (
          read_OnDone w quiet P (λ t. find? (has_key (λ r. r.id) task_id) t.db.tasks) _ _ s task
            open_tx found
            (rw passed (
              assoc_OnDone P
                (on_tx w (set_tasks (update_where (has_key (λ t. t.id) task.id) row)) (next_call s))
                (λ _. pure (row task)) k (on_tx-OnDone w quiet P _ _ (next_call s) open_tx h))))

module _ {F Q : Type 0} (w : Services F Q) (quiet : (n : ℕ) → w.fails n ≡ none) where
  abbrev Open : {A : Type 0} → A → Kitchen F Q → Type 0
  Open = IsOpen

  start_body_done :
      (now task_id machine_id : ℕ) (s : Kitchen F Q) (task : TaskModel F)
      → s.aborted ≡ false
      → find? (has_key (λ t. t.id) task_id) s.db.tasks ≡ some task
      → is_assigned task.status ≡ true
      → task.assigned_machine_id ≡ some machine_id
      → OnDone Open (start_body w now task_id s)
  unfolding start_body update_task_status_started insert_domain_event checked
  start_body_done now task_id machine_id s task open_tx found passed machine =
      transition_done w quiet Open is_assigned not_assigned (start_row now) task_id _ s task open_tx
        found passed (rw machine (on_tx_last_done w quiet Open _ _ open_tx open_tx))

  announce_if_done :
      (b : Bool) (now : ℕ) (child : TaskModel F) (s : Kitchen F Q)
      → s.aborted ≡ false
      → OnDone Open ((if b then announce_child w now child else pure tt) s)
  unfolding announce_child enqueue insert_domain_event
  announce_if_done true now child s open_tx =
      call-OnDone w quiet Open _ _ s (on_tx_last_done w quiet Open _ _ open_tx open_tx)
  announce_if_done false now child s open_tx = open_tx

  announce_ready_done :
      (now : ℕ) (children : List (TaskModel F)) (s : Kitchen F Q)
      → s.aborted ≡ false
      → OnDone Open (announce_ready w now children s)
  unfolding announce_ready
  announce_ready_done now [] s open_tx = open_tx
  announce_ready_done now (child ∷ children) s open_tx =
      bind_OnDone (Open {A = Unit {0}}) Open _ (λ _. announce_ready w now children)
        (announce_if_done (is_unassigned child.status && (child.pending_deps == 0)) now child s
          open_tx)
        (λ _ t open_t. announce_ready_done now children t open_t)

  complete_order_done :
      (order_id : ℕ) (s : Kitchen F Q)
      → s.aborted ≡ false
      → OnDone Open (complete_order_if_all_tasks_done w order_id s)
  unfolding complete_order_if_all_tasks_done close_order
  complete_order_done order_id s open_tx =
      on_tx-OnDone w quiet Open _ (λ n. if ltb 0 n then pure false else close_order w order_id) s
        open_tx (go _)
    where
      go :
          (b : Bool)
          → OnDone Open ((if b then pure false else close_order w order_id) (next_call s))
      go true = open_tx
      go false = on_tx-OnDone w quiet Open _ (λ _. pure true) (next_call s) open_tx open_tx

  complete_body_done :
      (now task_id staff_id machine_id started_at : ℕ) (s : Kitchen F Q) (task : TaskModel F)
      → s.aborted ≡ false
      → find? (has_key (λ t. t.id) task_id) s.db.tasks ≡ some task
      → is_started task.status ≡ true
      → task.assigned_machine_id ≡ some machine_id
      → task.assigned_staff_id ≡ some staff_id
      → task.started_at ≡ some started_at
      → OnDone Open (complete_body w now task_id s)
  unfolding complete_body update_task_status_completed increment_counter_usage
      increment_machine_usage update_staff_efficiency_and_active decrement_dependent_pending_deps
      insert_domain_event mark_order_part_completed_if_not_done checked
  complete_body_done now task_id staff_id machine_id started_at s task open_tx found passed machine
        staff started =
      transition_done w quiet Open is_started not_started (complete_row now) task_id _ s task
        open_tx found passed
        (rw (machine, staff, started)
          (on_tx-OnDone w quiet Open _ _ _ open_tx (
            on_tx-OnDone w quiet Open _ _ _ open_tx (
              on_tx-OnDone w quiet Open _ _ _ open_tx (
                bind_OnDone (Open {A = List (TaskModel F)}) Open _ _
                  (on_tx-OnDone w quiet Open _ _ _ open_tx
                    (on_tx_last_done w quiet Open _ _ open_tx open_tx))
                  λ children s₁ open₁.
                    bind_OnDone (Open {A = Unit {0}}) Open (announce_ready w now children s₁) _
                      (announce_ready_done now children s₁ open₁)
                      λ _ s₂ open₂. on_tx-OnDone w quiet Open _ _ s₂ open₂ (
                        on_tx-OnDone w quiet Open _ _ _ open₂ (
                          bind_OnDone (Open {A = Bool}) Open _ _
                            (complete_order_done task.order_id _ open₂) (λ _ _ open₃. open₃))))))))

module _ {F Q : Type 0} (w : Services F Q) (quiet : (n : ℕ) → w.fails n ≡ none) where
  pub start_task_done :
      (task_id machine_id : ℕ) (s : Kitchen F Q) (task : TaskModel F)
      → find? (has_key (λ t. t.id) task_id) s.db.tasks ≡ some task
      → is_assigned task.status ≡ true
      → task.assigned_machine_id ≡ some machine_id
      → OnDone (λ _ _. Unit) (start_task w task_id s)
  unfolding start_task
  start_task_done task_id machine_id s task found passed machine =
      transaction_done w quiet (λ _ _. Unit) _ s
        λ s' same open_tx.
          OnDone-map IsOpen _ _
            (start_body_done w quiet (w.clock s.calls) task_id machine_id s' task open_tx
              (ap (λ db. find? (has_key (λ t. t.id) task_id) db.tasks) same ∙ found) passed machine)
            λ _ _ o. (o, tt)

  pub complete_task_done :
      (task_id staff_id machine_id started_at : ℕ) (s : Kitchen F Q) (task : TaskModel F)
      → find? (has_key (λ t. t.id) task_id) s.db.tasks ≡ some task
      → is_started task.status ≡ true
      → task.assigned_machine_id ≡ some machine_id
      → task.assigned_staff_id ≡ some staff_id
      → task.started_at ≡ some started_at
      → OnDone (λ _ _. Unit) (complete_task w task_id s)
  unfolding complete_task
  complete_task_done task_id staff_id machine_id started_at s task found passed machine staff
        started =
      transaction_done w quiet (λ _ _. Unit) _ s
        λ s' same open_tx.
          OnDone-map IsOpen _ _
            (complete_body_done w quiet (w.clock s.calls) task_id staff_id machine_id started_at s'
              task open_tx (ap (λ db. find? (has_key (λ t. t.id) task_id) db.tasks) same ∙ found)
              passed machine staff started)
            λ _ _ o. (o, tt)
