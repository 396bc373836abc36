-- ===== src/Repository/Lifecycle/Outcomes.antt =====
-- What follows after a checked transition of a task: UpdateTaskStatusStarted and
-- UpdateTaskStatusCompleted.
use kitchen_ops.Base.{ℕ, ◌≡◌, Bool, true, some, find?, has_key, update_where}
use kitchen_ops.Models.{TaskStatus, TaskModel, is_assigned, is_started}
use kitchen_ops.Runtime.{
  Services, Kitchen, Error, Action, ◌>>◌, and_then, pure, guard, next_call, on_tx, not_assigned,
  not_started,
}
use kitchen_ops.Runtime.Outcomes.{OnOk, on_tx-OnOk, guard-OnOk, read_OnOk, assoc_OnOk}
use kitchen_ops.Repository.Allocation.{set_tasks}
use kitchen_ops.Repository.Lifecycle.{
  read_task_locked, start_row, complete_row, update_task_status_started,
  update_task_status_completed,
}

module _ {F Q B : Type 0} (w : Services F Q) (P : B → Kitchen F Q → Type 0) where
  module _ (test : TaskStatus → Bool) (refusal : ℕ → Error) (row : TaskModel F → TaskModel F) where
    checked : TaskModel F → Action F Q (TaskModel F)
    checked task = do
      guard (test task.status) (refusal task.id)
      on_tx w (set_tasks (update_where (has_key (λ t. t.id) task.id) row))
      pure (row task)

    -- Where the transition succeeds, the row was found, passed the test, and is written anew.
    transition_OnOk :
        (task_id : ℕ) (k : TaskModel F → Action F Q B) (s : Kitchen F Q)
        → ((task : TaskModel F)
            → find? (has_key (λ t. t.id) task_id) s.db.tasks ≡ some task
            → test task.status ≡ true
            → OnOk P (
                k
                  (row task)
                  (set_tasks
                    (update_where (has_key (λ t. t.id) task.id) row)
                    (next_call (next_call s))).1))
        → OnOk P (and_then (and_then (read_task_locked w task_id s) checked) k)
    unfolding read_task_locked checked
    transition_OnOk task_id k s h = assoc_OnOk P (read_task_locked w task_id s) checked k (
        read_OnOk w P (λ t. find? (has_key (λ r. r.id) task_id) t.db.tasks) _ _ s
          λ task found.
            assoc_OnOk P (guard (test task.status) (refusal task.id) (next_call s))
              (λ _. do
                on_tx w (set_tasks (update_where (has_key (λ t. t.id) task.id) row))
                pure (row task))
              k
              (guard-OnOk P (test task.status) (refusal task.id) _ (next_call s) λ passed.
                assoc_OnOk P
                  (on_tx w (set_tasks (update_where (has_key (λ t. t.id) task.id) row))
                    (next_call s))
                  (λ _. pure (row task)) k
                  (on_tx-OnOk w P _ _ (next_call s) (h task found passed))))

  pub started_OnOk :
      (task_id now : ℕ) (k : TaskModel F → Action F Q B) (s : Kitchen F Q)
      → ((task : TaskModel F)
          → find? (has_key (λ t. t.id) task_id) s.db.tasks ≡ some task
          → is_assigned task.status ≡ true
          → OnOk P (
              k
                (start_row now task)
                (set_tasks
                  (update_where (has_key (λ t. t.id) task.id) (start_row now))
                  (next_call (next_call s))).1))
      → OnOk P (and_then (update_task_status_started w task_id now s) k)
  unfolding update_task_status_started checked
  started_OnOk task_id now k s h =
      transition_OnOk is_assigned not_assigned (start_row now) task_id k s h

  pub completed_OnOk :
      (task_id now : ℕ) (k : TaskModel F → Action F Q B) (s : Kitchen F Q)
      → ((task : TaskModel F)
          → find? (has_key (λ t. t.id) task_id) s.db.tasks ≡ some task
          → is_started task.status ≡ true
          → OnOk P (
              k
                (complete_row now task)
                (set_tasks
                  (update_where (has_key (λ t. t.id) task.id) (complete_row now))
                  (next_call (next_call s))).1))
      → OnOk P (and_then (update_task_status_completed w task_id now s) k)
  unfolding update_task_status_completed checked
  completed_OnOk task_id now k s h =
      transition_OnOk is_started not_started (complete_row now) task_id k s h
