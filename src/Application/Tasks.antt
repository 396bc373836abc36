-- ===== src/Application/Tasks.antt =====
-- internal/application/task_service.go
pub mod Success
use kitchen_ops.Base.{ℕ, ◌/◌, ◌&&◌, List, [], ◌∷◌, if◌then◌else◌, ◌==◌, codes, negsuc}
use kitchen_ops.Base.Decimal.{format_uint}
use kitchen_ops.Models.{TaskModel, EventType, DomainEvent, is_unassigned}
use kitchen_ops.Runtime.{
  Services, Action, ◌>>=◌, ◌>>◌, get, pure, or_throw, missing_assigned_machine, missing_metadata,
  transaction, second,
}
use kitchen_ops.Repository.Lifecycle.{
  update_task_status_started, update_task_status_completed, increment_counter_usage,
  increment_machine_usage, update_staff_efficiency_and_active, decrement_dependent_pending_deps,
  get_task_by_id,
}
use kitchen_ops.Repository.Orders.{
  mark_order_part_completed_if_not_done, complete_order_if_all_tasks_done,
}
use kitchen_ops.Repository.Events.{insert_domain_event}
use kitchen_ops.Application.Scores.{queue_score, enqueue}

abbrev pub task_event : EventType → ℕ → ℕ → DomainEvent
task_event type now task_id = record {
  type = type;
  timestamp = now / second;
  payload = format_uint task_id;
}

module _ {F Q : Type 0} (w : Services F Q) where
  unfoldable pub start_body : ℕ → ℕ → Action F Q (Unit {0})
  start_body now task_id = do
    task ← update_task_status_started w task_id now
    or_throw task.assigned_machine_id (missing_assigned_machine task.id)
    insert_domain_event w (codes "task") (format_uint task.id)
        (task_event EventType.task_started now task.id)

  unfoldable pub start_task : ℕ → Action F Q (Unit {0})
  start_task task_id = do s ← get; transaction w (start_body (w.clock s.calls) task_id)

  unfoldable pub announce_child : ℕ → TaskModel F → Action F Q (Unit {0})
  announce_child now child = do
    s ← get
    enqueue w (format_uint child.id)
        (queue_score w.float (w.clock s.calls) child.base_priority child.created_at)
    insert_domain_event w (codes "task") (format_uint child.id)
        (task_event EventType.task_ready now child.id)

  -- The loop over the children that the decrement has made ready.
  unfoldable pub announce_ready : ℕ → List (TaskModel F) → Action F Q (Unit {0})
  announce_ready now [] = pure tt
  announce_ready now (child ∷ children) = do
    if is_unassigned child.status && (child.pending_deps == 0)
        then announce_child now child
        else pure tt
    announce_ready now children

  unfoldable pub complete_body : ℕ → ℕ → Action F Q (Unit {0})
  complete_body now task_id = do
    task ← update_task_status_completed w task_id now
    machine_id ← or_throw task.assigned_machine_id (missing_metadata task.id)
    staff_id ← or_throw task.assigned_staff_id (missing_metadata task.id)
    started_at ← or_throw task.started_at (missing_metadata task.id)
    increment_counter_usage w task.counter_id (negsuc 0)
    increment_machine_usage w machine_id (negsuc 0)
    update_staff_efficiency_and_active w staff_id (negsuc 0) task.estimate_secs started_at now
    ready_children ← decrement_dependent_pending_deps w task.id
    announce_ready now ready_children
    insert_domain_event w (codes "task") (format_uint task.id)
        (task_event EventType.task_completed now task.id)
    mark_order_part_completed_if_not_done w task.order_id
    complete_order_if_all_tasks_done w task.order_id
    pure tt

  unfoldable pub complete_task : ℕ → Action F Q (Unit {0})
  complete_task task_id = do s ← get; transaction w (complete_body (w.clock s.calls) task_id)

  unfoldable pub get_task : ℕ → Action F Q (TaskModel F)
  get_task task_id = get_task_by_id w task_id
