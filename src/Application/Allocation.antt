-- ===== src/Application/Allocation.antt =====
-- internal/application/allocation_service.go
pub mod Success
pub mod Progress
use kitchen_ops.Base.{
  ℕ, ◌-◌, ◌/◌, Option, none, some, List, [], ◌∷◌, ◌++◌, if◌then◌else◌, ltb, ◌==◌, Bytes, codes, pos,
}
use kitchen_ops.Base.Decimal.{format_uint, parse_uint}
use kitchen_ops.Models.{TaskModel, StaffModel, EventType, is_unassigned}
use kitchen_ops.Runtime.{
  Services, Action, Result, ok, err, ◌>>=◌, ◌>>◌, get, pure, throw, guard, or_throw, counter_busy,
  no_eligible_staff, missing_machine, transaction, second,
}
use kitchen_ops.Repository.Allocation.{
  lock_task_for_assignment, find_eligible_staff, lock_counter, lock_machine_for_task, lock_staff,
  update_task_assignment, increment_staff_active_tasks,
}
use kitchen_ops.Repository.Lifecycle.{
  increment_counter_usage, increment_machine_usage, get_task_by_id, requeue_expired_assigned_tasks,
}
use kitchen_ops.Repository.Orders.{mark_order_in_progress_if_confirmed}
use kitchen_ops.Repository.Events.{insert_domain_event}
use kitchen_ops.Application.Scores.{queue_score, pick_staff, enqueue, pop_top_n, assign_ttl}

-- fmt.Sprintf("task=%d,staff=%d,machine=%d", ...)
abbrev pub assigned_payload : ℕ → ℕ → ℕ → Bytes
assigned_payload task_id staff_id machine_id =
    codes "task="
    ++ (format_uint task_id
        ++ (codes ",staff="
            ++ (format_uint staff_id ++ (codes ",machine=" ++ format_uint machine_id))))

-- The result of an action, as a value.
abbrev pub attempt : {F Q A : Type 0} → Action F Q A → Action F Q (Result A)
attempt m s = (ok (m s).0, (m s).1)

module _ {F Q : Type 0} (w : Services F Q) where
  -- What the transaction writes once the task, the staff and the machine are chosen.
  unfoldable pub record_assignment : ℕ → TaskModel F → ℕ → ℕ → Action F Q ℕ
  record_assignment now task staff_id machine_id = do
    update_task_assignment w task.id staff_id machine_id now
    increment_counter_usage w task.counter_id (pos 1)
    increment_machine_usage w machine_id (pos 1)
    mark_order_in_progress_if_confirmed w task.order_id
    increment_staff_active_tasks w staff_id (pos 1)
    insert_domain_event w (codes "task") (format_uint task.id) (record {
      type = EventType.task_assigned;
      timestamp = now / second;
      payload = assigned_payload task.id staff_id machine_id;
    })
    pure task.id

  -- `if len(staffList) == 0`, and the rest of the transaction's body.
  unfoldable pub assign_among : ℕ → TaskModel F → List (StaffModel F) → Action F Q ℕ
  assign_among now task [] = throw no_eligible_staff
  assign_among now task (first ∷ rest) = do
    machine_id ← or_throw task.machine_id (missing_machine task.id)
    machine ← lock_machine_for_task w machine_id task.counter_id
    let pick = pick_staff w.float now first rest
    lock_staff w pick.id
    record_assignment now task pick.id machine.id

  unfoldable pub assign_task : ℕ → ℕ → Action F Q ℕ
  assign_task now task_id = do
    task ← lock_task_for_assignment w task_id
    counter ← lock_counter w task.counter_id
    guard (ltb counter.in_use counter.capacity) counter_busy
    staff_list ← find_eligible_staff w task.counter_id now
    assign_among now task staff_list

  -- A task that is still unassigned goes back to the queue; an error here is dropped.
  unfoldable pub put_back : ℕ → Action F Q (Result (Unit {0}))
  put_back task_id = attempt do
    task ← get_task_by_id w task_id
    s ← get
    if is_unassigned task.status
        then enqueue w (format_uint task.id)
            (queue_score w.float (w.clock s.calls) task.base_priority task.created_at)
        else pure tt

  -- The end of the loop's body: the new value of firstAssigned.
  unfoldable pub settle : ℕ → ℕ → Result ℕ → Action F Q ℕ
  settle task_id first_assigned (ok assigned_task_id) =
      pure (if first_assigned == 0 then assigned_task_id else first_assigned)
  settle task_id first_assigned (err e) = do put_back task_id; pure first_assigned

  unfoldable pub try_assign : ℕ → ℕ → Option ℕ → Action F Q ℕ
  try_assign now first_assigned none = pure first_assigned
  try_assign now first_assigned (some task_id) = do
    result ← attempt (transaction w (assign_task now task_id))
    settle task_id first_assigned result

  -- The loop over the popped ids.
  unfoldable pub assign_each : ℕ → ℕ → List Bytes → Action F Q ℕ
  assign_each now first_assigned [] = pure first_assigned
  assign_each now first_assigned (raw ∷ ids) = do
    first ← try_assign now first_assigned (parse_uint raw)
    assign_each now first ids

  -- `boosted` is the task's base priority plus 10.
  unfoldable pub enqueue_requeued : List (TaskModel F) → Action F Q (Unit {0})
  enqueue_requeued [] = pure tt
  enqueue_requeued (task ∷ tasks) = do
    s ← get
    let boosted = w.float.add task.base_priority (w.float.of_int (pos 10))
    enqueue w (format_uint task.id) (queue_score w.float (w.clock s.calls) boosted task.created_at)
    enqueue_requeued tasks

  unfoldable pub requeue_expired : ℕ → Action F Q (Unit {0})
  requeue_expired now = do
    requeued ← requeue_expired_assigned_tasks w (now - assign_ttl) 50
    enqueue_requeued requeued

  unfoldable pub allocate_once : Action F Q ℕ
  allocate_once = do
    s ← get
    let now = w.clock s.calls
    requeue_expired now
    ids ← pop_top_n w 20
    assign_each now 0 ids
