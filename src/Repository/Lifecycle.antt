-- ===== src/Repository/Lifecycle.antt =====
-- internal/repository/task_lifecycle_repo.go
pub mod Outcomes
use kitchen_ops.Base.{
  ℕ, ◌+◌, ◌/◌, Bool, true, false, not, ◌&&◌, Option, none, some, List, [], ◌∷◌, ◌++◌, if◌then◌else◌,
  ltb, leb, ◌==◌, where_, find?, take, sort, any, is_some, update_where, has_key, ℤ, pos, negsuc,
  greatest_add, codes, ◌-◌,
}
use kitchen_ops.Base.Decimal.{format_uint}
use kitchen_ops.Models.{
  TaskStatus, TaskModel, StaffModel, TaskDependencyModel, CounterModel, MachineModel, Database,
  EventType, DomainEvent, is_unassigned, is_assigned, is_started,
}
use kitchen_ops.Runtime.{
  Services, Float64, Kitchen, Action, ◌>>=◌, ◌>>◌, get, pure, guard, or_throw, not_found,
  not_assigned, not_started, call, on_tx, transaction, second, time_sub, arrange,
}
use kitchen_ops.Repository.Allocation.{set_tasks, set_staff, set_counters, set_machines, join}
use kitchen_ops.Repository.Events.{get_or_zero, insert_domain_event}

-- The SETs of the task's transitions.
abbrev pub start_row : {F : Type 0} → ℕ → TaskModel F → TaskModel F
start_row started_at t = record t { status = TaskStatus.started; started_at = some started_at }

abbrev pub complete_row : {F : Type 0} → ℕ → TaskModel F → TaskModel F
complete_row completed_at t = record t {
  status = TaskStatus.completed;
  completed_at = some completed_at;
}

abbrev pub requeue_row : {F : Type 0} → TaskModel F → TaskModel F
requeue_row t = record t {
  status = TaskStatus.unassigned;
  assigned_staff_id = none;
  assigned_machine_id = none;
  assigned_at = none;
  claimed_by = none;
  claimed_until = none;
}

-- in_use = GREATEST(in_use + delta, 0), updated_at = now
abbrev pub use_counter : ℤ → ℕ → CounterModel → CounterModel
use_counter delta now c = record c { in_use = greatest_add c.in_use delta; updated_at = now }

abbrev pub use_machine : ℤ → ℕ → MachineModel → MachineModel
use_machine delta now m = record m { in_use = greatest_add m.in_use delta; updated_at = now }

-- int(completedAt.Sub(startedAt).Seconds()), and 1 in place of what is not positive.
abbrev pub actual_secs : ℕ → ℕ → ℕ
actual_secs started_at completed_at =
    let secs = (completed_at - started_at) / second in if leb secs 0 then 1 else secs

-- The SET of a finished task on its staff row.
abbrev pub credit_row :
    {F : Type 0} → Float64 F → Float64 F → ℤ → ℤ → ℕ → StaffModel F → StaffModel F
credit_row float numeric active_delta estimate_secs secs r = record r {
  active_tasks = greatest_add r.active_tasks active_delta;
  active_seconds = r.active_seconds + secs;
  efficiency_multiplier = numeric.add (numeric.mul r.efficiency_multiplier (numeric.decimal 85 2)) (
      numeric.mul (float.div (float.of_int estimate_secs) (float.of_int (pos secs)))
        (numeric.decimal 15 2));
}

-- d.depends_on_task_id = ? AND d.task_id = t.id AND t.status = 'UNASSIGNED'
abbrev pub is_dependent : {F : Type 0} → ℕ → TaskModel F → TaskDependencyModel → Bool
is_dependent completed_task_id t d =
    (d.depends_on_task_id == completed_task_id) && ((d.task_id == t.id) && is_unassigned t.status)

abbrev pub unblock_row : {F : Type 0} → TaskModel F → TaskModel F
unblock_row t = record t { pending_deps = greatest_add t.pending_deps (negsuc 0) }

module _ {F Q : Type 0} (w : Services F Q) where
  -- SELECT ... WHERE id = ? FOR UPDATE
  unfoldable pub read_task_locked : ℕ → Action F Q (TaskModel F)
  read_task_locked task_id = do
    row ← on_tx w λ s. (find? (has_key (λ t. t.id) task_id) s.db.tasks, s)
    or_throw row not_found

  unfoldable pub update_task_status_started : ℕ → ℕ → Action F Q (TaskModel F)
  update_task_status_started task_id started_at = do
    task ← read_task_locked task_id
    guard (is_assigned task.status) (not_assigned task.id)
    on_tx w (set_tasks (update_where (has_key (λ t. t.id) task.id) (start_row started_at)))
    pure (start_row started_at task)

  unfoldable pub update_task_status_completed : ℕ → ℕ → Action F Q (TaskModel F)
  update_task_status_completed task_id completed_at = do
    task ← read_task_locked task_id
    guard (is_started task.status) (not_started task.id)
    on_tx w (set_tasks (update_where (has_key (λ t. t.id) task.id) (complete_row completed_at)))
    pure (complete_row completed_at task)

  unfoldable pub increment_counter_usage : ℕ → ℤ → Action F Q (Unit {0})
  increment_counter_usage counter_id delta = do
    s ← get
    on_tx w (
        set_counters
          (update_where (has_key (λ c. c.id) counter_id) (use_counter delta (w.clock s.calls))))

  unfoldable pub increment_machine_usage : ℕ → ℤ → Action F Q (Unit {0})
  increment_machine_usage machine_id delta = do
    s ← get
    on_tx w (
        set_machines
          (update_where (has_key (λ m. m.id) machine_id) (use_machine delta (w.clock s.calls))))

  unfoldable pub decrement_dependent_pending_deps : ℕ → Action F Q (List (TaskModel F))
  decrement_dependent_pending_deps completed_task_id = do
    on_tx w λ s.
        set_tasks
          (update_where (λ t. any (is_dependent completed_task_id t) s.db.task_dependencies)
            unblock_row)
          s
    on_tx w λ s. (
      join (λ t d. is_dependent completed_task_id t d && (t.pending_deps == 0))
          (arrange w s.calls (λ t. t.id) s.db.tasks) s.db.task_dependencies,
      s,
    )

  unfoldable pub update_staff_efficiency_and_active : ℕ → ℤ → ℤ → ℕ → ℕ → Action F Q (Unit {0})
  update_staff_efficiency_and_active staff_id active_delta estimate_secs started_at completed_at =
      on_tx w (
        set_staff (
          update_where (has_key (λ r. r.id) staff_id) (
            credit_row w.float w.numeric active_delta estimate_secs
              (actual_secs started_at completed_at))))

  unfoldable pub get_task_by_id : ℕ → Action F Q (TaskModel F)
  get_task_by_id task_id = do
    row ← call w λ s. (find? (has_key (λ t. t.id) task_id) s.db.tasks, s)
    or_throw row not_found

-- status = 'ASSIGNED' AND started_at IS NULL AND assigned_at IS NOT NULL AND assigned_at < cutoff
abbrev pub is_expired : {F : Type 0} → ℕ → TaskModel F → Bool
is_expired cutoff t =
    is_assigned t.status
    && (not (is_some t.started_at)
        && (is_some t.assigned_at && ltb (get_or_zero t.assigned_at) cutoff))

module _ {F Q : Type 0} (w : Services F Q) where
  unfoldable pub release_staff : Option ℕ → Action F Q (Unit {0})
  release_staff none = pure tt
  release_staff (some staff_id) = on_tx w (
      set_staff (
        update_where (has_key (λ r. r.id) staff_id)
          (λ r. record r { active_tasks = greatest_add r.active_tasks (negsuc 0) })))

  unfoldable pub release_machine : Option ℕ → Action F Q (Unit {0})
  release_machine none = pure tt
  release_machine (some machine_id) = do
    s ← get
    on_tx w (
        set_machines (
          update_where (has_key (λ m. m.id) machine_id) (use_machine (negsuc 0) (w.clock s.calls))))

  -- The body of the loop over the expired tasks. The returned row keeps its claim columns.
  unfoldable pub requeue_task : TaskModel F → Action F Q (TaskModel F)
  requeue_task task = do
    on_tx w (set_tasks (update_where (has_key (λ t. t.id) task.id) requeue_row))
    release_staff task.assigned_staff_id
    s ← get
    on_tx w (
        set_counters (
          update_where (has_key (λ c. c.id) task.counter_id)
            (use_counter (negsuc 0) (w.clock s.calls))))
    release_machine task.assigned_machine_id
    s' ← get
    insert_domain_event w (codes "task") (format_uint task.id) (record {
      type = EventType.task_requeued;
      timestamp = w.clock s'.calls / second;
      payload = format_uint task.id;
    })
    pure (record task {
      status = TaskStatus.unassigned;
      assigned_staff_id = none;
      assigned_machine_id = none;
      assigned_at = none;
    })

  unfoldable pub requeue_all : List (TaskModel F) → Action F Q (List (TaskModel F))
  requeue_all [] = pure []
  requeue_all (task ∷ tasks) = do
    requeued ← requeue_task task
    rest ← requeue_all tasks
    pure (requeued ∷ rest)

  unfoldable pub expired_tasks : ℕ → ℕ → Action F Q (List (TaskModel F))
  expired_tasks cutoff limit = on_tx w λ s. (
    take limit (
        sort (λ a b. ltb (get_or_zero a.assigned_at) (get_or_zero b.assigned_at))
          (arrange w s.calls (λ t. t.id)
            (where_ (λ t. is_expired cutoff t && not (w.locked s.calls t.id)) s.db.tasks))),
    s,
  )

  unfoldable pub requeue_body : ℕ → ℕ → Action F Q (List (TaskModel F))
  requeue_body cutoff limit = do
    tasks ← expired_tasks cutoff (if leb limit 0 then 50 else limit)
    requeue_all tasks

  unfoldable pub requeue_expired_assigned_tasks : ℕ → ℕ → Action F Q (List (TaskModel F))
  requeue_expired_assigned_tasks cutoff limit = transaction w (requeue_body cutoff limit)
