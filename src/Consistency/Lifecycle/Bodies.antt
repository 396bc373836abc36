-- ===== src/Consistency/Lifecycle/Bodies.antt =====
-- The transactions move task rows by the lifecycle's steps only.
use kitchen_ops.Base.{
  ℕ, ◌≡◌, refl, Bool, true, false, ◌&&◌, some, List, [], ◌∷◌, ◌==◌, find?, has_key, find-holds,
  find_by_key, any, ltb, if◌then◌else◌, arith,
}
use kitchen_ops.Models.{TaskModel, StaffModel, TaskDependencyModel, Database, is_unassigned}
use kitchen_ops.Runtime.{Services, Kitchen, pure, counter_busy}
use kitchen_ops.Runtime.Outcomes.{
  OnOk, on_tx-OnOk, call-OnOk, or_throw-OnOk, guard-OnOk, read_OnOk, bind_OnOk, on_tx_last,
  Preserves, bind-Preserves, if_Preserves,
}
use kitchen_ops.Repository.Allocation.{
  lock_task_for_assignment, find_eligible_staff, lock_counter, lock_machine_for_task, lock_staff,
  update_task_assignment, increment_staff_active_tasks, assign_row,
}
use kitchen_ops.Repository.Lifecycle.{
  increment_counter_usage, increment_machine_usage, update_staff_efficiency_and_active,
  decrement_dependent_pending_deps, is_dependent, unblock_row, start_row, complete_row,
}
use kitchen_ops.Repository.Lifecycle.Outcomes.{started_OnOk, completed_OnOk}
use kitchen_ops.Repository.Orders.{
  mark_order_in_progress_if_confirmed, mark_order_part_completed_if_not_done, close_order,
  complete_order_if_all_tasks_done,
}
use kitchen_ops.Repository.Events.{insert_domain_event}
use kitchen_ops.Application.Scores.{enqueue, pick_staff}
use kitchen_ops.Application.Allocation.{record_assignment, assign_among, assign_task}
use kitchen_ops.Application.Tasks.{start_body, announce_child, announce_ready, complete_body}
use kitchen_ops.Consistency.Lifecycle.{
  assigns, starts, completes, unblocks, Evolved, Evolved-update, Evolved-update_where,
}

module _ {F Q : Type 0} (w : Services F Q) (before : List (TaskModel F)) where
  abbrev pub After : Database F → Type 0
  After db = Evolved before db.tasks

  abbrev Safe : {A : Type 0} → A → Kitchen F Q → Type 0
  Safe _ s = Evolved before s.db.tasks

  record_assignment-Evolved :
      (now staff_id machine_id : ℕ) (task : TaskModel F) (s : Kitchen F Q)
      → find? (has_key (λ t. t.id) task.id) s.db.tasks ≡ some task
      → is_unassigned task.status ≡ true
      → task.pending_deps ≡ 0
      → Evolved before s.db.tasks
      → OnOk Safe (record_assignment w now task staff_id machine_id s)
  unfolding record_assignment update_task_assignment increment_counter_usage increment_machine_usage
      mark_order_in_progress_if_confirmed increment_staff_active_tasks insert_domain_event
  record_assignment-Evolved now staff_id machine_id task s found free ready e =
      on_tx-OnOk w Safe _ _ s (
        on_tx-OnOk w Safe _ _ _ (
          on_tx-OnOk w Safe _ _ _ (
            on_tx-OnOk w Safe _ _ _ (
              on_tx-OnOk w Safe _ _ _ (
                on_tx-OnOk w Safe _ _ _ (
                  Evolved-update before s.db.tasks task.id task (assign_row staff_id machine_id now)
                    found (λ r. refl) (assigns staff_id machine_id now free ready refl) e))))))

  assign_among-Evolved :
      (now : ℕ) (task : TaskModel F) (staff_list : List (StaffModel F)) (s : Kitchen F Q)
      → find? (has_key (λ t. t.id) task.id) s.db.tasks ≡ some task
      → is_unassigned task.status ≡ true
      → task.pending_deps ≡ 0
      → Evolved before s.db.tasks
      → OnOk Safe (assign_among w now task staff_list s)
  unfolding assign_among lock_machine_for_task lock_staff
  assign_among-Evolved now task [] s found free ready e = tt
  assign_among-Evolved now task (first ∷ rest) s found free ready e =
      or_throw-OnOk Safe task.machine_id _ _ s λ machine_id _. read_OnOk w Safe _ _ _ _ λ machine _.
        read_OnOk w Safe _ _ _ _ λ _ _.
          record_assignment-Evolved now (pick_staff w.float now first rest).id machine.id task _
            found free ready e

  pub assign_task-Evolved :
      (now task_id : ℕ) → Preserves {F = F} {Q = Q} After (assign_task w now task_id)
  unfolding assign_task lock_task_for_assignment lock_counter find_eligible_staff
  assign_task-Evolved now task_id s e = read_OnOk w Safe _ _ _ s λ task foundt.
      read_OnOk w Safe _ _ _ _ λ c _.
        guard-OnOk (Safe {A = ℕ}) (ltb c.in_use c.capacity) counter_busy _ _ λ _.
          on_tx-OnOk w Safe _ _ _ (
            let passed = find-holds _ s.db.tasks task foundt in
            assign_among-Evolved now task _ _ (find_by_key (λ t. t.id) _ s.db.tasks task e.0 foundt)
              (ground arith) (ground arith) e)

  pub start_body-Evolved :
      (now task_id : ℕ) → Preserves {F = F} {Q = Q} After (start_body w now task_id)
  unfolding start_body insert_domain_event
  start_body-Evolved now task_id s e = started_OnOk w Safe task_id now _ s λ task found ready.
      or_throw-OnOk Safe task.assigned_machine_id _ _ _ λ _ _. on_tx_last w Safe _ _ (
        Evolved-update before s.db.tasks task.id task (start_row now)
          (find_by_key (λ t. t.id) _ s.db.tasks task e.0 found) (λ r. refl) (starts now ready refl)
          e)

  dependent-unassigned :
      (task_id : ℕ) (t : TaskModel F) (deps : List TaskDependencyModel)
      → any (is_dependent task_id t) deps ≡ true
      → is_unassigned t.status ≡ true
  dependent-unassigned task_id t [] h = cc
  dependent-unassigned task_id t (d ∷ deps) h = ground (arith, dependent-unassigned task_id t deps)

  decrement-Evolved :
      (task_id : ℕ) → Preserves {F = F} {Q = Q} After (decrement_dependent_pending_deps w task_id)
  unfolding decrement_dependent_pending_deps
  decrement-Evolved task_id s e = on_tx-OnOk w Safe _ _ s (
      on_tx_last w Safe _ _ (
        Evolved-update_where before s.db.tasks
          (λ t. any (is_dependent task_id t) s.db.task_dependencies) unblock_row (λ r. refl)
          (λ r h. unblocks (dependent-unassigned task_id r s.db.task_dependencies h) refl) e))

  announce_child-Evolved :
      (now : ℕ) (child : TaskModel F) → Preserves {F = F} {Q = Q} After (announce_child w now child)
  unfolding announce_child enqueue insert_domain_event
  announce_child-Evolved now child s e = call-OnOk w Safe _ _ s (on_tx_last w Safe _ _ e)

  announce_ready-Evolved :
      (now : ℕ) (children : List (TaskModel F))
      → Preserves {F = F} {Q = Q} After (announce_ready w now children)
  unfolding announce_ready
  announce_ready-Evolved now [] = λ s e. e
  announce_ready-Evolved now (child ∷ children) =
      let is_ready = is_unassigned child.status && (child.pending_deps == 0) in
      bind-Preserves After (if is_ready then announce_child w now child else pure tt)
        (λ _. announce_ready w now children)
        (if_Preserves After is_ready (announce_child w now child) (pure tt)
          (announce_child-Evolved now child) (λ s e. e))
        (λ _. announce_ready-Evolved now children)

  complete_order-Evolved :
      (order_id : ℕ) → Preserves {F = F} {Q = Q} After (complete_order_if_all_tasks_done w order_id)
  unfolding complete_order_if_all_tasks_done close_order
  complete_order-Evolved order_id s e =
      on_tx-OnOk w Safe _
        (λ remaining. if ltb 0 remaining then pure false else close_order w order_id) s
        (if_Preserves After _ (pure false) (close_order w order_id) (λ s' e'. e')
          (λ s' e'. on_tx-OnOk w Safe _ _ s' e') _ e)

  pub complete_body-Evolved :
      (now task_id : ℕ) → Preserves {F = F} {Q = Q} After (complete_body w now task_id)
  unfolding complete_body increment_counter_usage increment_machine_usage
      update_staff_efficiency_and_active insert_domain_event mark_order_part_completed_if_not_done
  complete_body-Evolved now task_id s e = completed_OnOk w Safe task_id now _ s λ task found ready.
      or_throw-OnOk Safe task.assigned_machine_id _ _ _ λ _ _.
        or_throw-OnOk Safe task.assigned_staff_id _ _ _ λ _ _.
          or_throw-OnOk Safe task.started_at _ _ _ λ _ _. on_tx-OnOk w Safe _ _ _ (
            on_tx-OnOk w Safe _ _ _ (
              on_tx-OnOk w Safe _ _ _ (
                bind_OnOk (Safe {A = List (TaskModel F)}) Safe _ _
                  (decrement-Evolved task.id _ (
                    Evolved-update before s.db.tasks task.id task (complete_row now)
                      (find_by_key (λ t. t.id) _ s.db.tasks task e.0 found) (λ r. refl)
                      (completes now ready refl) e))
                  λ children s₁ e₁.
                    bind_OnOk (Safe {A = Unit {0}}) Safe _ _
                      (announce_ready-Evolved now children s₁ e₁)
                      λ _ s₂ e₂. on_tx-OnOk w Safe _ _ s₂ (
                        on_tx-OnOk w Safe _ _ _ (
                          bind_OnOk (Safe {A = Bool}) Safe _ _
                            (complete_order-Evolved task.order_id _ e₂) (λ _ _ e₃. e₃))))))
