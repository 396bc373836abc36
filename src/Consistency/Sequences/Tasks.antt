-- ===== src/Consistency/Sequences/Tasks.antt =====
-- A start and a completion draw no order's or task's id.
use kitchen_ops.Base.{ℕ, refl, false, ◌&&◌, ◌||◌, List, [], ◌∷◌, negsuc, ltb, ◌==◌, codes}
use kitchen_ops.Base.Decimal.{format_uint}
use kitchen_ops.Base.Text.{contains}
use kitchen_ops.Models.{TaskModel, EventType, is_unassigned, is_assigned, is_started}
use kitchen_ops.Runtime.{
  ◌>>◌, not_assigned, not_started, Services, Result, ok, err, pure, throw, ◌>>=◌,
}
use kitchen_ops.Runtime.Sequences.{
  IsSteady, bind_ids, done_ids, or_throw_ids, if_ids, guard_ids, on_tx_ids, call_ids,
}
use kitchen_ops.Repository.Lifecycle.{
  read_task_locked, update_task_status_started, update_task_status_completed,
  increment_counter_usage, increment_machine_usage, decrement_dependent_pending_deps,
  update_staff_efficiency_and_active,
}
use kitchen_ops.Repository.Orders.{
  close_order, complete_order_if_all_tasks_done, mark_order_part_completed_if_not_done,
}
use kitchen_ops.Repository.Events.{insert_domain_event}
use kitchen_ops.Application.Scores.{enqueue}
use kitchen_ops.Application.Tasks.{
  task_event, start_body, announce_child, announce_ready, complete_body,
}
use kitchen_ops.Temporal.{error_text, forgive}

module _ {F Q : Type 0} (w : Services F Q) (orders tasks : ℕ) where
  pub start_body_ids : (now task_id : ℕ) → IsSteady orders tasks (start_body w now task_id)
  unfolding start_body update_task_status_started read_task_locked insert_domain_event
  start_body_ids now task_id s h =
      bind_ids _ _
        (bind_ids _ _
          (bind_ids _ _ (on_tx_ids w _ s refl refl h) (λ row s h. or_throw_ids row _ s h))
          λ task s h.
            bind_ids _ _ (guard_ids (is_assigned task.status) (not_assigned task.id) s h)
              λ _ s h. bind_ids _ _ (on_tx_ids w _ s refl refl h) λ _ s h. done_ids _ s h)
        λ task s h.
          bind_ids _ _ (or_throw_ids task.assigned_machine_id _ s h)
            λ _ s h. on_tx_ids w _ s refl refl h

  announce_ready_ids :
      (now : ℕ) (rows : List (TaskModel F)) → IsSteady orders tasks (announce_ready w now rows)
  unfolding announce_ready announce_child enqueue insert_domain_event
  announce_ready_ids now [] s h = done_ids _ s h
  announce_ready_ids now (child ∷ rows) s h =
      bind_ids _ _
        (if_ids (is_unassigned child.status && (child.pending_deps == 0))
          (announce_child w now child) (pure tt) s
          (bind_ids _ _ (call_ids w _ s refl refl h) λ _ s h. on_tx_ids w _ s refl refl h)
          (done_ids _ s h))
        λ _ s h. announce_ready_ids now rows s h

  complete_order_ids :
      (order_id : ℕ) → IsSteady orders tasks (complete_order_if_all_tasks_done w order_id)
  unfolding complete_order_if_all_tasks_done close_order
  complete_order_ids order_id s h = bind_ids _ _ (on_tx_ids w _ s refl refl h) λ remaining s h.
      if_ids (ltb 0 remaining) (pure false) (close_order w order_id) s (done_ids _ s h)
        (bind_ids _ _ (on_tx_ids w _ s refl refl h) λ _ s h. done_ids _ s h)

  -- The end of a completion, once the task's records are there.
  credited_ids :
      (now : ℕ) (task : TaskModel F) (machine_id staff_id started_at : ℕ)
      → IsSteady orders tasks (do
        increment_counter_usage w task.counter_id (negsuc 0)
        increment_machine_usage w machine_id (negsuc 0)
        update_staff_efficiency_and_active w staff_id (negsuc 0) task.estimate_secs started_at now
        ready_children ← decrement_dependent_pending_deps w task.id
        announce_ready w now ready_children
        insert_domain_event w
            (codes "task")
            (format_uint task.id)
            (task_event EventType.task_completed now task.id)
        mark_order_part_completed_if_not_done w task.order_id
        complete_order_if_all_tasks_done w task.order_id
        pure tt)
  unfolding increment_counter_usage increment_machine_usage update_staff_efficiency_and_active
      decrement_dependent_pending_deps insert_domain_event mark_order_part_completed_if_not_done
  credited_ids now task machine_id staff_id started_at s h =
      bind_ids _ _ (on_tx_ids w _ s refl refl h) λ _ s h.
        bind_ids _ _ (on_tx_ids w _ s refl refl h) λ _ s h.
          bind_ids _ _ (on_tx_ids w _ s refl refl h) λ _ s h.
            bind_ids _ _
              (bind_ids _ _ (on_tx_ids w _ s refl refl h) λ _ s h. on_tx_ids w _ s refl refl h)
              λ children s h. bind_ids _ _ (announce_ready_ids now children s h) λ _ s h.
                bind_ids _ _ (on_tx_ids w _ s refl refl h) λ _ s h.
                  bind_ids _ _ (on_tx_ids w _ s refl refl h) λ _ s h.
                    bind_ids _ _ (complete_order_ids task.order_id s h) λ _ s h. done_ids _ s h

  pub complete_body_ids : (now task_id : ℕ) → IsSteady orders tasks (complete_body w now task_id)
  unfolding complete_body update_task_status_completed read_task_locked
  complete_body_ids now task_id s h =
      bind_ids _ _
        (bind_ids _ _
          (bind_ids _ _ (on_tx_ids w _ s refl refl h) (λ row s h. or_throw_ids row _ s h))
          λ task s h.
            bind_ids _ _ (guard_ids (is_started task.status) (not_started task.id) s h)
              λ _ s h. bind_ids _ _ (on_tx_ids w _ s refl refl h) λ _ s h. done_ids _ s h)
        λ task s h. bind_ids _ _ (or_throw_ids task.assigned_machine_id _ s h) λ machine_id s h.
          bind_ids _ _ (or_throw_ids task.assigned_staff_id _ s h) λ staff_id s h.
            bind_ids _ _ (or_throw_ids task.started_at _ s h)
              λ started_at s h. credited_ids now task machine_id staff_id started_at s h

  pub forgive_ids : (r : Result (Unit {0})) → IsSteady orders tasks (forgive w r)
  unfolding forgive
  forgive_ids (ok a) s h = done_ids _ s h
  forgive_ids (err e) s h =
      if_ids
        (contains (error_text e) (codes "is not STARTED")
          || contains (error_text e) (codes "not found"))
        (pure tt) (throw e) s (done_ids _ s h) (done_ids _ s h)
