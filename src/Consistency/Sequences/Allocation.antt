-- ===== src/Consistency/Sequences/Allocation.antt =====
-- An allocation draws no order's or task's id.
use kitchen_ops.Base.{ℕ, refl, Option, none, some, List, [], ◌∷◌, Bytes, ltb, if◌then◌else◌}
use kitchen_ops.Base.Decimal.{parse_uint, format_uint}
use kitchen_ops.Models.{TaskModel, StaffModel, is_unassigned}
use kitchen_ops.Runtime.{counter_busy, Services, Result, ok, err, pure, ◌>>=◌}
use kitchen_ops.Runtime.Sequences.{
  IsSteady, bind_ids, done_ids, or_throw_ids, if_ids, guard_ids, on_tx_ids, call_ids,
  transaction_ids,
}
use kitchen_ops.Repository.Allocation.{
  lock_task_for_assignment, find_eligible_staff, lock_counter, lock_machine_for_task, lock_staff,
  update_task_assignment, increment_staff_active_tasks,
}
use kitchen_ops.Repository.Lifecycle.{
  increment_counter_usage, increment_machine_usage, get_task_by_id, release_staff, release_machine,
  requeue_task, requeue_all, expired_tasks, requeue_body, requeue_expired_assigned_tasks,
}
use kitchen_ops.Repository.Orders.{mark_order_in_progress_if_confirmed}
use kitchen_ops.Repository.Events.{insert_domain_event}
use kitchen_ops.Application.Scores.{enqueue, pop_top_n, queue_score}
use kitchen_ops.Application.Allocation.{
  record_assignment, assign_among, assign_task, put_back, settle, try_assign, assign_each,
  enqueue_requeued, requeue_expired, allocate_once,
}

module _ {F Q : Type 0} (w : Services F Q) (orders tasks : ℕ) where
  record_assignment_ids :
      (now : ℕ) (task : TaskModel F) (staff_id machine_id : ℕ)
      → IsSteady orders tasks (record_assignment w now task staff_id machine_id)
  unfolding record_assignment update_task_assignment increment_counter_usage increment_machine_usage
      mark_order_in_progress_if_confirmed increment_staff_active_tasks insert_domain_event
  record_assignment_ids now task staff_id machine_id s h =
      bind_ids _ _ (on_tx_ids w _ s refl refl h) λ _ s h.
        bind_ids _ _ (on_tx_ids w _ s refl refl h) λ _ s h.
          bind_ids _ _ (on_tx_ids w _ s refl refl h) λ _ s h.
            bind_ids _ _ (on_tx_ids w _ s refl refl h) λ _ s h.
              bind_ids _ _ (on_tx_ids w _ s refl refl h)
                λ _ s h. bind_ids _ _ (on_tx_ids w _ s refl refl h) λ _ s h. done_ids _ s h

  assign_among_ids :
      (now : ℕ) (task : TaskModel F) (staff : List (StaffModel F))
      → IsSteady orders tasks (assign_among w now task staff)
  unfolding assign_among lock_machine_for_task lock_staff
  assign_among_ids now task [] s h = done_ids _ s h
  assign_among_ids now task (first ∷ rest) s h =
      bind_ids _ _ (or_throw_ids task.machine_id _ s h) λ machine_id s h.
        bind_ids _ _
          (bind_ids _ _ (on_tx_ids w _ s refl refl h) (λ row s h. or_throw_ids row _ s h))
          λ machine s h.
            bind_ids _ _
              (bind_ids _ _ (on_tx_ids w _ s refl refl h) (λ row s h. or_throw_ids row _ s h))
              λ _ s h. record_assignment_ids now task _ machine.id s h

  assign_task_ids : (now task_id : ℕ) → IsSteady orders tasks (assign_task w now task_id)
  unfolding assign_task lock_task_for_assignment lock_counter find_eligible_staff
  assign_task_ids now task_id s h =
      bind_ids _ _ (bind_ids _ _ (on_tx_ids w _ s refl refl h) (λ row s h. or_throw_ids row _ s h))
        λ task s h.
          bind_ids _ _
            (bind_ids _ _ (on_tx_ids w _ s refl refl h) (λ row s h. or_throw_ids row _ s h))
            λ counter s h.
              bind_ids _ _ (guard_ids (ltb counter.in_use counter.capacity) counter_busy s h)
                λ _ s h.
                  bind_ids _ _ (on_tx_ids w _ s refl refl h)
                    λ staff s h. assign_among_ids now task staff s h

  put_back_ids : (task_id : ℕ) → IsSteady orders tasks (put_back w task_id)
  unfolding put_back get_task_by_id enqueue
  put_back_ids task_id s h = done_ids _ _ (tried s h).after_at
    where
      tried : IsSteady orders tasks (
          get_task_by_id w task_id >>= λ task s'.
          (if is_unassigned task.status
              then enqueue w
                  (format_uint task.id)
                  (queue_score w.float (w.clock s'.calls) task.base_priority task.created_at)
              else pure tt)
            s')
      tried s h =
          bind_ids _ _
            (bind_ids _ _ (call_ids w _ s refl refl h) (λ row s h. or_throw_ids row _ s h))
            λ task s h.
              if_ids (is_unassigned task.status) (enqueue w _ _) (pure tt) s
                (call_ids w _ s refl refl h) (done_ids _ s h)

  settle_ids : (task_id first : ℕ) (r : Result ℕ) → IsSteady orders tasks (settle w task_id first r)
  unfolding settle
  settle_ids task_id first (ok id) s h = done_ids _ s h
  settle_ids task_id first (err e) s h =
      bind_ids _ _ (put_back_ids task_id s h) λ _ s h. done_ids _ s h

  try_assign_ids : (now first : ℕ) (o : Option ℕ) → IsSteady orders tasks (try_assign w now first o)
  unfolding try_assign
  try_assign_ids now first none s h = done_ids _ s h
  try_assign_ids now first (some task_id) s h =
      settle_ids task_id first _ _
        (transaction_ids w (assign_task w now task_id) s (assign_task_ids now task_id) h).after_at

  assign_each_ids :
      (now first : ℕ) (ids : List Bytes) → IsSteady orders tasks (assign_each w now first ids)
  unfolding assign_each
  assign_each_ids now first [] s h = done_ids _ s h
  assign_each_ids now first (raw ∷ ids) s h =
      bind_ids _ _ (try_assign_ids now first (parse_uint raw) s h)
        λ f s h. assign_each_ids now f ids s h

  enqueue_requeued_ids :
      (rows : List (TaskModel F)) → IsSteady orders tasks (enqueue_requeued w rows)
  unfolding enqueue_requeued enqueue
  enqueue_requeued_ids [] s h = done_ids _ s h
  enqueue_requeued_ids (row ∷ rows) s h =
      bind_ids _ _ (call_ids w _ s refl refl h) λ _ s h. enqueue_requeued_ids rows s h

  release_staff_ids : (staff_id : Option ℕ) → IsSteady orders tasks (release_staff w staff_id)
  unfolding release_staff
  release_staff_ids none s h = done_ids _ s h
  release_staff_ids (some staff_id) s h = on_tx_ids w _ s refl refl h

  release_machine_ids :
      (machine_id : Option ℕ) → IsSteady orders tasks (release_machine w machine_id)
  unfolding release_machine
  release_machine_ids none s h = done_ids _ s h
  release_machine_ids (some machine_id) s h = on_tx_ids w _ s refl refl h

  requeue_task_ids : (row : TaskModel F) → IsSteady orders tasks (requeue_task w row)
  unfolding requeue_task insert_domain_event
  requeue_task_ids row s h = bind_ids _ _ (on_tx_ids w _ s refl refl h) λ _ s h.
      bind_ids _ _ (release_staff_ids row.assigned_staff_id s h) λ _ s h.
        bind_ids _ _ (on_tx_ids w _ s refl refl h) λ _ s h.
          bind_ids _ _ (release_machine_ids row.assigned_machine_id s h)
            λ _ s h. bind_ids _ _ (on_tx_ids w _ s refl refl h) λ _ s h. done_ids _ s h

  requeue_all_ids : (rows : List (TaskModel F)) → IsSteady orders tasks (requeue_all w rows)
  unfolding requeue_all
  requeue_all_ids [] s h = done_ids _ s h
  requeue_all_ids (row ∷ rows) s h =
      bind_ids _ _ (requeue_task_ids row s h)
        λ _ s h. bind_ids _ _ (requeue_all_ids rows s h) λ _ s h. done_ids _ s h

  requeue_body_ids : (cutoff limit : ℕ) → IsSteady orders tasks (requeue_body w cutoff limit)
  unfolding requeue_body expired_tasks
  requeue_body_ids cutoff limit s h =
      bind_ids _ _ (on_tx_ids w _ s refl refl h) λ rows s h. requeue_all_ids rows s h

  pub allocate_once_ids : IsSteady orders tasks (allocate_once w)
  unfolding allocate_once requeue_expired requeue_expired_assigned_tasks pop_top_n
  allocate_once_ids s h =
      bind_ids _ _
        (bind_ids _ _ (transaction_ids w _ s (requeue_body_ids _ 50) h)
          λ rows s h. enqueue_requeued_ids rows s h)
        λ _ s h. bind_ids _ _ (call_ids w _ s refl refl h) λ ids s h. assign_each_ids _ 0 ids s h
