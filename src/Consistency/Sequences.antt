-- ===== src/Consistency/Sequences.antt =====
-- The requests draw no order's or task's id.
pub mod Allocation
pub mod Tasks
use kitchen_ops.Base.{
  ℕ, ◌≡◌, refl, ◌∙◌, Bool, false, ◌&&◌, ◌||◌, Option, none, some, List, [], ◌∷◌, Bytes, ℤ, negsuc,
  ltb, ◌==◌, if◌then◌else◌, codes,
}
use kitchen_ops.Base.Decimal.{parse_uint, format_uint}
use kitchen_ops.Base.Text.{contains}
use kitchen_ops.Models.{
  TaskModel, StaffModel, DomainEvent, EventType, is_unassigned, is_assigned, is_started,
}
use kitchen_ops.Runtime.{
  ◌>>◌, counter_busy, not_assigned, not_started, Services, Kitchen, Action, Result, ok, err, pure,
  throw, ◌>>=◌, and_then, or_throw, guard, on_tx, call, transaction,
}
use kitchen_ops.Runtime.Sequences.{
  IsSteady, AtIds, OnIds, bind_ids, done_ids, or_throw_ids, if_ids, guard_ids, on_tx_ids, call_ids,
  transaction_ids,
}
use kitchen_ops.Repository.Allocation.{
  lock_task_for_assignment, find_eligible_staff, lock_counter, lock_machine_for_task, lock_staff,
  update_task_assignment, increment_staff_active_tasks,
}
use kitchen_ops.Repository.Lifecycle.{
  read_task_locked, update_task_status_started, update_task_status_completed,
  increment_counter_usage, increment_machine_usage, decrement_dependent_pending_deps,
  update_staff_efficiency_and_active, get_task_by_id, release_staff, release_machine, requeue_task,
  requeue_all, expired_tasks, requeue_body, requeue_expired_assigned_tasks,
}
use kitchen_ops.Repository.Orders.{
  close_order, complete_order_if_all_tasks_done, mark_order_in_progress_if_confirmed,
  mark_order_part_completed_if_not_done,
}
use kitchen_ops.Repository.Events.{insert_domain_event}
use kitchen_ops.Application.Scores.{enqueue, pop_top_n, queue_score}
use kitchen_ops.Application.Allocation.{
  attempt, record_assignment, assign_among, assign_task, put_back, settle, try_assign, assign_each,
  enqueue_requeued, requeue_expired, allocate_once,
}
use kitchen_ops.Application.Tasks.{
  task_event, start_body, start_task, announce_child, announce_ready, complete_body, complete_task,
}
use kitchen_ops.Temporal.{
  is_listed, error_text, handle_event, forgive, complete_task_by_id_activity,
}
use kitchen_ops.Consistency.Requests.{
  Request, allocates, starts, completes, handles, auto_completes, serve, serve_all,
}
use kitchen_ops.Consistency.Sequences.Allocation.{allocate_once_ids}
use kitchen_ops.Consistency.Sequences.Tasks.{start_body_ids, complete_body_ids, forgive_ids}

module _ {F Q : Type 0} (w : Services F Q) where
  -- A request draws no id.
  serve-AtIds :
      (orders tasks : ℕ) (s : Kitchen F Q) (r : Request)
      → AtIds orders tasks s
      → AtIds orders tasks (serve w s r)
  unfolding serve start_task complete_task handle_event complete_task_by_id_activity
  serve-AtIds o i s allocates h = (allocate_once_ids w o i s h).after_at
  serve-AtIds o i s (starts task_id) h =
      (transaction_ids w _ s (start_body_ids w o i _ task_id) h).after_at
  serve-AtIds o i s (completes task_id) h =
      (transaction_ids w _ s (complete_body_ids w o i _ task_id) h).after_at
  serve-AtIds o i s (handles event) h =
      (if_ids (is_listed event.type) (allocate_once w >>= λ _. pure tt) (pure tt) s
        (bind_ids _ _ (allocate_once_ids w o i s h) λ _ t k. done_ids _ t k)
        (done_ids _ s h)).after_at
  serve-AtIds o i s (auto_completes task_id) h =
      (forgive_ids w o i _ _
        (transaction_ids w _ s (complete_body_ids w o i _ task_id) h).after_at).after_at

  -- Any sequence of requests leaves the sequences of order and task ids as they are.
  pub serve_all-AtIds :
      (orders tasks : ℕ) (s : Kitchen F Q) (rs : List Request)
      → AtIds orders tasks s
      → AtIds orders tasks (serve_all w s rs)
  unfolding serve_all
  serve_all-AtIds o i s [] h = h
  serve_all-AtIds o i s (r ∷ rs) h = serve_all-AtIds o i (serve w s r) rs (serve-AtIds o i s r h)
