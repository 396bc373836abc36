-- ===== src/Tests/Api.antt =====
-- The theorems about the API's answers at concrete requests.
use kitchen_ops.Base.{[], ◌∷◌, ℕ, ◌≡◌, ◌⊎◌, refl, none, some, Bytes, codes, find?, has_key}
use kitchen_ops.Base.Decimal.{parse_uint, format_uint}
use kitchen_ops.Models.{TaskModel}
use kitchen_ops.Repository.Lifecycle.{
  get_task_by_id, update_task_status_started, update_task_status_completed, read_task_locked,
  increment_counter_usage, increment_machine_usage, decrement_dependent_pending_deps,
  update_staff_efficiency_and_active,
}
use kitchen_ops.Application.Tasks.{
  get_task, start_task, start_body, complete_task, complete_body, announce_ready, announce_child,
}
use kitchen_ops.Runtime.{Kitchen, call, on_tx, transaction}
use kitchen_ops.Consistency.Board.{board}
use kitchen_ops.Consistency.Board.Effects.{Started, Completed}
use kitchen_ops.Api.{
  parse_task_id, handle_start_task, handle_complete_task, handle_get_task, write_json, task_payload,
}
use kitchen_ops.Api.Answers.{
  Answered, handle_start_task-Answered, handle_complete_task-Answered, handle_get_task_answers,
}
use kitchen_ops.Samples.{Items, calm, kitchen, tables, bake, plate}
use kitchen_ops.Tests.Board.{started_bake, after_assignment}
use kitchen_ops.Application.Scores
use kitchen_ops.Queue
use kitchen_ops.Repository.Events.{insert_domain_event}
use kitchen_ops.Repository.Orders.{
  close_order, complete_order_if_all_tasks_done, mark_order_part_completed_if_not_done,
}

handle_start_task-Answered_example :
    Answered
      ((task_id : ℕ) × (parse_task_id (codes "3") ≡ some task_id)
        × Started 100000000000 task_id
            (board after_assignment.db)
            (board (handle_start_task calm (codes "3") after_assignment).1.db))
      after_assignment
      (handle_start_task calm (codes "3") after_assignment)
handle_start_task-Answered_example = handle_start_task-Answered calm after_assignment (codes "3")

start_answer : (handle_start_task calm (codes "3") after_assignment).0.status ≡ 200
unfolding handle_start_task parse_task_id parse_uint start_task start_body
    update_task_status_started read_task_locked insert_domain_event transaction call on_tx
start_answer = refl

abbrev after_start : Kitchen ℕ Items
after_start = record kitchen { db = record tables { tasks = started_bake ∷ plate ∷ [] } }

handle_complete_task-Answered_example :
    Answered
      ((task_id : ℕ) × (parse_task_id (codes "3") ≡ some task_id)
        × Completed 100000000000 task_id
            (board after_start.db)
            (board (handle_complete_task calm (codes "3") after_start).1.db))
      after_start
      (handle_complete_task calm (codes "3") after_start)
handle_complete_task-Answered_example = handle_complete_task-Answered calm after_start (codes "3")

complete_answer : (handle_complete_task calm (codes "3") after_start).0.status ≡ 200
unfolding handle_complete_task parse_task_id parse_uint complete_task complete_body
    update_task_status_completed read_task_locked insert_domain_event transaction call on_tx
    increment_counter_usage increment_machine_usage decrement_dependent_pending_deps
    update_staff_efficiency_and_active close_order complete_order_if_all_tasks_done
    mark_order_part_completed_if_not_done announce_ready announce_child Scores.enqueue format_uint
    Queue.enqueue
complete_answer = refl

read_three : parse_task_id (codes "3") ≡ some 3
unfolding parse_task_id parse_uint
read_three = refl

found_three : (handle_get_task calm (codes "3") kitchen).0 ≡ write_json 200 (task_payload bake)
unfolding handle_get_task parse_task_id parse_uint get_task get_task_by_id call
found_three = refl

handle_get_task_answers_example :
    ((handle_get_task calm (codes "3") kitchen).1.db ≡ tables)
    × (((t : TaskModel ℕ) × (find? (has_key (λ r. r.id) 3) tables.tasks ≡ some t)
          × ((handle_get_task calm (codes "3") kitchen).0 ≡ write_json 200 (task_payload t)))
        ⊎ (((find? (has_key (λ (r : TaskModel ℕ). r.id) 3) tables.tasks ≡ none)
              × ((handle_get_task calm (codes "3") kitchen).0.status ≡ 404))
            ⊎ ((text : Bytes) × (calm.fails 0 ≡ some text)
                × ((handle_get_task calm (codes "3") kitchen).0.status ≡ 500))))
handle_get_task_answers_example = handle_get_task_answers calm kitchen (codes "3") 3 read_three
