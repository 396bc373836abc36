-- ===== src/Tests/Temporal.antt =====
-- A completion that comes for a task that is not started.
use kitchen_ops.Base.{[], ◌∷◌, ℕ, ◌≡◌, refl, some, codes, Bytes, pos, arith}
use kitchen_ops.Runtime.{ok}
use kitchen_ops.Temporal.{complete_task_by_id_activity}
use kitchen_ops.Temporal.Repeated.{complete_task_by_id_activity_again}
use kitchen_ops.Runtime.{◌>>=◌, pure, next_call}
use kitchen_ops.Models.{EventType, TaskStatus}
use kitchen_ops.Application.Tasks.{task_event, start_task, start_body}
use kitchen_ops.Temporal.Workflows.{Engine, start_of, run_workflow}
use kitchen_ops.Temporal.Workflows.Completion.{run_workflow_sleeps}
use kitchen_ops.Temporal.Workflows.Announced.{Announces, start_task-Announces}
use kitchen_ops.Runtime.Atomic.{AllOrNothing}
use kitchen_ops.Repository.Events.{insert_domain_event}
use kitchen_ops.Repository.Lifecycle.{update_task_status_started, read_task_locked}
use kitchen_ops.Runtime.{Kitchen, call, on_tx, transaction}
use kitchen_ops.Samples.{Items, calm, kitchen, tables, bake}

complete_task_by_id_activity_again_example :
    ((complete_task_by_id_activity calm 3 kitchen).0 ≡ ok tt)
    × ((complete_task_by_id_activity calm 3 kitchen).1.db ≡ tables)
complete_task_by_id_activity_again_example =
    complete_task_by_id_activity_again calm (λ n. refl) kitchen 3 bake refl refl

-- `bake` is handed to the staff member and the oven.
abbrev handed_out : Kitchen ℕ Items
handed_out = record kitchen {
  db = record tables {
    tasks =
        record bake {
          status = TaskStatus.assigned;
          assigned_staff_id = some 9;
          assigned_machine_id = some 4;
        }
        ∷ [];
  };
}

start_task-Announces_example :
    AllOrNothing
      (λ _ db. Announces calm 3 handed_out.db.domain_events db.domain_events)
      handed_out.db
      (start_task calm 3 handed_out)
start_task-Announces_example = start_task-Announces calm 3 handed_out (omega arith)

handed_out_starts : (start_task calm 3 handed_out).0 ≡ ok tt
unfolding start_task start_body update_task_status_started read_task_locked insert_domain_event
    transaction call on_tx
handed_out_starts = refl

-- Activities run at once, and nothing happens during a sleep.
abbrev prompt : Engine ℕ Items
prompt = record { execute_activity = λ m. m; sleep = λ d. pure tt }

abbrev unreadable : Bytes → Bytes
unreadable payload = codes "invalid task payload"

run_workflow_sleeps_example :
    run_workflow calm unreadable prompt
      (start_of 8 (task_event EventType.task_started 7 3)).workflow
      (start_of 8 (task_event EventType.task_started 7 3)).event
      kitchen
    ≡ (prompt.sleep (pos 5000000000) >>= λ _.
          prompt.execute_activity (complete_task_by_id_activity calm 3))
        (next_call kitchen)
run_workflow_sleeps_example =
    run_workflow_sleeps calm unreadable prompt (λ A m s a h. refl) 7 8 3 kitchen bake (omega arith)
      (omega arith) refl refl
