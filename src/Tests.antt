-- ===== src/Tests.antt =====
-- Runs of the model, and the theorems at concrete inputs.
pub mod Allocation
pub mod Api
pub mod AutoComplete
pub mod Board
pub mod Config
pub mod Confirming
pub mod HalfPlaced
pub mod Messaging
pub mod Orders
pub mod Outbox
pub mod Programs
pub mod Redis
pub mod Temporal
use kitchen_ops.Base.{
  Bytes, ℕ, IsSorted, ◌≡◌, refl, none, some, List, [], ◌∷◌, false, find?, has_key, codes, pos,
  negsuc, arith, min, ◌*◌, All, length, ◌++◌, if◌then◌else◌, any, bytes_eq,
}
use kitchen_ops.Base.Decimal.{format_uint, parse_uint}
use kitchen_ops.Models.{EventType, TaskStatus, TaskModel}
use kitchen_ops.Runtime.{Kitchen, call, on_tx, transaction, seconds, second}
use kitchen_ops.Repository.Allocation.{
  lock_task_for_assignment, find_eligible_staff, lock_counter, lock_machine_for_task, lock_staff,
  update_task_assignment, increment_staff_active_tasks,
}
use kitchen_ops.Repository.Events.{insert_domain_event}
use kitchen_ops.Repository.Lifecycle.{
  read_task_locked, update_task_status_started, update_task_status_completed,
  increment_counter_usage, increment_machine_usage, decrement_dependent_pending_deps,
  update_staff_efficiency_and_active, get_task_by_id, requeue_all, expired_tasks, requeue_body,
  requeue_expired_assigned_tasks,
}
use kitchen_ops.Repository.Orders.{
  close_order, complete_order_if_all_tasks_done, mark_order_in_progress_if_confirmed,
  mark_order_part_completed_if_not_done,
}
use kitchen_ops.Application.Scores
use kitchen_ops.Application.Scores.{queue_score, staff_score, pick_from, pick_staff}
use kitchen_ops.Application.Allocation.{
  record_assignment, assign_among, assign_task, settle, try_assign, assign_each, enqueue_requeued,
  requeue_expired, allocate_once,
}
use kitchen_ops.Temporal.{handle_event, forgive, complete_task_by_id_activity}
use kitchen_ops.Application.Tasks.{
  task_event, start_body, start_task, announce_child, announce_ready, complete_body, complete_task,
}
use kitchen_ops.Queue
use kitchen_ops.Queue.{delete, delete_all, score_of, item_ids, less, pop_top_n}
use kitchen_ops.Consistency.Requests.{
  Request, allocates, starts, handles, auto_completes, serve, serve_all,
}
use kitchen_ops.Consistency.Capacity.{WithinCapacity}
use kitchen_ops.Consistency.Capacity.Runs.{serve_all-WithinCapacity}
use kitchen_ops.Consistency.Lifecycle.{Reach}
use kitchen_ops.Consistency.Lifecycle.Runs.{
  serve_all-Reach, serve_all_keeps_completed, serve_all_gates,
}
use mathlib.Core.List.{Mem, Perm}
use kitchen_ops.Application.Scores.Choice.{IsOrdered, NoneBelow, pick_staff-least}
use kitchen_ops.Queue.Order.{IsTotal, precedes, pop_top_n-least}
use kitchen_ops.Queue.Contents.{score_of-pop_top_n}
use kitchen_ops.Outbox.{backoff, five_minutes}
use kitchen_ops.Outbox.Delay.{backoff-eq-min, backoff_wraps}
use kitchen_ops.Samples.{numbers, Items, calm, kitchen, tables, bake, plate, cook}

abbrev pub shift : List Request
shift = allocates ∷ starts 3 ∷ auto_completes 3 ∷ handles (task_event EventType.task_ready 0 5) ∷ []

-- What `plate` is by then: the second allocation has assigned it.
abbrev pub assigned_plate : TaskModel ℕ
assigned_plate = record plate {
  pending_deps = 0;
  assigned_staff_id = some 9;
  assigned_machine_id = some 4;
  status = TaskStatus.assigned;
  assignment_version = 1;
  assigned_at = some 136000000000;
}

pub shift_assigns :
    find? (has_key (λ t. t.id) 5) (serve_all calm kitchen shift).db.tasks ≡ some assigned_plate
unfolding handle_event forgive complete_task_by_id_activity serve serve_all call on_tx transaction
    seconds format_uint parse_uint lock_task_for_assignment find_eligible_staff lock_counter
    lock_machine_for_task lock_staff update_task_assignment increment_staff_active_tasks
    insert_domain_event read_task_locked update_task_status_started update_task_status_completed
    increment_counter_usage increment_machine_usage decrement_dependent_pending_deps
    update_staff_efficiency_and_active get_task_by_id requeue_all expired_tasks requeue_body
    requeue_expired_assigned_tasks close_order complete_order_if_all_tasks_done
    mark_order_in_progress_if_confirmed mark_order_part_completed_if_not_done Scores.enqueue
    Scores.pop_top_n queue_score staff_score pick_from pick_staff record_assignment assign_among
    assign_task settle try_assign assign_each enqueue_requeued requeue_expired allocate_once
    start_body start_task announce_child announce_ready complete_body complete_task Queue.enqueue
    Queue.pop_top_n delete delete_all
shift_assigns = refl

pub kitchen-WithinCapacity : WithinCapacity tables
kitchen-WithinCapacity = record {
  task_keys = omega arith;
  counter_keys = omega arith;
  machine_keys = omega arith;
  staff_keys = omega arith;
  counters = omega arith;
  machines = omega arith;
  staff = omega arith;
}

serve_all-WithinCapacity_example : WithinCapacity (serve_all calm kitchen shift).db
serve_all-WithinCapacity_example =
    serve_all-WithinCapacity calm kitchen shift kitchen-WithinCapacity

serve_all_gates_example : assigned_plate.pending_deps ≡ 0
serve_all_gates_example =
    serve_all_gates calm kitchen shift 5 plate assigned_plate kitchen-WithinCapacity.task_keys refl
      refl shift_assigns refl

serve_all-Reach_example :
    (u : TaskModel ℕ) × (find? (has_key (λ r. r.id) 3) (serve_all calm kitchen shift).db.tasks
      ≡ some u)
    × Reach bake u
serve_all-Reach_example =
    serve_all-Reach calm kitchen shift kitchen-WithinCapacity.task_keys 3 bake refl

abbrev baked : TaskModel ℕ
baked = record bake {
  status = TaskStatus.completed;
  assigned_staff_id = some 9;
  assigned_machine_id = some 4;
}

-- `bake` is done and `plate` is ready, but not yet in the queue.
abbrev after_baking : Kitchen ℕ Items
after_baking = record kitchen {
  db = record tables { tasks = baked ∷ record plate { pending_deps = 0 } ∷ [] };
}

serve_all_keeps_completed_example :
    find? (has_key (λ r. r.id) 3) (serve_all calm after_baking shift).db.tasks ≡ some baked
serve_all_keeps_completed_example =
    serve_all_keeps_completed calm after_baking shift 3 baked (omega arith) refl refl

pub numbers-IsTotal : IsTotal numbers
numbers-IsTotal = record {
  asym = λ a b h. ground arith;
  trans = λ a b c h k. ground arith;
  eq_iff = λ a b. ((λ h. ground arith), (λ h. ground arith));
}

numbers-IsOrdered : IsOrdered numbers
numbers-IsOrdered = record { asym = λ a b h. ground arith; trans = λ a b c h k. ground arith }

abbrev waiting : Items
waiting =
    record { task_id = codes "8"; score = 5 }
    ∷ record { task_id = codes "12"; score = 2 }
    ∷ record { task_id = codes "11"; score = 2 }
    ∷ []

waiting_pops :
    pop_top_n numbers 2 waiting
    ≡ (codes "11" ∷ codes "12" ∷ [], record { task_id = codes "8"; score = 5 } ∷ [])
unfolding pop_top_n delete delete_all
waiting_pops = refl

pop_top_n-least_example :
    (popped rest : Items) × ((pop_top_n numbers 2 waiting).0 ≡ item_ids popped)
    × Perm (popped ++ rest) waiting
    × IsSorted (precedes numbers) (popped ++ rest)
    × (length popped ≡ min 2 (length (popped ++ rest)))
    × All (λ a. All (λ b. precedes numbers b a ≡ false) rest) popped
pop_top_n-least_example = pop_top_n-least numbers numbers-IsTotal 1 waiting

score_of-pop_top_n_example : score_of (codes "8") (pop_top_n numbers 2 waiting).1 ≡ (
    if any (λ id. bytes_eq id (codes "8")) (pop_top_n numbers 2 waiting).0
    then none
    else score_of (codes "8") waiting)
score_of-pop_top_n_example = score_of-pop_top_n numbers 2 (codes "8") waiting

pick_staff-least_example :
    let pick = pick_staff numbers 100 cook (record cook { id = 10; active_tasks = 3 } ∷ []) in
    Mem pick (cook ∷ record cook { id = 10; active_tasks = 3 } ∷ [])
    × All
        (NoneBelow numbers numbers-IsOrdered 100 (staff_score numbers 100 pick))
        (cook ∷ record cook { id = 10; active_tasks = 3 } ∷ [])
pick_staff-least_example =
    pick_staff-least numbers numbers-IsOrdered 100 cook
      (record cook { id = 10; active_tasks = 3 } ∷ [])

backoff-eq-min_example : backoff 12 ≡ pos (min (12 * 12 * second) five_minutes)
backoff-eq-min_example = backoff-eq-min 12 (omega arith) (omega arith)

backoff_wraps_example : (d : ℕ) × (backoff 100000 ≡ negsuc d)
backoff_wraps_example = backoff_wraps 100000 (omega arith) (omega arith)
